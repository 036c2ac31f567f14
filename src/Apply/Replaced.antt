-- ===== src/Apply/Replaced.antt =====
-- What a transformation puts in place of a configured field.
use leafmask.Prelude.{
  Text, Bool, true, false, some, List, [], ◌∷◌, ◌++◌, map, ◌≡◌, refl, sym, ap, ◌∙◌,
}
use leafmask.Prelude.Result.{ok, Run, returns, panics, then_run, ◌>>?◌, >>?-eq-ok}
use leafmask.Bson.{Bson, Document, BsonApi, StdApi}
use leafmask.FieldPath.{get_path, set_path}
use leafmask.FieldPath.Laws.{get_path-set_path_self}
use leafmask.Apply.{
  Toolbox, CompiledRule, CollectionPlan, TransformationPlan, plan_for, gate, rule_value, apply_rule,
  apply_rules, transform,
}
use leafmask.Apply.Untouched.{Apart, apply_rules-Apart}

module _ (toolbox : Toolbox) ⦃api : BsonApi⦄ ⦃std : StdApi⦄ where
  -- A loop that succeeds has decided and run its first rule.
  record FirstRule (rule : CompiledRule toolbox) (rules : List (CompiledRule toolbox))
      (doc out final : Document) : Type 0 where
    passes : Bool
    next : Document
    decided : gate toolbox rule.when doc ≡ returns passes
    applied : apply_rule toolbox rule doc out passes ≡ returns (ok next)
    others : apply_rules toolbox rules doc next ≡ returns (ok final)

  apply_rules-FirstRule :
      (rule : CompiledRule toolbox) (rules : List (CompiledRule toolbox)) (doc out final : Document)
      → apply_rules toolbox (rule ∷ rules) doc out ≡ returns (ok final)
      → FirstRule rule rules doc out final
  unfolding apply_rules
  apply_rules-FirstRule rule rules doc out final e = decide (gate toolbox rule.when doc) refl e
    where
      decide :
          (g : Run Bool)
          → gate toolbox rule.when doc ≡ g
          → then_run g (λ passes.
            apply_rule toolbox rule doc out passes >>? λ next. apply_rules toolbox rules doc next)
            ≡ returns (ok final)
          → FirstRule rule rules doc out final
      decide panics p h = cc
      decide (returns b) p h =
          let (next, f, g) = >>?-eq-ok (apply_rule toolbox rule doc out b) _ h in
          record { passes = b; next = next; decided = p; applied = f; others = g }

  -- The field has the value that the rule makes of the document.
  abbrev pub Replaced : CompiledRule toolbox → Document → Document → Type 0
  Replaced rule doc final =
      (v : Bson) × (rule_value toolbox rule doc ≡ returns (ok v))
      × (get_path final rule.field ≡ some v)

  apply_rule-Replaced :
      (rule : CompiledRule toolbox) (doc out next final : Document) (b : Bool)
      → gate toolbox rule.when doc ≡ returns true
      → gate toolbox rule.when doc ≡ returns b
      → apply_rule toolbox rule doc out b ≡ returns (ok next)
      → get_path final rule.field ≡ get_path next rule.field
      → Replaced rule doc final
  apply_rule-Replaced rule doc out next final false passes not_passes e kept =
      cc (passes, not_passes)
  apply_rule-Replaced rule doc out next final true passes decided e kept =
      let (v, f, g) = >>?-eq-ok (rule_value toolbox rule doc) _ e in
      let same : set_path out rule.field v ≡ next = cc in
      (
        v,
        f,
        kept
            ∙ (ap (λ d. get_path d rule.field) (sym same)
                ∙ get_path-set_path_self out rule.field v),
      )

  apply_rules-Replaced :
      (before : List (CompiledRule toolbox)) (rule : CompiledRule toolbox)
      (after : List (CompiledRule toolbox)) (doc out final : Document)
      → gate toolbox rule.when doc ≡ returns true
      → Apart (map (λ r. r.field) after) rule.field
      → apply_rules toolbox (before ++ rule ∷ after) doc out ≡ returns (ok final)
      → Replaced rule doc final
  apply_rules-Replaced [] rule after doc out final passes apart e =
      let first = apply_rules-FirstRule rule after doc out final e in
      apply_rule-Replaced rule doc out first.next final first.passes passes first.decided
        first.applied
        (apply_rules-Apart toolbox after doc first.next final rule.field apart first.others)
  apply_rules-Replaced (r ∷ before) rule after doc out final passes apart e =
      let first = apply_rules-FirstRule r (before ++ rule ∷ after) doc out final e in
      apply_rules-Replaced before rule after doc first.next final passes apart first.others

  -- A transformation that succeeds puts at the field of each rule of the collection the value
  -- that the rule makes of the original document, if the conditions of the collection and of the
  -- rule hold and the paths of all later rules diverge from the field.
  pub transform-Replaced :
      (plan : TransformationPlan toolbox) (collection : Text) (doc final : Document)
      (entry : CollectionPlan toolbox) (before after : List (CompiledRule toolbox))
      (rule : CompiledRule toolbox)
      → plan_for toolbox plan.collections collection ≡ some entry
      → entry.rules ≡ before ++ rule ∷ after
      → gate toolbox entry.when doc ≡ returns true
      → gate toolbox rule.when doc ≡ returns true
      → Apart (map (λ r. r.field) after) rule.field
      → transform toolbox plan collection doc ≡ returns (ok final)
      → Replaced rule doc final
  unfolding transform
  transform-Replaced plan collection doc final entry before after rule found rules selected passes
        apart e =
      let all : apply_rules toolbox entry.rules doc doc ≡ returns (ok final) =
        rw (found, selected) at e in
      apply_rules-Replaced before rule after doc doc final passes apart (rw rules at all)
