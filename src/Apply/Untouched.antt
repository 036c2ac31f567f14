-- ===== src/Apply/Untouched.antt =====
-- What a transformation leaves alone.
use leafmask.Prelude.{
  Text, Bool, true, false, Option, none, some, List, [], ◌∷◌, map, ◌≡◌, ◌∙◌, split_on, All,
  if◌then◌else◌,
}
use leafmask.Prelude.Result.{ok, ◌>>?◌, >>?-eq-ok, Run, returns, panics, then_run}
use leafmask.Bson.{Document, BsonApi, StdApi}
use leafmask.FieldPath.{dot, get_path, set_path}
use leafmask.FieldPath.Laws.{Diverge, get_path-set_path-Diverge}
use leafmask.Apply.{
  Toolbox, CompiledRule, CollectionPlan, TransformationPlan, plan_for, rule_fields,
  transformed_fields, gate, rule_value, apply_rule, apply_rules, transform_by, transform,
}

-- The path is neither the beginning of a transformed field nor below one.
abbrev pub Apart : List Text → Text → Type 0
Apart fields path = All (λ f. Diverge (split_on dot f) (split_on dot path)) fields

module _ (toolbox : Toolbox) ⦃api : BsonApi⦄ ⦃std : StdApi⦄ where
  apply_rule-Apart :
      (rule : CompiledRule toolbox) (doc out next : Document) (b : Bool) (path : Text)
      → Diverge (split_on dot rule.field) (split_on dot path)
      → apply_rule toolbox rule doc out b ≡ returns (ok next)
      → get_path next path ≡ get_path out path
  apply_rule-Apart rule doc out next false path apart e = let same : out ≡ next = cc in rw (← same)
  apply_rule-Apart rule doc out next true path apart e =
      let (v, _, f) = >>?-eq-ok (rule_value toolbox rule doc) _ e in
      let same : set_path out rule.field v ≡ next = cc in
      rw (← same) (get_path-set_path-Diverge out rule.field path v apart)

  pub apply_rules-Apart :
      (rules : List (CompiledRule toolbox)) (doc out final : Document) (path : Text)
      → Apart (map (λ r. r.field) rules) path
      → apply_rules toolbox rules doc out ≡ returns (ok final)
      → get_path final path ≡ get_path out path
  unfolding apply_rules
  apply_rules-Apart [] doc out final path apart e = let same : out ≡ final = cc in rw (← same)
  apply_rules-Apart (rule ∷ rules) doc out final path (apart, others) e =
      after (gate toolbox rule.when doc)
        (λ next. apply_rules-Apart rules doc next final path others) e
    where
      after :
          (g : Run Bool)
          → ((next : Document)
              → apply_rules toolbox rules doc next ≡ returns (ok final)
              → get_path final path ≡ get_path next path)
          → then_run g (λ passes.
            apply_rule toolbox rule doc out passes >>? λ next. apply_rules toolbox rules doc next)
            ≡ returns (ok final)
          → get_path final path ≡ get_path out path
      after panics ih h = cc
      after (returns b) ih h =
          let (next, f, g) = >>?-eq-ok (apply_rule toolbox rule doc out b) _ h in
          ih next g ∙ apply_rule-Apart rule doc out next b path apart f

  transform_by-Apart :
      (plan : Option (CollectionPlan toolbox)) (doc final : Document) (path : Text)
      → Apart (rule_fields toolbox plan) path
      → transform_by toolbox plan doc ≡ returns (ok final)
      → get_path final path ≡ get_path doc path
  transform_by-Apart none doc final path apart e = let same : doc ≡ final = cc in rw (← same)
  transform_by-Apart (some plan) doc final path apart e = after (gate toolbox plan.when doc) e
    where
      after :
          (g : Run Bool)
          → then_run g (λ passes.
            if passes then apply_rules toolbox plan.rules doc doc else returns (ok doc))
            ≡ returns (ok final)
          → get_path final path ≡ get_path doc path
      after panics h = cc
      after (returns true) h = apply_rules-Apart plan.rules doc doc final path apart h
      after (returns false) h = let same : doc ≡ final = cc in rw (← same)

  -- A transformation that succeeds leaves the value at every path as it was whose parts diverge
  -- from those of every transformed field of the collection.
  pub transform-Apart :
      (plan : TransformationPlan toolbox) (collection : Text) (doc final : Document) (path : Text)
      → Apart (transformed_fields toolbox plan collection) path
      → transform toolbox plan collection doc ≡ returns (ok final)
      → get_path final path ≡ get_path doc path
  unfolding transform transformed_fields
  transform-Apart plan collection doc final path apart e =
      transform_by-Apart (plan_for toolbox plan.collections collection) doc final path apart e
