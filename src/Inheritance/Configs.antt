-- ===== src/Inheritance/Configs.antt =====
-- `expand_transformation_configs` of transform/inheritance.rs, with the configuration that it
-- expands, of transform/apply.rs.
use mathlib.Core.List.{append-nil, append_assoc}
use leafmask.Prelude.{
  Text, text_eq, Bool, false, Option, none, List, [], ◌∷◌, ◌++◌, map, filter, ◌≡◌, refl, sym, ap,
  ◌∙◌, inl, inr, In, Bool-cases, if◌then◌else◌,
}
use leafmask.Toolkit.Yaml.{Yaml}
use leafmask.Reference.{ReferenceGraph}
use leafmask.Inheritance.{Params, FieldTransform, expand_inherited}

-- DynSource of transform/dynamic.rs: where a dynamic parameter reads its value.
pub record DynSource : Type 0 where
  pub field : Text

pub record TransformerRule : Type 0 where
  pub field : Text
  pub name : Text
  pub params : Params
  pub when : Option Text
  pub dynamic_params : List (Text × DynSource)
  pub apply_for_references : Bool
  pub type_override : Option Text

pub record TransformationConfig : Type 0 where
  pub collection : Text
  pub when : Option Text
  pub query : Option Yaml
  pub transformers : List TransformerRule

abbrev pub field_transform : Text → TransformerRule → FieldTransform
field_transform collection r = record {
  collection = collection;
  field = r.field;
  transformer_name = r.name;
  params = r.params;
  apply_for_references = r.apply_for_references;
  inherited = false;
}

abbrev pub explicit_of : List TransformationConfig → List FieldTransform
explicit_of [] = []
explicit_of (c ∷ cs) = map (field_transform c.collection) c.transformers ++ explicit_of cs

-- Conditions and dynamic parameters are not inherited, and the rule goes no further.
abbrev pub inherited_rule : FieldTransform → TransformerRule
inherited_rule t = record {
  field = t.field;
  name = t.transformer_name;
  params = t.params;
  when = none;
  dynamic_params = [];
  apply_for_references = false;
  type_override = none;
}

-- The rule goes to the first entry of its collection, or to a new one at the end.
unfoldable pub add_rule : FieldTransform → List TransformationConfig → List TransformationConfig
add_rule t [] =
    record {
      collection = t.collection;
      when = none;
      query = none;
      transformers = inherited_rule t ∷ [];
    }
    ∷ []
add_rule t (c ∷ cs) =
    let rest = add_rule t cs in
    if text_eq c.collection t.collection
    then record c { transformers = c.transformers ++ inherited_rule t ∷ [] } ∷ cs
    else c ∷ rest

unfoldable pub add_rules :
    List FieldTransform → List TransformationConfig → List TransformationConfig
add_rules [] out = out
add_rules (t ∷ ts) out = add_rules ts (add_rule t out)

unfoldable pub expand_transformation_configs :
    List TransformationConfig → ReferenceGraph → List TransformationConfig
expand_transformation_configs configs graph =
    add_rules (filter (λ t. t.inherited) (expand_inherited (explicit_of configs) graph)) configs

-- c, with further rules behind its own.
pub record Extended (c : TransformationConfig) (out : List TransformationConfig) : Type 0 where
  pub entry : TransformationConfig
  pub member : In entry out
  pub same_collection : entry.collection ≡ c.collection
  pub same_when : entry.when ≡ c.when
  pub same_query : entry.query ≡ c.query
  pub more : List TransformerRule
  pub rules : entry.transformers ≡ c.transformers ++ more

Extended-self :
    (c : TransformationConfig) (out : List TransformationConfig) → In c out → Extended c out
Extended-self c out i = record {
  entry = c;
  member = i;
  same_collection = refl;
  same_when = refl;
  same_query = refl;
  more = [];
  rules = sym (append-nil c.transformers);
}

Extended-trans :
    (c : TransformationConfig) (out final : List TransformationConfig)
    → (h : Extended c out) → Extended h.entry final
    → Extended c final
Extended-trans c out final h g = record {
  entry = g.entry;
  member = g.member;
  same_collection = g.same_collection ∙ h.same_collection;
  same_when = g.same_when ∙ h.same_when;
  same_query = g.same_query ∙ h.same_query;
  more = h.more ++ g.more;
  rules = g.rules ∙ ap (λ rs. rs ++ g.more) h.rules ∙ append_assoc c.transformers h.more g.more;
}

Extended-later :
    (c d : TransformationConfig) (out : List TransformationConfig)
    → Extended c out
    → Extended c (d ∷ out)
Extended-later c d out h = record {
  entry = h.entry;
  member = inr h.member;
  same_collection = h.same_collection;
  same_when = h.same_when;
  same_query = h.same_query;
  more = h.more;
  rules = h.rules;
}

add_rule-Extended :
    (t : FieldTransform) (cs : List TransformationConfig) (c : TransformationConfig)
    → In c cs
    → Extended c (add_rule t cs)
unfolding add_rule
add_rule-Extended t [] c i = absurd i
add_rule-Extended t (d ∷ cs) c i =
    let below = add_rule-Extended t cs c in
    elim (Bool-cases (text_eq d.collection t.collection)) [
      | inl e ↦ rw e (elim i [
        | inl same ↦ record {
          entry = record d { transformers = d.transformers ++ inherited_rule t ∷ [] };
          member = inl refl;
          same_collection = ap (λ x. x.collection) (sym same);
          same_when = ap (λ x. x.when) (sym same);
          same_query = ap (λ x. x.query) (sym same);
          more = inherited_rule t ∷ [];
          rules = ap (λ x. x.transformers ++ inherited_rule t ∷ []) (sym same);
        }
        | inr later ↦ Extended-self c _ (inr later)
      ])
      | inr e ↦ rw e (elim i [
        | inl same ↦ Extended-self c _ (inl same)
        | inr later ↦ Extended-later c d (add_rule t cs) (below later)
      ])
    ]

add_rules-Extended :
    (ts : List FieldTransform) (cs : List TransformationConfig) (c : TransformationConfig)
    → In c cs
    → Extended c (add_rules ts cs)
unfolding add_rules
add_rules-Extended [] cs c i = Extended-self c cs i
add_rules-Extended (t ∷ ts) cs c i =
    let first = add_rule-Extended t cs c i in
    Extended-trans c (add_rule t cs) (add_rules ts (add_rule t cs)) first
      (add_rules-Extended ts (add_rule t cs) first.entry first.member)

-- Every configured entry is kept: its collection, condition and query are as they were, and its
-- rules stand, in order, in front of any inherited ones.
pub expand_transformation_configs-Extended :
    (configs : List TransformationConfig) (graph : ReferenceGraph) (c : TransformationConfig)
    → In c configs
    → Extended c (expand_transformation_configs configs graph)
unfolding expand_transformation_configs
expand_transformation_configs-Extended configs graph c i =
    add_rules-Extended (filter (λ t. t.inherited) (expand_inherited (explicit_of configs) graph))
      configs c i
