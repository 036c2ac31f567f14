-- ===== src/Apply.antt =====
-- transform/apply.rs: a compiled plan and the transformation of a document by it. Building a
-- transformer, casting a value and resolving dynamic parameters are the argument `Toolbox`.
pub mod Untouched
pub mod Replaced
pub mod Compile
pub mod Compiled
pub mod Tests
use leafmask.Prelude.{
  ℕ, Text, text_eq, Bool, true, false, ◌&&◌, Option, none, some, List, [], ◌∷◌, map, unwrap_or,
  if◌then◌else◌, Map, at_key,
}
use leafmask.Prelude.Result.{Error, Result, ok, Run, ◌>>?◌, returns, panics, then_run}
use leafmask.Bson.{Bson, Document, BsonApi, StdApi, null, end, field}
use leafmask.Condition.Eval.{Condition, eval}
use leafmask.FieldPath.{get_path, set_path}

-- The `Transformer` trait's `transform`: the field's value and the whole document.
abbrev pub Transformer : Type 0
Transformer = Bson → Document → Run (Result Bson)

-- `ParamValues`, `DynamicParams` and `ParamType`, and what is done with them.
pub record Toolbox : Type 1 where
  pub ParamValues : Type 0
  pub DynamicParams : Type 0
  pub ParamType : Type 0
  pub bson_to_typed : Bson → ParamType → Result Bson
  pub resolve : DynamicParams → Document → ParamValues → Result ParamValues
  pub build : Text → ParamValues → Run (Result Transformer)

module _ (toolbox : Toolbox) where
  pub data RuleExec : Type 0 where
    static : Transformer → RuleExec
    dynamic : Text → toolbox.ParamValues → toolbox.DynamicParams → RuleExec

  pub record CompiledRule : Type 0 where
    pub field : Text
    pub when : Option Condition
    pub type_override : Option toolbox.ParamType
    pub exec : RuleExec

  pub record CollectionPlan : Type 0 where
    pub when : Option Condition
    pub query : Option Document
    pub rules : List CompiledRule

  -- The plan of each collection.
  pub record TransformationPlan : Type 0 where
    pub collections : Map CollectionPlan

  unfoldable pub plan_for : Map CollectionPlan → Text → Option CollectionPlan
  plan_for plans collection = at_key plans collection

  abbrev pub rule_fields : Option CollectionPlan → List Text
  rule_fields none = []
  rule_fields (some plan) = map (λ r. r.field) plan.rules

  unfoldable pub transformed_fields : TransformationPlan → Text → List Text
  transformed_fields plan collection = rule_fields (plan_for plan.collections collection)

  module _ ⦃api : BsonApi⦄ ⦃std : StdApi⦄ where
    abbrev pub is_value : Option Bson → Bson → Bool
    is_value none v = false
    is_value (some actual) v = api.eq actual v

    -- The fields of the query in turn.
    unfoldable pub matches_query : Document → Document → Bool
    matches_query doc end = true
    matches_query doc (field k v query) = is_value (get_path doc k) v && matches_query doc query

    abbrev pub includes : Option CollectionPlan → Document → Bool
    includes none doc = true
    includes (some plan) doc = elim plan.query [ none ↦ true | some q ↦ matches_query doc q ]

    unfoldable pub should_include : TransformationPlan → Text → Document → Bool
    should_include plan collection doc = includes (plan_for plan.collections collection) doc

    abbrev pub gate : Option Condition → Document → Run Bool
    gate none doc = returns true
    gate (some w) doc = eval w doc

    abbrev pub cast_input : Option toolbox.ParamType → Bson → Result Bson
    cast_input none value = ok value
    cast_input (some t) value = toolbox.bson_to_typed value t

    abbrev pub run_exec : RuleExec → Bson → Document → Run (Result Bson)
    run_exec (static t) input doc = t input doc
    run_exec (dynamic name base params) input doc =
        returns (toolbox.resolve params doc base) >>? λ merged.
        toolbox.build name merged >>? λ t. t input doc

    -- What a rule makes of its field: it reads the document before any rule has run.
    unfoldable pub rule_value : CompiledRule → Document → Run (Result Bson)
    rule_value rule doc =
        returns (cast_input rule.type_override (unwrap_or (get_path doc rule.field) null))
        >>? λ input. run_exec rule.exec input doc

    abbrev pub apply_rule : CompiledRule → Document → Document → Bool → Run (Result Document)
    apply_rule rule doc out false = returns (ok out)
    apply_rule rule doc out true =
        rule_value rule doc >>? λ value. returns (ok (set_path out rule.field value))

    -- The loop over the rules, on the document made so far.
    unfoldable pub apply_rules : List CompiledRule → Document → Document → Run (Result Document)
    apply_rules [] doc out = returns (ok out)
    apply_rules (rule ∷ rules) doc out =
        then_run (gate rule.when doc)
          (λ passes. apply_rule rule doc out passes >>? λ next. apply_rules rules doc next)

    abbrev pub transform_by : Option CollectionPlan → Document → Run (Result Document)
    transform_by none doc = returns (ok doc)
    transform_by (some plan) doc =
        let all = apply_rules plan.rules doc doc in
        then_run (gate plan.when doc) (λ passes. if passes then all else returns (ok doc))

    unfoldable pub transform : TransformationPlan → Text → Document → Run (Result Document)
    transform plan collection doc = transform_by (plan_for plan.collections collection) doc
