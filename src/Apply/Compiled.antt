-- ===== src/Apply/Compiled.antt =====
-- What a configuration is compiled to.
use leafmask.Prelude.{
  Text, text_eq, Bool, true, false, Option, none, some, List, [], ◌∷◌, map, ◌≡◌, refl, sym, ap, Map,
  at_key, put_key, at_key-put_key, if◌then◌else◌,
}
use leafmask.Prelude.Result.{ok, ok_or, not_found, returns, >>?-eq-ok, returns_ok-inj}
use leafmask.Bson.{BsonApi, StdApi}
use leafmask.Hash.{HashEngine}
use leafmask.Reference.{ReferenceGraph}
use leafmask.Inheritance.Configs.{
  TransformerRule, TransformationConfig, expand_transformation_configs,
}
use leafmask.Toolkit.Yaml.{YamlApi}
use leafmask.Toolkit.Static.{validate_static}
use leafmask.Registry.{Registry, get}
use leafmask.Apply.{
  CompiledRule, CollectionPlan, TransformationPlan, plan_for, rule_fields, transformed_fields,
}
use leafmask.Apply.Compile.{
  toolbox, compile_when, compile_override, compile_exec, compile_query, compile_rule, compile_rules,
  compile_config, compile_configs, compile_with_references,
}

-- The last entry of a collection.
abbrev pub last_entry :
    Text → Option TransformationConfig → List TransformationConfig → Option TransformationConfig
last_entry collection found [] = found
last_entry collection found (c ∷ cs) =
    last_entry collection (if text_eq c.collection collection then some c else found) cs

abbrev pub entry_fields : Option TransformationConfig → List Text
entry_fields none = []
entry_fields (some c) = map (λ r. r.field) c.transformers

module _ ⦃api : BsonApi⦄ ⦃std : StdApi⦄ ⦃yaml : YamlApi⦄ (registry : Registry)
    (engine : HashEngine) where
  compile_rule-field :
      (r : TransformerRule) (rule : CompiledRule (toolbox registry engine))
      → compile_rule registry engine r ≡ returns (ok rule)
      → rule.field ≡ r.field
  unfolding compile_rule
  compile_rule-field r rule e =
      let (factory, _, e1) = >>?-eq-ok (returns (ok_or (get registry r.name) not_found)) _ e in
      let (base, _, e2) = >>?-eq-ok (returns (validate_static factory.parameters r.params)) _ e1 in
      let (when, _, e3) = >>?-eq-ok (returns (compile_when registry engine r.when)) _ e2 in
      let (cast, _, e4) =
        >>?-eq-ok (returns (compile_override registry engine r.type_override)) _ e3 in
      let (exec, _, e5) =
        >>?-eq-ok (compile_exec registry engine r.name factory.parameters base r.dynamic_params) _
          e4 in
      ap (λ c. c.field) (sym (returns_ok-inj e5))

  compile_rules-fields :
      (rs : List TransformerRule) (rules : List (CompiledRule (toolbox registry engine)))
      → compile_rules registry engine rs ≡ returns (ok rules)
      → map (λ r. r.field) rules ≡ map (λ r. r.field) rs
  unfolding compile_rules
  compile_rules-fields [] rules e = let same : [] ≡ rules = cc in rw (← same) refl
  compile_rules-fields (r ∷ rs) rules e =
      let (rule, f, g) = >>?-eq-ok (compile_rule registry engine r) _ e in
      let (rest, p, q) = >>?-eq-ok (compile_rules registry engine rs) _ g in
      let same : rule ∷ rest ≡ rules = cc in
      rw (← same) (cc (compile_rule-field r rule f, compile_rules-fields rs rest p))

  -- What the compiled collections hold against the configuration's last entry.
  abbrev Compiles :
      Option TransformationConfig → Option (CollectionPlan (toolbox registry engine)) → Type 0
  Compiles none none = Unit
  Compiles (some c) (some plan) = compile_config registry engine c ≡ returns (ok plan)
  Compiles _ _ = ⊥

  compile_configs-Compiles :
      (cs : List TransformationConfig)
      (collections all : Map (CollectionPlan (toolbox registry engine))) (collection : Text)
      (found : Option TransformationConfig)
      → compile_configs registry engine cs collections ≡ returns (ok all)
      → Compiles found (at_key collections collection)
      → Compiles (last_entry collection found cs) (at_key all collection)
  unfolding compile_configs
  compile_configs-Compiles [] collections all collection found e c =
      let same : collections ≡ all = cc in rw (← same) c
  compile_configs-Compiles (c ∷ cs) collections all collection found e h =
      let (plan, f, g) = >>?-eq-ok (compile_config registry engine c) _ e in
      compile_configs-Compiles cs (put_key collections c.collection plan) all collection
        (if text_eq c.collection collection then some c else found) g
        (rw at_key-put_key (put plan f (text_eq c.collection collection)))
    where
      put :
          (plan : CollectionPlan (toolbox registry engine))
          → compile_config registry engine c ≡ returns (ok plan)
          → (b : Bool)
          → Compiles
              (if b then some c else found)
              (if b then some plan else at_key collections collection)
      put plan f true = f
      put plan f false = h

  Compiles-fields :
      (found : Option TransformationConfig)
      (plan : Option (CollectionPlan (toolbox registry engine)))
      → Compiles found plan
      → rule_fields (toolbox registry engine) plan ≡ entry_fields found
  unfolding compile_config
  Compiles-fields none none h = refl
  Compiles-fields none (some p) h = absurd h
  Compiles-fields (some c) none h = absurd h
  Compiles-fields (some c) (some plan) e =
      let (when, _, e1) = >>?-eq-ok (returns (compile_when registry engine c.when)) _ e in
      let (query, _, e2) = >>?-eq-ok (returns (compile_query registry engine c.query)) _ e1 in
      let (rules, f, g) = >>?-eq-ok (compile_rules registry engine c.transformers) _ e2 in
      let same : rules ≡ plan.rules = cc in
      rw (← same) (compile_rules-fields c.transformers rules f)

  -- A plan that a configuration is compiled to transforms the fields of a collection that the last
  -- entry of the collection lists, once the configuration is expanded along the references; of
  -- earlier entries of the collection nothing is left, and a collection without an entry has no
  -- transformed fields.
  pub transformed_fields-compile :
      (configs : List TransformationConfig) (graph : ReferenceGraph)
      (plan : TransformationPlan (toolbox registry engine)) (collection : Text)
      → compile_with_references registry engine configs graph ≡ returns (ok plan)
      → transformed_fields (toolbox registry engine) plan collection
        ≡ entry_fields (last_entry collection none (expand_transformation_configs configs graph))
  unfolding compile_with_references transformed_fields plan_for
  transformed_fields-compile configs graph plan collection e =
      let expanded = expand_transformation_configs configs graph in
      let (all, f, g) = >>?-eq-ok (compile_configs registry engine expanded []) _ e in
      let same : all ≡ plan.collections = cc in
      rw (← same) (
        Compiles-fields (last_entry collection none expanded) (at_key all collection)
          (compile_configs-Compiles expanded [] all collection none f tt))
