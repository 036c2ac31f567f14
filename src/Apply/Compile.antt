-- ===== src/Apply/Compile.antt =====
-- `TransformationPlan::compile_with_references` of transform/apply.rs, and what a transformer is
-- built and run with: the registry of transform/mod.rs, the toolkit and the dynamic parameters.
use leafmask.Prelude.{Text, Option, none, some, List, [], ◌∷◌, Map, put_key}
use leafmask.Prelude.Result.{
  transform, not_found, Result, ok, err, ok_or, ◌>>=◌, Run, returns, ◌>>?◌,
}
use leafmask.Bson.{Bson, Document, BsonApi, StdApi, document}
use leafmask.Condition.Eval.{Condition, parse}
use leafmask.Hash.{HashEngine}
use leafmask.Reference.{ReferenceGraph}
use leafmask.Inheritance.Configs.{
  DynSource, TransformerRule, TransformationConfig, expand_transformation_configs,
}
use leafmask.Toolkit.Yaml.{Yaml, YamlApi, yaml_to_bson}
use leafmask.Toolkit.Params.{ParamType, ParamDefinition, from_name}
use leafmask.Toolkit.Values.{ParamValues}
use leafmask.Toolkit.Cast.{bson_to_typed}
use leafmask.Toolkit.Static.{validate_static}
use leafmask.Dynamic.{DynamicParams, from_config, resolve}
use leafmask.Registry.{Registry, get, build}
use leafmask.Apply.{
  Toolbox, RuleExec, static, dynamic, CompiledRule, CollectionPlan, TransformationPlan,
}

module _ ⦃api : BsonApi⦄ ⦃std : StdApi⦄ (registry : Registry) (engine : HashEngine) where
  abbrev pub toolbox : Toolbox
  toolbox = record {
    ParamValues = ParamValues;
    DynamicParams = DynamicParams;
    ParamType = ParamType;
    bson_to_typed = bson_to_typed;
    resolve = resolve;
    build = λ name values. build registry name values engine;
  }

  abbrev pub compile_when : Option Text → Result (Option Condition)
  compile_when none = ok none
  compile_when (some w) = parse w >>= λ c. ok (some c)

  abbrev pub query_document : Bson → Result (Option Document)
  query_document (document d) = ok (some d)
  query_document _ = err transform

  abbrev pub compile_override : Option Text → Result (Option ParamType)
  compile_override none = ok none
  compile_override (some t) = ok_or (from_name t) transform >>= λ kind. ok (some kind)

  abbrev pub compile_exec :
      Text → List ParamDefinition → ParamValues → Map DynSource → Run (Result (RuleExec toolbox))
  compile_exec name defs base [] = build registry name base engine >>? λ t. returns (ok (static t))
  compile_exec name defs base (d ∷ cfg) =
      returns (from_config (d ∷ cfg) defs) >>? λ params. returns (ok (dynamic name base params))

  module _ ⦃yaml : YamlApi⦄ where
    abbrev pub compile_query : Option Yaml → Result (Option Document)
    compile_query none = ok none
    compile_query (some v) = query_document (yaml_to_bson v)

    -- The body of the loop over the rules.
    unfoldable pub compile_rule : TransformerRule → Run (Result (CompiledRule toolbox))
    compile_rule r = returns (ok_or (get registry r.name) not_found) >>? λ factory.
        returns (validate_static factory.parameters r.params) >>? λ base.
        returns (compile_when r.when) >>? λ when.
        returns (compile_override r.type_override) >>? λ type_override.
        compile_exec r.name factory.parameters base r.dynamic_params >>? λ exec.
        returns
          (ok (record { field = r.field; when = when; type_override = type_override; exec = exec }))

    unfoldable pub compile_rules : List TransformerRule → Run (Result (List (CompiledRule toolbox)))
    compile_rules [] = returns (ok [])
    compile_rules (r ∷ rs) =
        compile_rule r >>? λ rule. compile_rules rs >>? λ rules. returns (ok (rule ∷ rules))

    unfoldable pub compile_config : TransformationConfig → Run (Result (CollectionPlan toolbox))
    compile_config c = returns (compile_when c.when) >>? λ when.
        returns (compile_query c.query) >>? λ query. compile_rules c.transformers >>? λ rules.
        returns (ok (record { when = when; query = query; rules = rules }))

    -- The loop over the configurations: a later one of a collection takes the earlier one's place.
    unfoldable pub compile_configs :
        List TransformationConfig
        → Map (CollectionPlan toolbox)
        → Run (Result (Map (CollectionPlan toolbox)))
    compile_configs [] collections = returns (ok collections)
    compile_configs (c ∷ cs) collections =
        compile_config c >>? λ plan. compile_configs cs (put_key collections c.collection plan)

    unfoldable pub compile_with_references :
        List TransformationConfig → ReferenceGraph → Run (Result (TransformationPlan toolbox))
    compile_with_references configs graph =
        compile_configs (expand_transformation_configs configs graph) [] >>? λ collections.
        returns (ok (record { collections = collections }))

    unfoldable pub compile : List TransformationConfig → Run (Result (TransformationPlan toolbox))
    compile configs = compile_with_references configs (record { edges = [] })
