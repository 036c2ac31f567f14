-- ===== src/Apply/Tests.antt =====
-- A plan that masks one embedded field.
use leafmask.Prelude.{Text, List, false, codes, none, [], ◌∷◌, ◌≡◌, refl, inr, inl}
use leafmask.Prelude.Int.{pos}
use leafmask.Prelude.Result.{ok, returns}
use leafmask.Bson.{Bson, Document, int64, document, null, end, field}
use leafmask.Bson.Sample.{sample_bson, sample_std}
use leafmask.FieldPath.{get_path, set_path, set_path_fuel, set_at, get_parts, descend}
use leafmask.Apply.{
  Toolbox, TransformationPlan, static, plan_for, transformed_fields, transform, apply_rules,
  rule_value,
}
use leafmask.Apply.{CollectionPlan}
use leafmask.Hash.{HashEngine}
use leafmask.Reference.{ReferenceGraph}
use leafmask.Inheritance.{expand_inherited, inherit_all, inherit_edges}
use leafmask.Inheritance.Configs.{TransformationConfig, expand_transformation_configs, add_rules}
use leafmask.Toolkit.Sample.{sample_yaml}
use leafmask.Toolkit.Static.{validate_static, validate_into}
use leafmask.Registry.{Registry, get, build}
use leafmask.Apply.Compile.{
  toolbox, compile_rule, compile_rules, compile_config, compile_configs, compile_with_references,
}
use leafmask.Apply.Compiled.{last_entry, entry_fields, transformed_fields-compile}
use leafmask.Apply.Replaced.{Replaced, transform-Replaced}
use leafmask.Apply.Untouched.{Apart, transform-Apart}

abbrev no_tools : Toolbox
no_tools = record {
  ParamValues = Unit;
  DynamicParams = Unit;
  ParamType = Unit;
  bson_to_typed = λ v t. ok v;
  resolve = λ d doc base. ok base;
  build = λ name params. returns (ok (λ v doc. returns (ok v)));
}

abbrev masked : Bson
masked = int64 (pos 0)

abbrev users_plan : TransformationPlan no_tools
users_plan = record {
  collections =
      (
        codes "users",
        record {
          when = none;
          query = none;
          rules =
              record {
                field = codes "name.last";
                when = none;
                type_override = none;
                exec = static (λ v doc. returns (ok masked));
              }
              ∷ [];
        },
      )
      ∷ [];
}

abbrev person_named : Bson → Document
person_named last =
    field (codes "name")
      (document (field (codes "first") (int64 (pos 1)) (field (codes "last") last end))) end

transform-masks :
    transform no_tools users_plan (codes "users") (person_named (int64 (pos 2)))
    ≡ returns (ok (person_named masked))
unfolding transform plan_for apply_rules rule_value set_path set_path_fuel set_at get_path get_parts
    descend
transform-masks = refl

first-Apart : Apart (transformed_fields no_tools users_plan (codes "users")) (codes "name.first")
unfolding transformed_fields plan_for
first-Apart = (inr (refl, inl (λ e. cc)), tt)

transform-Apart_example :
    get_path (person_named masked) (codes "name.first")
    ≡ get_path (person_named (int64 (pos 2))) (codes "name.first")
transform-Apart_example =
    transform-Apart no_tools users_plan (codes "users") (person_named (int64 (pos 2)))
      (person_named masked) (codes "name.first") first-Apart transform-masks

abbrev users_rules : CollectionPlan no_tools
users_rules = record {
  when = none;
  query = none;
  rules =
      record {
        field = codes "name.last";
        when = none;
        type_override = none;
        exec = static (λ v doc. returns (ok masked));
      }
      ∷ [];
}

transform-Replaced_example :
    Replaced no_tools
      (record {
        field = codes "name.last";
        when = none;
        type_override = none;
        exec = static (λ v doc. returns (ok masked));
      })
      (person_named (int64 (pos 2)))
      (person_named masked)
unfolding plan_for
transform-Replaced_example =
    transform-Replaced no_tools users_plan (codes "users") (person_named (int64 (pos 2)))
      (person_named masked) users_rules [] []
      (record {
        field = codes "name.last";
        when = none;
        type_override = none;
        exec = static (λ v doc. returns (ok masked));
      })
      refl refl refl refl tt transform-masks

-- A registry of one transformer, and a collection that is configured twice.
abbrev nulls : Registry
nulls = record {
  factories =
      (
        codes "set_null",
        record {
          name = codes "set_null";
          description = codes "null";
          parameters = [];
          build = λ values engine. returns (ok (λ v doc. returns (ok null)));
        },
      )
      ∷ [];
}

abbrev unsalted : HashEngine
unsalted = record { salt = [] }

abbrev nulled : Text → TransformationConfig
nulled name = record {
  collection = codes "users";
  when = none;
  query = none;
  transformers =
      record {
        field = name;
        name = codes "set_null";
        params = [];
        when = none;
        dynamic_params = [];
        apply_for_references = false;
        type_override = none;
      }
      ∷ [];
}

abbrev twice : List TransformationConfig
twice = nulled (codes "name") ∷ nulled (codes "mail") ∷ []

abbrev alone : ReferenceGraph
alone = record { edges = [] }

-- The plan for it, if there is one, masks the second field only.
compile-twice :
    (plan : TransformationPlan (toolbox nulls unsalted)) × (compile_with_references nulls unsalted
        twice alone
      ≡ returns (ok plan))
unfolding compile_with_references compile_configs compile_config compile_rules compile_rule
    expand_transformation_configs add_rules expand_inherited inherit_all inherit_edges get build
    validate_static validate_into
compile-twice = (_, refl)

transformed_fields-compile_example :
    transformed_fields (toolbox nulls unsalted) compile-twice.0 (codes "users")
    ≡ entry_fields (last_entry (codes "users") none (expand_transformation_configs twice alone))
transformed_fields-compile_example =
    transformed_fields-compile nulls unsalted twice alone compile-twice.0 (codes "users")
      compile-twice.1
