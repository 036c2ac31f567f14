-- ===== src/Toolkit/Static.antt =====
-- `validate_static` of toolkit.rs.
use leafmask.Prelude.{Text, Option, none, some, List, [], ◌∷◌, if◌then◌else◌}
use leafmask.Prelude.Result.{parameter, Result, ok, err, map_err, ◌>>=◌}
use leafmask.Bson.{Bson, BsonApi, StdApi}
use leafmask.Toolkit.Yaml.{Yaml, YamlApi}
use leafmask.Toolkit.Params.{ParamDefinition, param_get}
use leafmask.Toolkit.Values.{ParamValues, no_values, insert}
use leafmask.Toolkit.Cast.{yaml_to_typed}

abbrev pub insert_some : ParamValues → Text → Option Bson → ParamValues
insert_some out name none = out
insert_some out name (some b) = insert out name b

module _ ⦃api : BsonApi⦄ ⦃std : StdApi⦄ ⦃yaml : YamlApi⦄ where
  -- The value that an iteration inserts, if it inserts one.
  unfoldable pub static_value : ParamDefinition → Option Yaml → Result (Option Bson)
  static_value def (some raw) = map_err (yaml_to_typed raw def.kind) parameter >>= λ b. ok (some b)
  static_value def none = elim def.default [
    | some d ↦ ok (some d)
    | none ↦ if def.required then err parameter else ok none
  ]

  -- The loop over the definitions, with the values so far.
  unfoldable pub validate_into :
      List ParamDefinition → List (Text × Yaml) → ParamValues → Result ParamValues
  validate_into [] provided out = ok out
  validate_into (def ∷ defs) provided out =
      static_value def (param_get provided def.name) >>= λ value.
      validate_into defs provided (insert_some out def.name value)

  unfoldable pub validate_static : List ParamDefinition → List (Text × Yaml) → Result ParamValues
  validate_static defs provided = validate_into defs provided no_values
