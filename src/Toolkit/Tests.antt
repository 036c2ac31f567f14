-- ===== src/Toolkit/Tests.antt =====
-- A transformer with a required number and a label that defaults.
use leafmask.Prelude.{
  Text, codes, text_eq, Option, none, List, [], ◌∷◌, ◌≡◌, refl, ◌↔◌, All, false, true,
}
use leafmask.Prelude.Int.{pos, parse_i64}
use leafmask.Prelude.Result.{ok, err, parameter}
use leafmask.Bson.{Bson, int64, string}
use leafmask.Bson.Sample.{sample_bson, sample_std}
use leafmask.Toolkit.Yaml.{Yaml}
use leafmask.Toolkit.Sample.{sample_yaml}
use leafmask.Toolkit.Params.{ParamType, ParamDefinition, required, optional, param_get}
use leafmask.Toolkit.Values.{ParamValues, get, insert}
use leafmask.Toolkit.Cast.{yaml_to_typed, bson_to_typed}
use leafmask.Toolkit.Kinds.{has_kind, yaml_to_typed-Kept}
use leafmask.Toolkit.Static.{static_value, validate_into, validate_static}
use leafmask.Toolkit.Declared.{Given, validate_static-Given, validate_static_iff}

abbrev count_name : Text
count_name = codes "count"

abbrev label_name : Text
label_name = codes "label"

abbrev counted : List ParamDefinition
counted =
    required count_name ParamType.int (codes "how many")
    ∷ optional label_name ParamType.string (string (codes "none")) (codes "a label")
    ∷ []

-- The name is found in any case.
abbrev seven : List (Text × Yaml)
seven = (codes "COUNT", Yaml.string (codes "7")) ∷ []

abbrev seven_values : ParamValues
seven_values = record {
  map = (count_name, int64 (pos 7)) ∷ (label_name, string (codes "none")) ∷ [];
}

validate_static-seven : validate_static counted seven ≡ ok seven_values
unfolding validate_static validate_into static_value param_get yaml_to_typed parse_i64 insert
validate_static-seven = refl

validate_static-missing : validate_static counted [] ≡ err parameter
unfolding validate_static validate_into static_value param_get
validate_static-missing = refl

validate_static-Given_example :
    All (λ def. Given seven def (get seven_values def.name)) counted
    × ((n : Text) → All (λ d. text_eq n d.name ≡ false) counted → get seven_values n ≡ none)
validate_static-Given_example =
    validate_static-Given seven counted seven_values ((refl, tt), (tt, tt)) validate_static-seven

validate_static_iff_example :
    ((values : ParamValues) × (validate_static counted seven ≡ ok values))
    ↔ All (λ def. (v : Option Bson) × Given seven def v) counted
validate_static_iff_example = validate_static_iff seven counted

yaml_to_typed-seven : yaml_to_typed (Yaml.string (codes "7")) ParamType.int ≡ ok (int64 (pos 7))
unfolding yaml_to_typed parse_i64
yaml_to_typed-seven = refl

yaml_to_typed-Kept_example :
    (has_kind ParamType.int (int64 (pos 7)) ≡ true)
    × (bson_to_typed (int64 (pos 7)) ParamType.int ≡ ok (int64 (pos 7)))
yaml_to_typed-Kept_example =
    yaml_to_typed-Kept ParamType.int (Yaml.string (codes "7")) (int64 (pos 7)) yaml_to_typed-seven
