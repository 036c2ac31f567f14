-- ===== src/Toolkit/Cast.antt =====
-- `cast` of toolkit.rs: a configured value, or one of a document, as a value of a declared type.
use mathlib.Core.List.{reverse}
use leafmask.Prelude.{
  ℕ, zero, suc, ◌-◌, ◌/◌, ◌%◌, ◌^◌, Text, codes, as_bytes, Bool, true, false, Option, none, some,
  List, [], ◌∷◌, unwrap_or, option_map,
}
use leafmask.Prelude.Int.{ℤ, pos, negsuc, parse_i64}
use leafmask.Prelude.Result.{parameter, Result, ok, err, ok_or, ◌>>=◌}
use leafmask.Bson.{
  Bson, BsonApi, StdApi, null, boolean, int32, int64, double, string, object_id, binary, date_time,
  decimal128,
}
use leafmask.Toolkit.Yaml.{Yaml, YamlApi, yaml_to_bson}
use leafmask.Toolkit.Params.{ParamType}
use leafmask.Toolkit.Values.{as_bool, to_i64, to_f64}

-- The accessors of serde_yaml::Value look through tags.
unfoldable pub yaml_str : Yaml → Option Text
yaml_str (Yaml.string s) = some s
yaml_str (Yaml.tagged t v) = yaml_str v
yaml_str _ = none

unfoldable pub yaml_bool : Yaml → Option Bool
yaml_bool (Yaml.bool b) = some b
yaml_bool (Yaml.tagged t v) = yaml_bool v
yaml_bool _ = none

unfoldable pub yaml_i64 : Yaml → Option ℤ
yaml_i64 (Yaml.number n) = n.as_i64
yaml_i64 (Yaml.tagged t v) = yaml_i64 v
yaml_i64 _ = none

abbrev pub bool_text : Bool → Text
bool_text true = codes "true"
bool_text false = codes "false"

abbrev pub scalar_to_string : Yaml → Option Text
scalar_to_string (Yaml.string s) = some s
scalar_to_string (Yaml.bool b) = some (bool_text b)
scalar_to_string (Yaml.number n) = some n.rendered
scalar_to_string _ = none

-- BinarySubtype::Generic
abbrev pub generic : ℕ
generic = 0

-- `.map(f).ok_or_else(|| Error::Parameter(...))`
abbrev pub parsed : {A : Type 0} → (A → Bson) → Option A → Result Bson
parsed f value = ok_or (option_map f value) parameter

abbrev pub text_bytes : Text → Bson
text_bytes s = binary generic (as_bytes s)

abbrev pub or_scalar : Option Text → Yaml → Option Text
or_scalar none v = scalar_to_string v
or_scalar (some s) v = some s

-- `v.as_str().or_else(|| v.as_i64().map(|_| ""))`
abbrev pub or_empty : Option Text → Option ℤ → Option Text
or_empty (some s) i = some s
or_empty none i = option_map (λ _. []) i

abbrev pub decimal_text : Text → Yaml → Text
decimal_text [] v = unwrap_or (scalar_to_string v) []
decimal_text (c ∷ s) v = c ∷ s

module _ ⦃api : BsonApi⦄ ⦃std : StdApi⦄ where
  abbrev pub to_int : Yaml → Result Bson
  to_int (Yaml.number n) = parsed int64 n.as_i64
  to_int (Yaml.string s) = parsed int64 (parse_i64 s)
  to_int _ = err parameter

  abbrev pub to_float : Yaml → Result Bson
  to_float (Yaml.number n) = parsed double n.as_f64
  to_float (Yaml.string s) = parsed double (std.parse_f64 s)
  to_float _ = err parameter

  unfoldable pub yaml_to_typed : ⦃yaml : YamlApi⦄ → Yaml → ParamType → Result Bson
  unfolding yaml_str yaml_bool yaml_i64
  yaml_to_typed v ParamType.any = ok (yaml_to_bson v)
  yaml_to_typed v ParamType.string = parsed string (or_scalar (yaml_str v) v)
  yaml_to_typed v ParamType.int = to_int v
  yaml_to_typed v ParamType.float = to_float v
  yaml_to_typed v ParamType.bool = parsed boolean (yaml_bool v)
  yaml_to_typed v ParamType.bytes = parsed text_bytes (yaml_str v)
  yaml_to_typed v ParamType.object_id =
      ok_or (yaml_str v) parameter >>= λ s. parsed object_id (api.parse_object_id s)
  yaml_to_typed v ParamType.decimal128 =
      ok_or (or_empty (yaml_str v) (yaml_i64 v)) parameter >>= λ s.
      parsed decimal128 (api.parse_decimal128 (decimal_text s v))
  yaml_to_typed v ParamType.datetime =
      ok_or (yaml_str v) parameter >>= λ s. parsed date_time (api.parse_rfc3339 s)
  yaml_to_typed v ParamType.binary = parsed text_bytes (yaml_str v)

  abbrev pub bson_string : Bson → Result Bson
  bson_string (string s) = ok (string s)
  bson_string (int32 v) = ok (string (api.display (int32 v)))
  bson_string (int64 v) = ok (string (api.display (int64 v)))
  bson_string (double v) = ok (string (api.display (double v)))
  bson_string (boolean b) = ok (string (api.display (boolean b)))
  bson_string _ = err parameter

  abbrev pub bson_object_id : Bson → Result Bson
  bson_object_id (object_id o) = ok (object_id o)
  bson_object_id (string s) = parsed object_id (api.parse_object_id s)
  bson_object_id _ = err parameter

  abbrev pub bson_datetime : Bson → Result Bson
  bson_datetime (date_time t) = ok (date_time t)
  bson_datetime (string s) = parsed date_time (api.parse_rfc3339 s)
  bson_datetime _ = err parameter

  abbrev pub bson_decimal128 : Bson → Result Bson
  bson_decimal128 (decimal128 d) = ok (decimal128 d)
  bson_decimal128 (string s) = parsed decimal128 (api.parse_decimal128 s)
  bson_decimal128 _ = err parameter

  abbrev pub bson_binary : Bson → Result Bson
  bson_binary (binary t b) = ok (binary t b)
  bson_binary (string s) = ok (text_bytes s)
  bson_binary _ = err parameter

  unfoldable pub bson_to_typed : Bson → ParamType → Result Bson
  unfolding to_i64 to_f64
  bson_to_typed v ParamType.any = ok v
  bson_to_typed v ParamType.string = bson_string v
  bson_to_typed v ParamType.int = parsed int64 (to_i64 v)
  bson_to_typed v ParamType.float = parsed double (to_f64 v)
  bson_to_typed v ParamType.bool = parsed boolean (as_bool v)
  bson_to_typed v ParamType.object_id = bson_object_id v
  bson_to_typed v ParamType.datetime = bson_datetime v
  bson_to_typed v ParamType.decimal128 = bson_decimal128 v
  bson_to_typed v ParamType.binary = bson_binary v
  bson_to_typed v ParamType.bytes = bson_binary v

-- The bytes of a number, the lowest first.
abbrev pub le_bytes : ℕ → ℕ → List ℕ
le_bytes zero n = []
le_bytes (suc w) n = n % 256 ∷ le_bytes w (n / 256)

-- `to_be_bytes` of an integer of `w` bytes, in two's complement.
abbrev pub to_be_bytes : ℕ → ℤ → List ℕ
to_be_bytes w (pos n) = reverse (le_bytes w n)
to_be_bytes w (negsuc n) = reverse (le_bytes w (256 ^ w - 1 - n))

module _ ⦃api : BsonApi⦄ where
  unfoldable pub to_hashable_bytes : Bson → List ℕ
  unfolding as_bytes
  to_hashable_bytes (string s) = as_bytes s
  to_hashable_bytes (int32 v) = to_be_bytes 4 v
  to_hashable_bytes (int64 v) = to_be_bytes 8 v
  to_hashable_bytes (double v) = reverse (le_bytes 8 v)
  to_hashable_bytes (boolean true) = 1 ∷ []
  to_hashable_bytes (boolean false) = 0 ∷ []
  to_hashable_bytes (object_id o) = o
  to_hashable_bytes (binary t bytes) = bytes
  to_hashable_bytes (date_time t) = to_be_bytes 8 t
  to_hashable_bytes (decimal128 d) = d
  to_hashable_bytes null = []
  to_hashable_bytes v = as_bytes (api.display v)
