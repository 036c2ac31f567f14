-- ===== src/Toolkit/Kinds.antt =====
-- The names of the types, and the kind of a value that was cast.
use leafmask.Prelude.{
  Text, text_eq_iff, Bool, true, false, some, List, [], ◌∷◌, ◌≡◌, refl, ◌↔◌, at_key, arith,
}
use leafmask.Prelude.Result.{ok}
use leafmask.Bson.{
  Bson, BsonApi, StdApi, boolean, int64, double, string, object_id, binary, date_time, decimal128,
}
use leafmask.Toolkit.Yaml.{Yaml, YamlApi}
use leafmask.Toolkit.Params.{ParamType, type_names, from_name, name}
use leafmask.Toolkit.Values.{to_i64, to_f64}
use leafmask.Toolkit.Cast.{yaml_to_typed, bson_to_typed}

-- A name has at most the type that the table gives it.
pub from_name-name : (t : ParamType) → from_name (name t) ≡ some t
unfolding from_name name
from_name-name ParamType.string = refl
from_name-name ParamType.int = refl
from_name-name ParamType.float = refl
from_name-name ParamType.bool = refl
from_name-name ParamType.bytes = refl
from_name-name ParamType.object_id = refl
from_name-name ParamType.decimal128 = refl
from_name-name ParamType.datetime = refl
from_name-name ParamType.binary = refl
from_name-name ParamType.any = refl

abbrev Named : List (Text × ParamType) → Type 0
Named [] = Unit
Named ((s, t) ∷ rest) = (name t ≡ s) × Named rest

at_key-Named :
    (table : List (Text × ParamType))
    → Named table
    → (s : Text) (t : ParamType) → at_key table s ≡ some t
    → name t ≡ s
at_key-Named [] named s t e = cc
at_key-Named ((j, u) ∷ rest) (same, others) s t e =
    ground (arith, text_eq_iff j s, at_key-Named rest others s t)

-- A text names a type exactly if it is the name of the type.
pub from_name_iff : (s : Text) (t : ParamType) → (from_name s ≡ some t) ↔ (name t ≡ s)
unfolding from_name name
from_name_iff s t = (
  at_key-Named type_names
      (refl, (refl, (refl, (refl, (refl, (refl, (refl, (refl, (refl, (refl, tt)))))))))) s t,
  λ e. rw (← e) (from_name-name t),
)

-- Whether the value is of the variant that the type stands for.
unfoldable pub has_kind : ParamType → Bson → Bool
has_kind ParamType.any v = true
has_kind ParamType.string (string s) = true
has_kind ParamType.int (int64 n) = true
has_kind ParamType.float (double x) = true
has_kind ParamType.bool (boolean b) = true
has_kind ParamType.bytes (binary t b) = true
has_kind ParamType.binary (binary t b) = true
has_kind ParamType.object_id (object_id o) = true
has_kind ParamType.decimal128 (decimal128 d) = true
has_kind ParamType.datetime (date_time t) = true
has_kind _ _ = false

module _ ⦃api : BsonApi⦄ ⦃std : StdApi⦄ where
  -- A value that already has the type is cast to itself.
  pub bson_to_typed_of_has_kind :
      (k : ParamType) (v : Bson) → has_kind k v ≡ true → bson_to_typed v k ≡ ok v
  unfolding bson_to_typed has_kind to_i64 to_f64
  bson_to_typed_of_has_kind k v h = ground arith

  pub bson_to_typed-has_kind :
      (k : ParamType) (v b : Bson) → bson_to_typed v k ≡ ok b → has_kind k b ≡ true
  unfolding bson_to_typed has_kind
  bson_to_typed-has_kind k v b h = ground arith

  pub yaml_to_typed-has_kind :
      ⦃yaml : YamlApi⦄ (k : ParamType) (v : Yaml) (b : Bson)
      → yaml_to_typed v k ≡ ok b
      → has_kind k b ≡ true
  unfolding yaml_to_typed has_kind
  yaml_to_typed-has_kind k v b h = ground arith

  -- A configured value that can be cast to a type is of that type then, and casting it again, the
  -- way a value of a document is cast, leaves it as it is.
  pub yaml_to_typed-Kept :
      ⦃yaml : YamlApi⦄ (k : ParamType) (v : Yaml) (b : Bson)
      → yaml_to_typed v k ≡ ok b
      → (has_kind k b ≡ true) × (bson_to_typed b k ≡ ok b)
  yaml_to_typed-Kept k v b e =
      let h = yaml_to_typed-has_kind k v b e in (h, bson_to_typed_of_has_kind k b h)
