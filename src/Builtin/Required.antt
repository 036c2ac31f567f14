-- ===== src/Builtin/Required.antt =====
-- The required parameters that a transformer is built from.
use leafmask.Prelude.{Text, text_eq, true, false, Option, some, [], ◌∷◌, ◌≡◌, refl}
use leafmask.Prelude.Int.{ℤ}
use leafmask.Prelude.Result.{ok}
use leafmask.Bson.{Bson, BsonApi, StdApi, F64, int64, double, string}
use leafmask.Toolkit.Yaml.{YamlApi}
use leafmask.Toolkit.Params.{ParamType, required}
use leafmask.Toolkit.Values.{ParamValues, get_i64, get_f64, get_str, to_i64, to_f64, as_str}
use leafmask.Toolkit.Values
use leafmask.Toolkit.Kinds.{has_kind, yaml_to_typed-has_kind}
use leafmask.Toolkit.Static.{validate_static}
use leafmask.Toolkit.Declared.{Given, given, defaulted, left_out, validate_static-Given}
use leafmask.Inheritance.{Params}

module _ ⦃api : BsonApi⦄ ⦃std : StdApi⦄ ⦃yaml : YamlApi⦄ where
  required_value :
      (provided : Params) (name : Text) (kind : ParamType) (about : Text) (v : Option Bson)
      → Given provided (required name kind about) v
      → (b : Bson) × (v ≡ some b) × (has_kind kind b ≡ true)
  required_value provided name kind about v (given {raw} {b} e f) =
      (b, refl, yaml_to_typed-has_kind kind raw b f)
  required_value provided name kind about v (defaulted e f) = cc
  required_value provided name kind about v (left_out e f g) = cc

  int_value : (b : Bson) → has_kind ParamType.int b ≡ true → (i : ℤ) × (to_i64 b ≡ some i)
  unfolding has_kind to_i64
  int_value (int64 i) h = (i, refl)
  int_value _ h = cc

  float_value : (b : Bson) → has_kind ParamType.float b ≡ true → (x : F64) × (to_f64 b ≡ some x)
  unfolding has_kind to_f64
  float_value (double x) h = (x, refl)
  float_value _ h = cc

  text_value : (b : Bson) → has_kind ParamType.string b ≡ true → (s : Text) × (as_str b ≡ some s)
  unfolding has_kind
  text_value (string s) h = (s, refl)
  text_value _ h = cc

  module _ (provided : Params) (values : ParamValues) (name about : Text) where
    pub int_param :
        Given provided (required name ParamType.int about) (Values.get values name)
        → (i : ℤ) × (get_i64 values name ≡ some i)
    unfolding get_i64
    int_param g =
        let (b, e, h) = required_value provided name ParamType.int about _ g in
        let (i, f) = int_value b h in (i, rw e f)

    pub float_param :
        Given provided (required name ParamType.float about) (Values.get values name)
        → (x : F64) × (get_f64 values name ≡ some x)
    unfolding get_f64
    float_param g =
        let (b, e, h) = required_value provided name ParamType.float about _ g in
        let (x, f) = float_value b h in (x, rw e f)

    pub text_param :
        Given provided (required name ParamType.string about) (Values.get values name)
        → (s : Text) × (get_str values name ≡ some s)
    unfolding get_str
    text_param g =
        let (b, e, h) = required_value provided name ParamType.string about _ g in
        let (s, f) = text_value b h in (s, rw e f)

  -- The parameters of a transformer that has one or two required ones.
  module _ (provided : Params) (values : ParamValues) (n a : Text) (k : ParamType) where
    pub one_required :
        validate_static (required n k a ∷ []) provided ≡ ok values
        → Given provided (required n k a) (Values.get values n)
    one_required e = (validate_static-Given provided _ values (tt, tt) e).0.0

    pub two_required :
        (m b : Text) (l : ParamType)
        → text_eq n m ≡ false
        → validate_static (required n k a ∷ required m l b ∷ []) provided ≡ ok values
        → Given provided (required n k a) (Values.get values n)
          × Given provided (required m l b) (Values.get values m)
    two_required m b l apart e =
        let ((first, (second, _)), _) =
          validate_static-Given provided _ values ((apart, tt), (tt, tt)) e in
        (first, second)
