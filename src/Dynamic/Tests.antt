-- ===== src/Dynamic/Tests.antt =====
-- A transformer whose count is read from another field of the document.
use leafmask.Prelude.{Text, codes, text_eq, List, [], ◌∷◌, ◌≡◌, refl, All, false, Map}
use leafmask.Prelude.Int.{pos}
use leafmask.Prelude.Result.{ok}
use leafmask.Bson.{Bson, Document, int64, string, end, field}
use leafmask.Bson.Sample.{sample_bson, sample_std}
use leafmask.FieldPath.{get_path, get_parts, descend}
use leafmask.Inheritance.Configs.{DynSource}
use leafmask.Toolkit.Params.{ParamType, ParamDefinition, optional}
use leafmask.Toolkit.Sample.{sample_yaml}
use leafmask.Toolkit.Params.{param_get}
use leafmask.Toolkit.Values.{ParamValues, get, insert, to_i64}
use leafmask.Toolkit.Cast.{bson_to_typed}
use leafmask.Toolkit.Kinds.{has_kind}
use leafmask.Toolkit.Static.{static_value, validate_into, validate_static}
use leafmask.Dynamic.{DynamicParams, from_config, bind_all, resolve, layer, bound_value}
use leafmask.Dynamic.Layers.{Bound, resolve-Bound}
use leafmask.Dynamic.Typed.{DeclaredAs, resolve-Typed}

abbrev count_name : Text
count_name = codes "count"

abbrev counted : List ParamDefinition
counted =
    optional count_name ParamType.int (int64 (pos 1)) (codes "how many")
    ∷ optional (codes "label") ParamType.string (string (codes "none")) (codes "a label")
    ∷ []

abbrev from_age : Map DynSource
from_age = (count_name, record { field = codes "age" }) ∷ []

abbrev age_params : DynamicParams
age_params = record {
  bindings = record { param = count_name; field = codes "age"; kind = ParamType.int } ∷ [];
}

abbrev aged : Document
aged = field (codes "age") (int64 (pos 42)) end

abbrev with_count : Bson → ParamValues
with_count v = record { map = (count_name, v) ∷ (codes "label", string (codes "none")) ∷ [] }

validate_static-counted : validate_static counted [] ≡ ok (with_count (int64 (pos 1)))
unfolding validate_static validate_into static_value param_get insert
validate_static-counted = refl

from_config-age : from_config from_age counted ≡ ok age_params
unfolding from_config bind_all
from_config-age = refl

resolve-age :
    resolve age_params aged (with_count (int64 (pos 1))) ≡ ok (with_count (int64 (pos 42)))
unfolding resolve layer bound_value get_path get_parts descend bson_to_typed to_i64 insert
resolve-age = refl

resolve-Bound_example :
    All (Bound aged (with_count (int64 (pos 42)))) age_params.bindings
    × ((n : Text)
        → All (λ b. text_eq n b.param ≡ false) age_params.bindings
        → get (with_count (int64 (pos 42))) n ≡ get (with_count (int64 (pos 1))) n)
resolve-Bound_example =
    resolve-Bound age_params aged (with_count (int64 (pos 1))) (with_count (int64 (pos 42)))
      (tt, tt) resolve-age

resolve-Typed_example : DeclaredAs counted count_name (int64 (pos 42))
unfolding get has_kind
resolve-Typed_example =
    resolve-Typed [] counted from_age age_params aged (with_count (int64 (pos 1)))
      (with_count (int64 (pos 42))) (refl, (refl, tt)) validate_static-counted from_config-age
      resolve-age count_name (int64 (pos 42)) refl
