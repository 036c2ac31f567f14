-- ===== src/Bson/Sample.antt =====
-- A concrete `bson` crate and standard library, for tests: documents as they are written down,
-- replacing a field in place or adding it at the end.
use leafmask.Prelude.{
  ℕ, suc, ◌+◌, ◌*◌, Text, codes, text_eq, text_eq_iff, Bool, true, false, ◌&&◌, ◌||◌, Option, none,
  some, List, [], ◌∷◌, ◌≡◌, refl, arith, if◌then◌else◌, leb, nat_eq, ltb,
}
use leafmask.Prelude.Int.{ℤ, pos, negsuc, int_eq}
use leafmask.Bson.{
  Bson, Document, BsonApi, StdApi, null, boolean, int32, int64, double, string, date_time, end,
  field,
}

abbrev lookup : Document → Text → Option Bson
lookup end k = none
lookup (field j v d) k = if text_eq j k then some v else lookup d k

abbrev put : Document → Text → Bson → Document
put end k v = field k v end
put (field j w d) k v = let rest = put d k v in if text_eq j k then field j v d else field j w rest

pub lookup-put :
    (d : Document) (k : Text) (v : Bson) (j : Text)
    → lookup (put d k v) j ≡ (if text_eq k j then some v else lookup d j)
lookup-put end k v j = refl
lookup-put (field i w d) k v j =
    ground (arith, text_eq_iff i k, text_eq_iff i j, text_eq_iff k j, lookup-put d k v j)

abbrev field_names : Document → List Text
field_names end = []
field_names (field k v d) = k ∷ field_names d

abbrev simple_eq : Bson → Bson → Bool
simple_eq null null = true
simple_eq (boolean true) (boolean b) = b
simple_eq (boolean false) (boolean true) = false
simple_eq (boolean false) (boolean false) = true
simple_eq (int32 a) (int32 b) = int_eq a b
simple_eq (int64 a) (int64 b) = int_eq a b
simple_eq (double a) (double b) = nat_eq a b
simple_eq (string a) (string b) = text_eq a b
simple_eq (date_time a) (date_time b) = int_eq a b
simple_eq _ _ = false

abbrev show_digit : Bson → Text
show_digit (int64 (pos n)) = (48 + n) ∷ []
show_digit (string s) = s
show_digit _ = codes "?"

instance abbrev pub sample_bson : BsonApi
sample_bson = record {
  new = end;
  get = lookup;
  insert = put;
  keys = field_names;
  eq = simple_eq;
  display = show_digit;
  debug = λ d. codes "doc";
  parse_rfc3339 = λ s. none;
  parse_object_id = λ s. none;
  parse_decimal128 = λ s. none;
  get-new = λ k. refl;
  get-insert = lookup-put;
}

abbrev letter_or_digit : ℕ → Bool
letter_or_digit c = leb b'0' c && leb c b'9' || leb b'a' c && leb c b'z' || leb b'A' c && leb c b'Z'

-- Whole numbers stand for floats.
abbrev as_bits : ℤ → ℕ
as_bits (pos n) = 2 * n
as_bits (negsuc n) = suc (2 * n)

instance abbrev pub sample_std : StdApi
sample_std = record {
  f64_of_i64 = as_bits;
  i64_of_f64 = λ x. pos x;
  parse_f64 = λ s. none;
  f64_eq = nat_eq;
  f64_lt = ltb;
  f64_le = leb;
  f64_is_zero = λ x. nat_eq x 0;
  is_alphanumeric = letter_or_digit;
}
