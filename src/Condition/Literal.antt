-- ===== src/Condition/Literal.antt =====
-- Literals and the comparison of values: `parse_literal`, `parse_list`, `literal_to_filter_bson`,
-- `as_f64`, `as_millis`, `bson_eq` and `truthy` of transform/condition.rs.
use leafmask.Prelude.{
  ℕ, Text, codes, text_eq, Bool, true, false, not, ◌&&◌, ◌||◌, Option, none, some, List, [], ◌∷◌,
  nat_eq, length, take, trim, ends_with_char, if◌then◌else◌,
}
use leafmask.Prelude.Int.{ℤ, pos, int_eq, parse_i64}
use leafmask.Prelude.Result.{Run, returns, panics, then_run, map_run}
use leafmask.Bson.{
  Bson, BsonApi, StdApi, F64, null, boolean, int32, int64, double, string, date_time,
}
use leafmask.Condition.Scan.{split_top}

abbrev pub starts_with_char : Text → ℕ → Bool
starts_with_char [] c = false
starts_with_char (x ∷ s) c = nat_eq x c

abbrev pub quoted_by : ℕ → Text → Bool
quoted_by q s = starts_with_char s q && ends_with_char s q

-- `s[1..s.len() - 1]`, which panics on a text of one character.
abbrev pub inner : Text → Run Text
inner [] = panics
inner (c ∷ []) = panics
inner (c ∷ d ∷ s) = returns (take (length s) (d ∷ s))

module _ ⦃std : StdApi⦄ where
  unfoldable pub number_or_text : Text → Bson
  unfolding parse_i64
  number_or_text s = elim (parse_i64 s) [
    | some i ↦ int64 i
    | none ↦ elim (std.parse_f64 s) [ some f ↦ double f | none ↦ string s ]
  ]

  unfoldable pub parse_trimmed : Text → Run Bson
  unfolding number_or_text
  parse_trimmed s =
      if quoted_by b'\'' s || quoted_by b'"' s
      then then_run (inner s) (λ t. returns (string t))
      else if text_eq s (codes "true")
      then returns (boolean true)
      else if text_eq s (codes "false")
      then returns (boolean false)
      else if text_eq s (codes "null")
      then returns null
      else returns (number_or_text s)

  unfoldable pub parse_literal : Text → Run Bson
  unfolding parse_trimmed trim
  parse_literal s = parse_trimmed (trim s)

  unfoldable pub parse_bracketed : Text → Run (Option (List Bson))
  unfolding parse_literal split_top
  parse_bracketed s =
      if not (starts_with_char s b'[') || not (ends_with_char s b']')
      then returns none
      else then_run (inner s) λ interior.
        if text_eq (trim interior) []
        then returns (some [])
        else then_run
            (map_run (λ piece. parse_literal (trim piece)) (split_top interior (codes ",")))
            (λ list. returns (some list))

  unfoldable pub parse_list : Text → Run (Option (List Bson))
  unfolding parse_bracketed
  parse_list s = parse_bracketed (trim s)

  unfoldable pub as_f64 : Bson → Option F64
  as_f64 (int32 v) = some (std.f64_of_i64 v)
  as_f64 (int64 v) = some (std.f64_of_i64 v)
  as_f64 (double v) = some v
  as_f64 _ = none

  unfoldable pub truthy : Option Bson → Bool
  truthy none = false
  truthy (some null) = false
  truthy (some (boolean b)) = b
  truthy (some (string [])) = false
  truthy (some (int32 n)) = not (int_eq n (pos 0))
  truthy (some (int64 n)) = not (int_eq n (pos 0))
  truthy (some (double n)) = not (std.f64_is_zero n)
  truthy (some _) = true

abbrev pub zip_option : {A B : Type 0} → Option A → Option B → Option (A × B)
zip_option (some a) (some b) = some (a, b)
zip_option _ _ = none

module _ ⦃api : BsonApi⦄ where
  unfoldable pub as_millis : Bson → Option ℤ
  as_millis (date_time ms) = some ms
  as_millis (string s) = api.parse_rfc3339 s
  as_millis _ = none

module _ ⦃api : BsonApi⦄ ⦃std : StdApi⦄ where
  unfoldable pub bson_eq : Bson → Bson → Bool
  unfolding as_f64 as_millis
  bson_eq a b = elim (zip_option (as_f64 a) (as_f64 b)) [
    | some (x, y) ↦ std.f64_eq x y
    | none ↦ elim (zip_option (as_millis a) (as_millis b)) [
      | some (x, y) ↦ int_eq x y
      | none ↦ api.eq a b
    ]
  ]

  unfoldable pub literal_to_filter_bson : Text → Run Bson
  unfolding parse_literal
  literal_to_filter_bson s = then_run (parse_literal s) λ v. elim v [
    | string text ↦ elim (api.parse_rfc3339 text) [
      | some ms ↦ returns (date_time ms)
      | none ↦ returns (string text)
    ]
    | value ↦ returns value
  ]
