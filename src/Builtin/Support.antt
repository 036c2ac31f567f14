-- ===== src/Builtin/Support.antt =====
-- What transform/builtin.rs takes from other crates and the standard library.
use leafmask.Prelude.{
  ℕ, zero, suc, ◌+◌, ◌/◌, ◌%◌, ◌^◌, Text, codes, List, [], ◌∷◌, ◌≡◌, Option, some, length, take,
  leb, ltb, ascii_lower, map, unwrap_or, nat_eq, if◌then◌else◌,
}
use leafmask.Prelude.Result.{Run, returns, panics}
use leafmask.Bson.{Bson, BsonApi, F64}
use leafmask.Toolkit.Cast.{to_hashable_bytes}
use leafmask.Hash.{Sha256, HashEngine, hash_u64, hash_bytes}

-- Arithmetic of f64, with the literals 0.1, 1.0 and 2.0 and `u64 as f64`.
pub record FloatApi : Type 0 where
  pub add : F64 → F64 → F64
  pub sub : F64 → F64 → F64
  pub mul : F64 → F64 → F64
  pub div : F64 → F64 → F64
  pub round : F64 → F64
  pub of_u64 : ℕ → F64
  pub tenth : F64
  pub one : F64
  pub two : F64

-- hex::encode writes two digits for a byte.
pub record HexApi : Type 0 where
  pub encode : List ℕ → Text
  pub length-encode : (bytes : List ℕ) → length (encode bytes) ≡ length bytes + length bytes

abbrev pub template_pattern : Text
template_pattern = codes "\\{\\{\\s*\\.?(\\w+)\\s*\\}\\}"

-- The regex crate. `replace_with` gives a closure the first group of each match. The
-- pattern of a template is one that the crate accepts.
pub record RegexApi : Type 1 where
  pub Regex : Type 0
  pub new : Text → Option Regex
  pub replace_all : Regex → Text → Text → Text
  pub replace_with : Regex → Text → (Text → Text) → Text
  pub new-template_pattern : (re : Regex) × (new template_pattern ≡ some re)

-- `&s[..n]` of a text of one-byte characters.
abbrev pub slice_to : Text → ℕ → Run Text
slice_to s n = if leb n (length s) then returns (take n s) else panics

-- `xs[i]`
abbrev pub at_index : {A : Type 0} → List A → ℕ → Run A
at_index [] i = panics
at_index (x ∷ xs) zero = returns x
at_index (x ∷ xs) (suc i) = at_index xs i

-- `[0u8; 12].copy_from_slice(&bytes)`
abbrev pub to_array : ℕ → List ℕ → Run (List ℕ)
to_array n bytes = if nat_eq (length bytes) n then returns bytes else panics

-- `to_lowercase` of a text of ASCII letters.
abbrev pub lowercase : Text → Text
lowercase s = map ascii_lower s

-- `c.to_string().repeat(n)`
abbrev pub repeat : ℕ → ℕ → Text
repeat c zero = []
repeat c (suc n) = c ∷ repeat c n

abbrev pub hex_digit : ℕ → ℕ
hex_digit d = if ltb d 10 then b'0' + d else 87 + d

-- `{h:x}` of a number below 16 to the fuel, in front of the digits so far.
abbrev pub hex_from : ℕ → ℕ → Text → Text
hex_from zero h acc = acc
hex_from (suc fuel) h acc =
    let more = hex_from fuel (h / 16) (hex_digit (h % 16) ∷ acc) in
    if ltb h 16 then hex_digit h ∷ acc else more

abbrev pub hex_text : ℕ → Text
hex_text h = hex_from 16 h []

module _ ⦃api : BsonApi⦄ ⦃sha256 : Sha256⦄ (engine : HashEngine) where
  -- The n bytes that are derived from a value: `length-hash_bytes` shows that they are there.
  abbrev pub derived : Bson → ℕ → List ℕ
  derived v n = unwrap_or (hash_bytes engine (to_hashable_bytes v) n) []

  -- A hashed float in [0, 1).
  abbrev pub unit : ⦃float : FloatApi⦄ → List ℕ → F64
  unit ⦃float⦄ input =
      float.div (float.of_u64 (hash_u64 engine input / 2 ^ 11)) (float.of_u64 (2 ^ 53))
