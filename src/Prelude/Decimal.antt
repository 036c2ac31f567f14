-- ===== src/Prelude/Decimal.antt =====
-- How Rust prints a number.
use Prim.Native.Nat.{ℕ, zero, suc, ◌+◌, ◌*◌, ◌/◌, ◌%◌, ◌<◌, ◌≤◌}
use mathlib.Core.Path.{◌≡◌, refl, ap, ◌∙◌}
use mathlib.Core.Bool.{true, false}
use mathlib.Core.Logic.{inl, inr}
use mathlib.Core.Option.{some}
use mathlib.Core.List.{[], ◌∷◌}
use native.Mathlib.Omega.{arith}
use leafmask.Prelude.Tests.{ltb, ltb→lt, Bool-cases}
use leafmask.Prelude.Chars.{Text, digit_value, digits_value}

-- The digits of a number in front of a text.
unfoldable pub digits_onto : ℕ → ℕ → Text → Text
digits_onto zero n t = t
digits_onto (suc k) n t = elim (ltb n 10) [
  | true ↦ (48 + n) ∷ t
  | false ↦ digits_onto k (n / 10) ((48 + n % 10) ∷ t)
]

unfoldable pub decimal : ℕ → Text
decimal n = digits_onto (suc n) n []

digit_value-digit : (d : ℕ) → d < 10 → digit_value (48 + d) ≡ some d
digit_value-digit d small = ground arith

digits_value-digit :
    (acc d : ℕ) (t : Text)
    → d < 10
    → digits_value acc ((48 + d) ∷ t) ≡ digits_value (acc * 10 + d) t
digits_value-digit acc d t small = rw (digits_value, digit_value-digit d small) refl

digits_value-digits_onto :
    (k n : ℕ) (t : Text) → n < k → digits_value 0 (digits_onto k n t) ≡ digits_value n t
unfolding digits_onto
digits_value-digits_onto zero n t fits = let no : ⊥ = omega arith in absurd no
digits_value-digits_onto (suc k) n t fits = elim (Bool-cases (ltb n 10)) [
  | inl s ↦
      let same : 0 * 10 + n ≡ n = omega arith in
      rw (digits_onto, s)
        (digits_value-digit 0 n t (ltb→lt n 10 s) ∙ ap (λ m. digits_value m t) same)
  | inr l ↦
      let large : 10 ≤ n = ground arith in
      let same : n / 10 * 10 + n % 10 ≡ n = omega arith in
      rw (digits_onto, l)
        (digits_value-digits_onto k (n / 10) ((48 + n % 10) ∷ t) (omega arith)
          ∙ digits_value-digit (n / 10) (n % 10) t (omega arith)
          ∙ ap (λ m. digits_value m t) same)
]

-- The printed digits of a number have its value.
digits_value-decimal : (n : ℕ) → digits_value 0 (decimal n) ≡ some n
unfolding decimal
digits_value-decimal n = digits_value-digits_onto (suc n) n [] (omega arith)
