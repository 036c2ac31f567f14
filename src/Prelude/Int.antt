-- ===== src/Prelude/Int.antt =====
-- Signed integers over the native numbers, the range of i64, and `str::parse` for it.
use Prim.Native.Nat.{ℕ, zero, suc, ◌+◌, ◌-◌, ◌*◌, ◌≤◌, ◌<◌}
use mathlib.Core.Path.{◌≡◌}
use mathlib.Core.Logic.{◌↔◌}
use mathlib.Core.Bool.{Bool, true, false, ◌&&◌}
use mathlib.Core.Option.{Option, none, some}
use mathlib.Core.List.{[], ◌∷◌}
use native.Mathlib.Omega.{arith}
use leafmask.Prelude.Tests.{if◌then◌else◌, ltb, leb, nat_eq, Eq}
use leafmask.Prelude.Chars.{Text, digits_value}

-- `negsuc n` is -(n + 1).
pub data ℤ : Type 0 where
  pos : ℕ → ℤ
  negsuc : ℕ → ℤ

abbrev pub pos_part : ℤ → ℕ
pos_part (pos n) = n
pos_part (negsuc n) = 0

abbrev pub neg_part : ℤ → ℕ
neg_part (pos n) = 0
neg_part (negsuc n) = suc n

-- a - b, as an integer.
abbrev pub sub_ℕ : ℕ → ℕ → ℤ
sub_ℕ a b = if leb b a then pos (a - b) else negsuc (b - a - 1)

infixl 65 ◌+ℤ◌ ◌-ℤ◌
infix 50 ◌≤ℤ◌ ◌<ℤ◌
abbrev pub ◌+ℤ◌ : ℤ → ℤ → ℤ
a +ℤ b = sub_ℕ (pos_part a + pos_part b) (neg_part a + neg_part b)

abbrev pub ◌-ℤ◌ : ℤ → ℤ → ℤ
a -ℤ b = sub_ℕ (pos_part a + neg_part b) (neg_part a + pos_part b)

abbrev pub ◌≤ℤ◌ : ℤ → ℤ → Type 0
a ≤ℤ b = pos_part a + neg_part b ≤ pos_part b + neg_part a

abbrev pub ◌<ℤ◌ : ℤ → ℤ → Type 0
a <ℤ b = pos_part a + neg_part b < pos_part b + neg_part a

abbrev pub ltb_ℤ : ℤ → ℤ → Bool
ltb_ℤ a b = ltb (pos_part a + neg_part b) (pos_part b + neg_part a)

abbrev pub leb_ℤ : ℤ → ℤ → Bool
leb_ℤ a b = leb (pos_part a + neg_part b) (pos_part b + neg_part a)

abbrev pub int_eq : ℤ → ℤ → Bool
int_eq (pos a) (pos b) = nat_eq a b
int_eq (pos a) (negsuc b) = false
int_eq (negsuc a) (pos b) = false
int_eq (negsuc a) (negsuc b) = nat_eq a b

pub int_eq_iff : (a b : ℤ) → (int_eq a b ≡ true) ↔ (a ≡ b)
int_eq_iff a b = ground arith

instance abbrev pub int_Eq : Eq ℤ
int_Eq = record { beq = int_eq; beq_iff = int_eq_iff }

-- `negsuc (n - 1)` where n is not 0.
abbrev pub neg_ℕ : ℕ → ℤ
neg_ℕ zero = pos 0
neg_ℕ (suc n) = negsuc n

abbrev pub i64_min : ℤ
i64_min = negsuc 0x7fffffffffffffff

abbrev pub i64_max : ℤ
i64_max = pos 0x7fffffffffffffff

abbrev pub InI64 : ℤ → Type 0
InI64 z = (i64_min ≤ℤ z) × (z ≤ℤ i64_max)

abbrev pub fits_i64 : ℤ → Option ℤ
fits_i64 z = if leb_ℤ i64_min z && leb_ℤ z i64_max then some z else none

-- The digits behind the sign: at least one.
abbrev pub parse_magnitude : Text → Option ℕ
parse_magnitude [] = none
parse_magnitude (c ∷ s) = digits_value 0 (c ∷ s)

abbrev pub signed : (ℕ → ℤ) → Option ℕ → Option ℤ
signed sign none = none
signed sign (some n) = fits_i64 (sign n)

-- `s.parse::<i64>()`: an optional sign, then digits only, in range.
unfoldable pub parse_i64 : Text → Option ℤ
parse_i64 [] = none
parse_i64 (c ∷ s) =
    if nat_eq c b'-'
    then signed neg_ℕ (parse_magnitude s)
    else if nat_eq c b'+'
    then signed pos (parse_magnitude s)
    else signed pos (parse_magnitude (c ∷ s))

-- i128: the product with a number.
abbrev pub mul_ℕ : ℤ → ℕ → ℤ
mul_ℕ (pos n) k = pos (n * k)
mul_ℕ (negsuc n) k = neg_ℕ (suc n * k)

-- The nearest i64, which `saturating_add` and `saturating_mul` return.
abbrev pub saturate : ℤ → ℤ
saturate z = if ltb_ℤ z i64_min then i64_min else if ltb_ℤ i64_max z then i64_max else z

-- `-z` where overflow wraps, as in a release build.
abbrev pub wrapping_neg : ℤ → ℤ
wrapping_neg z = if int_eq z i64_min then i64_min else pos 0 -ℤ z
