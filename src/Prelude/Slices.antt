-- ===== src/Prelude/Slices.antt =====
-- Byte offsets into a `str`: `char::len_utf8`, `str::len`, and the slices `s[..i]` and `s[i..]`,
-- which panic at an offset that is past the end or within a character.
use Prim.Native.Nat.{ℕ, ◌+◌, ◌-◌, ◌≤◌}
use mathlib.Core.Path.{◌≡◌, refl}
use mathlib.Core.Bool.{true, false}
use mathlib.Core.List.{[], ◌∷◌, ◌++◌}
use native.Mathlib.Omega.{arith}
use leafmask.Prelude.Tests.{if◌then◌else◌, ltb, leb, nat_eq, nat_eq_iff}
use leafmask.Prelude.Chars.{Text}
use leafmask.Prelude.Result.{Run, returns, panics, then_run}

abbrev pub len_utf8 : ℕ → ℕ
len_utf8 c = if ltb c 0x80 then 1 else if ltb c 0x800 then 2 else if ltb c 0x10000 then 3 else 4

-- `str::len`
abbrev pub byte_len : Text → ℕ
byte_len [] = 0
byte_len (c ∷ s) = len_utf8 c + byte_len s

-- `s[..i]`
abbrev pub str_to : Text → ℕ → Run Text
str_to [] i = if nat_eq i 0 then returns [] else panics
str_to (c ∷ s) i =
    let rest = str_to s (i - len_utf8 c) in
    if nat_eq i 0
    then returns []
    else if leb (len_utf8 c) i
    then then_run rest (λ t. returns (c ∷ t))
    else panics

-- `s[i..]`
abbrev pub str_from : Text → ℕ → Run Text
str_from [] i = if nat_eq i 0 then returns [] else panics
str_from (c ∷ s) i =
    let rest = str_from s (i - len_utf8 c) in
    if nat_eq i 0 then returns (c ∷ s) else if leb (len_utf8 c) i then rest else panics

positive : (c : ℕ) → 1 ≤ len_utf8 c
positive c = ground arith

pub byte_len-append : (a b : Text) → byte_len (a ++ b) ≡ byte_len a + byte_len b
byte_len-append [] b = omega arith
byte_len-append (c ∷ a) b = omega (arith, byte_len-append a b)

step_over : (c n : ℕ) → (len_utf8 c + n) - len_utf8 c ≡ n
step_over c n = omega arith

-- A text is sliced without a panic behind any of its characters.
pub str_to-append : (a b : Text) → str_to (a ++ b) (byte_len a) ≡ returns a
str_to-append [] [] = refl
str_to-append [] (c ∷ b) = refl
str_to-append (c ∷ a) b =
    let n = len_utf8 c + byte_len a in
    let nonzero : nat_eq n 0 ≡ false = ground (arith, positive c, nat_eq_iff n 0) in
    let within : leb (len_utf8 c) n ≡ true = ground arith in
    rw (nonzero, within, step_over c (byte_len a), str_to-append a b) refl

pub str_from-append : (a b : Text) → str_from (a ++ b) (byte_len a) ≡ returns b
str_from-append [] [] = refl
str_from-append [] (c ∷ b) = refl
str_from-append (c ∷ a) b =
    let n = len_utf8 c + byte_len a in
    let nonzero : nat_eq n 0 ≡ false = ground (arith, positive c, nat_eq_iff n 0) in
    let within : leb (len_utf8 c) n ≡ true = ground arith in
    rw (nonzero, within, step_over c (byte_len a)) (str_from-append a b)
