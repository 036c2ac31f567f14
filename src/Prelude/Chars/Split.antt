-- ===== src/Prelude/Chars/Split.antt =====
-- `split` and `join` undo one another.
use Prim.Native.Nat.{ℕ, ◌<◌}
use mathlib.Core.Path.{◌≡◌, refl, ap, ◌∙◌}
use mathlib.Core.Logic.{inl, inr}
use mathlib.Core.Bool.{false}
use mathlib.Core.List.{List, [], ◌∷◌, ◌++◌}
use native.Mathlib.Omega.{arith}
use leafmask.Prelude.Tests.{nat_eq, nat_eq_iff, Bool-cases}
use leafmask.Prelude.Lists.{All, length, length-append}
use leafmask.Prelude.Chars.{Text, split_on, join, onto_first, Free}

join-onto_first :
    (c x : ℕ) (ps : List Text)
    → 0 < length ps
    → join (c ∷ []) (onto_first x ps) ≡ x ∷ join (c ∷ []) ps
join-onto_first c x [] h = absurd (omega arith)
join-onto_first c x (p ∷ []) h = refl
join-onto_first c x (p ∷ q ∷ ps) h = refl

length-onto_first : (x : ℕ) (ps : List Text) → 0 < length (onto_first x ps)
length-onto_first x [] = omega arith
length-onto_first x (p ∷ ps) = omega arith

pub length-split_on : (c : ℕ) (s : Text) → 0 < length (split_on c s)
length-split_on c [] = omega arith
length-split_on c (x ∷ s) = elim (Bool-cases (nat_eq x c)) [
  | inl e ↦ rw e (omega arith)
  | inr e ↦ rw e (length-onto_first x (split_on c s))
]

join-cons_nil :
    (c : ℕ) (ps : List Text) → 0 < length ps → join (c ∷ []) ([] ∷ ps) ≡ c ∷ join (c ∷ []) ps
join-cons_nil c [] h = absurd (omega arith)
join-cons_nil c (p ∷ ps) h = refl

pub join-split_on : (c : ℕ) (s : Text) → join (c ∷ []) (split_on c s) ≡ s
join-split_on c [] = refl
join-split_on c (x ∷ s) = elim (Bool-cases (nat_eq x c)) [
  | inl e ↦ rw e (
      join-cons_nil c (split_on c s) (length-split_on c s)
      ∙ ground (arith, join-split_on c s, nat_eq_iff x c))
  | inr e ↦ rw e (
      join-onto_first c x (split_on c s) (length-split_on c s)
      ∙ ap (λ r. x ∷ r) (join-split_on c s))
]

All-onto_first :
    (c x : ℕ) (ps : List Text)
    → nat_eq x c ≡ false
    → All (Free c) ps
    → All (Free c) (onto_first x ps)
All-onto_first c x [] e h = ((e, tt), tt)
All-onto_first c x (p ∷ ps) e h = ((e, h.0), h.1)

pub split_on-Free : (c : ℕ) (s : Text) → All (Free c) (split_on c s)
split_on-Free c [] = (tt, tt)
split_on-Free c (x ∷ s) = elim (Bool-cases (nat_eq x c)) [
  | inl e ↦ rw e (tt, split_on-Free c s)
  | inr e ↦ rw e (All-onto_first c x (split_on c s) e (split_on-Free c s))
]

split_on-append : (c : ℕ) (p s : Text) → Free c p → split_on c (p ++ (c ∷ s)) ≡ p ∷ split_on c s
split_on-append c [] s h = ground (arith, nat_eq_iff c c)
split_on-append c (x ∷ p) s h = rw (h.0, split_on-append c p s h.1)

split_on-Free_from : (c : ℕ) (p : Text) → Free c p → split_on c p ≡ p ∷ []
split_on-Free_from c [] h = refl
split_on-Free_from c (x ∷ p) h = rw (h.0, split_on-Free_from c p h.1)

pub split_on-join :
    (c : ℕ) (p : Text) (ps : List Text)
    → All (Free c) (p ∷ ps)
    → split_on c (join (c ∷ []) (p ∷ ps)) ≡ p ∷ ps
split_on-join c p [] h = split_on-Free_from c p h.0
split_on-join c p (q ∷ ps) h =
    split_on-append c p (join (c ∷ []) (q ∷ ps)) h.0 ∙ ap (λ r. p ∷ r) (split_on-join c q ps h.1)

-- What is left of a path behind its first part is shorter than the path.
pub length-join-rest :
    (c : ℕ) (p q : Text) (ps : List Text)
    → length (join (c ∷ []) (q ∷ ps)) < length (join (c ∷ []) (p ∷ q ∷ ps))
length-join-rest c p q ps = omega (arith, length-append p (c ∷ join (c ∷ []) (q ∷ ps)))
