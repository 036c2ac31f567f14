-- ===== src/Prelude/Runs.antt =====
-- When a call that may panic returns: rules for the ways that calls are put together.
use mathlib.Core.Path.{◌≡◌, refl}
use mathlib.Core.Bool.{Bool, true, false}
use mathlib.Core.List.{List, [], ◌∷◌}
use leafmask.Prelude.Tests.{if◌then◌else◌}
use leafmask.Prelude.Lists.{All}
use leafmask.Prelude.Result.{Run, returns, panics, then_run, map_run, any_run, all_run, Returns}

module _ {A B : Type 0} where
  pub Returns-then :
      (m : Run A) (f : A → Run B)
      → Returns m
      → ((a : A) → m ≡ returns a → Returns (f a))
      → Returns (then_run m f)
  Returns-then (returns a) f h k = k a refl
  Returns-then panics f h k = h

Returns-cons :
    {B : Type 0} (m : Run (List B)) (y : B)
    → Returns m
    → Returns (then_run m (λ ys. returns (y ∷ ys)))
Returns-cons (returns ys) y h = tt
Returns-cons panics y h = h

pub Returns-map :
    {A B : Type 0} (P : A → Type 0) (f : A → Run B) (xs : List A)
    → ((a : A) → P a → Returns (f a))
    → All P xs
    → Returns (map_run f xs)
Returns-map P f [] k h = tt
Returns-map P f (x ∷ xs) k h =
    let rest = Returns-map P f xs k h.1 in
    Returns-then (f x) (λ y. then_run (map_run f xs) (λ ys. returns (y ∷ ys))) (k x h.0)
      (λ y e. Returns-cons (map_run f xs) y rest)

module _ {A : Type 0} (P : A → Type 0) (f : A → Run Bool) (k : (a : A) → P a → Returns (f a)) where
  Returns-if : (b : Bool) (m n : Run Bool) → Returns m → Returns n → Returns (if b then m else n)
  Returns-if true m n h g = h
  Returns-if false m n h g = g

  pub Returns-any : (xs : List A) → All P xs → Returns (any_run f xs)
  Returns-any [] h = tt
  Returns-any (x ∷ xs) h =
      let rest = Returns-any xs h.1 in
      Returns-then (f x) (λ b. if b then returns true else any_run f xs) (k x h.0)
        (λ b e. Returns-if b (returns true) (any_run f xs) tt rest)

  pub Returns-All : (xs : List A) → All P xs → Returns (all_run f xs)
  Returns-All [] h = tt
  Returns-All (x ∷ xs) h =
      let rest = Returns-All xs h.1 in
      Returns-then (f x) (λ b. if b then all_run f xs else returns false) (k x h.0)
        (λ b e. Returns-if b (all_run f xs) (returns false) rest tt)

pub Returns-of-ne : {A : Type 0} (m : Run A) → (m ≡ panics → ⊥) → Returns m
Returns-of-ne (returns a) h = tt
Returns-of-ne panics h = h refl

pub Returns-if_else :
    {A : Type 0} (b : Bool) (m n : Run A)
    → Returns m
    → (b ≡ false → Returns n)
    → Returns (if b then m else n)
Returns-if_else true m n h k = h
Returns-if_else false m n h k = k refl

pub All-map :
    {A : Type 0} (P Q : A → Type 0) (xs : List A) → ((a : A) → P a → Q a) → All P xs → All Q xs
All-map P Q [] k h = tt
All-map P Q (x ∷ xs) k h = (k x h.0, All-map P Q xs k h.1)
