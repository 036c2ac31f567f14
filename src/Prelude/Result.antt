-- ===== src/Prelude/Result.antt =====
-- error.rs: the crate's error type and its `Result`. The messages are left out.
use mathlib.Core.Path.{◌≡◌, refl}
use mathlib.Core.Bool.{Bool, true, false}
use mathlib.Core.List.{List, [], ◌∷◌}
use leafmask.Prelude.Tests.{if◌then◌else◌}
use mathlib.Core.Logic.{◌⊎◌, inl, inr}
use mathlib.Core.Option.{Option, none, some}

pub data Error : Type 0 where
  config parameter transform storage not_found restore subset validation mongo io : Error

pub data Result {ℓ} (T : Type ℓ) : Type ℓ where
  ok : T → Result T
  err : Error → Result T

-- `ok_or_else`
abbrev pub ok_or {ℓ} : {A : Type ℓ} → Option A → Error → Result A
ok_or none e = err e
ok_or (some a) e = ok a

infixl 5 ◌>>=◌
abbrev pub ◌>>=◌ {ℓ κ} : {S : Type ℓ} {T : Type κ} → Result S → (S → Result T) → Result T
err failure >>= next = err failure
ok value >>= next = next value

-- A chain succeeds only if its first step does.
pub >>=-eq-ok {ℓ κ} :
    {S : Type ℓ} {T : Type κ} (first : Result S) (next : S → Result T) {out : T}
    → (first >>= next) ≡ ok out
    → (value : S) × (first ≡ ok value) × (next value ≡ ok out)
>>=-eq-ok (err failure) next e = cc
>>=-eq-ok (ok value) next e = (value, refl, e)

infixl 5 ◌>>◌
abbrev pub ◌>>◌ {ℓ κ} : {A : Type ℓ} {B : Type κ} → Result A → Result B → Result B
m >> k = m >>= λ _. k

-- A call that returns or panics; a panic unwinds through every caller.
pub data Run {ℓ} (A : Type ℓ) : Type ℓ where
  returns : A → Run A
  panics : Run A

abbrev pub then_run {ℓ κ} : {A : Type ℓ} {B : Type κ} → Run A → (A → Run B) → Run B
then_run (returns a) f = f a
then_run panics f = panics

abbrev pub Returns {ℓ} : {A : Type ℓ} → Run A → Type 0
Returns (returns a) = Unit
Returns panics = ⊥

-- `iter().map(f).collect()`
abbrev pub map_run : {A B : Type 0} → (A → Run B) → List A → Run (List B)
map_run f [] = returns []
map_run f (x ∷ xs) = then_run (f x) (λ y. then_run (map_run f xs) (λ ys. returns (y ∷ ys)))

-- `iter().any(f)` and `iter().all(f)` stop at the first hit.
abbrev pub any_run : {A : Type 0} → (A → Run Bool) → List A → Run Bool
any_run f [] = returns false
any_run f (x ∷ xs) =
    let rest = any_run f xs in then_run (f x) (λ b. if b then returns true else rest)

abbrev pub all_run : {A : Type 0} → (A → Run Bool) → List A → Run Bool
all_run f [] = returns true
all_run f (x ∷ xs) =
    let rest = all_run f xs in then_run (f x) (λ b. if b then rest else returns false)

pub Result-cases {ℓ} :
    {A : Type ℓ} (r : Result A) → ((a : A) × (r ≡ ok a)) ⊎ ((e : Error) × (r ≡ err e))
Result-cases (ok a) = inl (a, refl)
Result-cases (err e) = inr (e, refl)

-- `map_err`, to an error of the given kind.
abbrev pub map_err {ℓ} : {A : Type ℓ} → Result A → Error → Result A
map_err (ok a) e = ok a
map_err (err _) e = err e

-- `?` in a function that may panic.
infixl 5 ◌>>?◌
abbrev pub ◌>>?◌ {ℓ κ} :
    {S : Type ℓ} {T : Type κ} → Run (Result S) → (S → Run (Result T)) → Run (Result T)
panics >>? next = panics
returns (err failure) >>? next = returns (err failure)
returns (ok value) >>? next = next value

pub >>?-eq-ok {ℓ κ} :
    {S : Type ℓ} {T : Type κ} (first : Run (Result S)) (next : S → Run (Result T)) {out : T}
    → (first >>? next) ≡ returns (ok out)
    → (value : S) × (first ≡ returns (ok value)) × (next value ≡ returns (ok out))
>>?-eq-ok panics next e = cc
>>?-eq-ok (returns (err failure)) next e = cc
>>?-eq-ok (returns (ok value)) next e = (value, refl, e)

pub returns_ok-inj {ℓ} :
    {S : Type ℓ} {a b : S} → ◌≡◌ {A = Run (Result S)} (returns (ok a)) (returns (ok b)) → a ≡ b
returns_ok-inj e = cc

-- `unwrap`
abbrev pub unwrap {ℓ} : {A : Type ℓ} → Option A → Run A
unwrap none = panics
unwrap (some a) = returns a
