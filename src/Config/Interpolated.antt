-- ===== src/Config/Interpolated.antt =====
-- `interpolate_env` of config.rs against a relational description of the expansion.
use leafmask.Prelude.{
  ℕ, zero, suc, Text, true, Option, none, some, [], ◌∷◌, ◌++◌, nat_eq, nat_eq_iff, length, drop,
  starts_with, unwrap_or, Bool-cases, Option-cases, ◌≡◌, ◌≢◌, ◌↔◌, inl, inr, refl, sym, ap, arith,
  all, ◌≤◌, ◌<◌, ◌∙◌, length-append,
}
use mathlib.Core.Path.{subst}
use leafmask.Condition.Split.{starts_with-eq}
use leafmask.Config.{
  is_name_char, is_valid_env_name, before_close, reference, interpolate_from, interpolate_env,
}

-- A reference to a variable, in front of a text.
abbrev pub ref_to : Text → Text → Text
ref_to name rest = b'$' ∷ b'{' ∷ (name ++ (b'}' ∷ rest))

-- The second text is the first with the value of its variable in place of every reference, from the
-- left; a value is not expanded again.
pub data Expands (lookup : Text → Option Text) : Text → Text → Type 0 where
  nothing : Expands lookup [] []
  variable :
      {rest out : Text} (name : Text)
      → is_valid_env_name name ≡ true
      → Expands lookup rest out
      → Expands lookup (ref_to name rest) (unwrap_or (lookup name) [] ++ out)
  character :
      {rest out : Text} (c : ℕ)
      → ((name tail : Text) → is_valid_env_name name ≡ true → (c ∷ rest) ≢ ref_to name tail)
      → Expands lookup rest out
      → Expands lookup (c ∷ rest) (c ∷ out)

before_close-name :
    (name rest : Text)
    → all is_name_char name ≡ true
    → before_close (name ++ (b'}' ∷ rest)) ≡ some name
unfolding before_close
before_close-name [] rest v = ground arith
before_close-name (c ∷ name) rest v = ground (arith, before_close-name name rest)

valid-all : (name : Text) → is_valid_env_name name ≡ true → all is_name_char name ≡ true
unfolding is_valid_env_name
valid-all [] v = cc
valid-all (c ∷ name) v = ground arith

before_close-split :
    (s name : Text) → before_close s ≡ some name → (rest : Text) × (s ≡ name ++ (b'}' ∷ rest))
unfolding before_close
before_close-split [] name e = cc
before_close-split (c ∷ s) name e = elim (Bool-cases (nat_eq c b'}')) [
  | inl t ↦ (s, ground (arith, nat_eq_iff c b'}'))
  | inr f ↦ elim (Option-cases (before_close s)) [
    | inl n ↦ cc
    | inr (m, h) ↦ let (rest, split) = before_close-split s m h in (rest, cc)
  ]
]

reference-ref_to :
    (name rest : Text) → is_valid_env_name name ≡ true → reference (ref_to name rest) ≡ some name
unfolding reference
reference-ref_to name rest v = rw (before_close-name name rest (valid-all name v)) (rw v refl)

reference-split :
    (s name : Text)
    → reference s ≡ some name
    → (rest : Text) × (is_valid_env_name name ≡ true) × (s ≡ ref_to name rest)
unfolding reference
reference-split s name e = elim (Bool-cases (starts_with s (b'$' ∷ b'{' ∷ []))) [
  | inr f ↦ cc
  | inl t ↦ elim (Option-cases (before_close (drop 2 s))) [
    | inl n ↦ cc
    | inr (m, h) ↦ elim (Bool-cases (is_valid_env_name m)) [
      | inr w ↦ cc
      | inl w ↦
          let (rest, split) = before_close-split (drop 2 s) m h in
          let front = starts_with-eq s (b'$' ∷ b'{' ∷ []) t in (rest, cc, cc)
    ]
  ]
]

-- The loop passes over what was already read.
skip_name :
    (lookup : Text → Option Text) (name rest : Text)
    → interpolate_from lookup (suc (length name)) (name ++ (b'}' ∷ rest))
      ≡ interpolate_from lookup 0 rest
unfolding interpolate_from
skip_name lookup [] rest = refl
skip_name lookup (x ∷ name) rest = skip_name lookup name rest

from-ref_to :
    (lookup : Text → Option Text) (name rest : Text)
    → is_valid_env_name name ≡ true
    → interpolate_from lookup 0 (ref_to name rest)
      ≡ unwrap_or (lookup name) [] ++ interpolate_from lookup 0 rest
unfolding interpolate_from
from-ref_to lookup name rest v =
    rw (interpolate_from, reference-ref_to name rest v) (rw (skip_name lookup name rest) refl)

from-plain :
    (lookup : Text → Option Text) (c : ℕ) (s : Text)
    → reference (c ∷ s) ≡ none
    → interpolate_from lookup 0 (c ∷ s) ≡ c ∷ interpolate_from lookup 0 s
unfolding interpolate_from
from-plain lookup c s n = rw (interpolate_from, n) refl

plain-reference :
    (s : Text)
    → ((name tail : Text) → is_valid_env_name name ≡ true → s ≢ ref_to name tail)
    → reference s ≡ none
plain-reference s plain = elim (Option-cases (reference s)) [
  | inl n ↦ n
  | inr (name, e) ↦
      let (rest, v, split) = reference-split s name e in absurd (plain name rest v split)
]

interpolate_empty : (lookup : Text → Option Text) → interpolate_from lookup 0 [] ≡ []
unfolding interpolate_from
interpolate_empty lookup = refl

reference_clash :
    (s name tail : Text) → is_valid_env_name name ≡ true → s ≡ ref_to name tail → reference s ≢ none
reference_clash s name tail v split n = let found = reference-ref_to name tail v in cc

Expands-from :
    (lookup : Text → Option Text) (s out : Text)
    → Expands lookup s out
    → interpolate_from lookup 0 s ≡ out
Expands-from lookup s out Expands.nothing = interpolate_empty lookup
Expands-from lookup s out (Expands.variable {rest = rest} {out = o} name v more) =
    from-ref_to lookup name rest v
    ∙ ap (λ t. unwrap_or (lookup name) [] ++ t) (Expands-from lookup rest o more)
Expands-from lookup s out (Expands.character {rest = rest} {out = o} c plain more) =
    from-plain lookup c rest (plain-reference (c ∷ rest) plain)
    ∙ ap (λ t. c ∷ t) (Expands-from lookup rest o more)

length-ref_to : (name rest : Text) → length rest < length (ref_to name rest)
length-ref_to name rest = omega (arith, length-append name (b'}' ∷ rest))

-- Texts up to a length.
from-Expands :
    (lookup : Text → Option Text) (n : ℕ) (s : Text)
    → length s ≤ n
    → Expands lookup s (interpolate_from lookup 0 s)
from-Expands lookup n [] fits =
    subst (λ t. Expands lookup [] t) (sym (interpolate_empty lookup)) Expands.nothing
from-Expands lookup zero (c ∷ s) fits = let no : ⊥ = omega arith in absurd no
from-Expands lookup (suc n) (c ∷ s) fits = elim (Option-cases (reference (c ∷ s))) [
  | inl none_here ↦
      subst (λ t. Expands lookup (c ∷ s) t) (sym (from-plain lookup c s none_here))
        (Expands.character c
          (λ name tail v split. reference_clash (c ∷ s) name tail v split none_here)
          (from-Expands lookup n s (omega arith)))
  | inr (name, e) ↦
      let (rest, v, split) = reference-split (c ∷ s) name e in
      let shorter = length-ref_to name rest in
      let same : length (c ∷ s) ≡ length (ref_to name rest) = ap length split in
      subst (λ t. Expands lookup t (interpolate_from lookup 0 t)) (sym split)
        (subst (λ t. Expands lookup (ref_to name rest) t) (sym (from-ref_to lookup name rest v))
          (Expands.variable name v (from-Expands lookup n rest (omega arith))))
]

-- interpolate_env yields a text exactly if it is the given one with each `${NAME}` of a valid name
-- replaced, from the left and once, by the variable's value or by nothing if it is undefined, and with
-- every other character kept.
pub interpolate_env_iff :
    (lookup : Text → Option Text) (raw out : Text)
    → (interpolate_env raw lookup ≡ out) ↔ Expands lookup raw out
unfolding interpolate_env
interpolate_env_iff lookup raw out = (
  λ e. subst (λ t. Expands lookup raw t) e (from-Expands lookup (length raw) raw (omega arith)),
  λ h. Expands-from lookup raw out h,
)
