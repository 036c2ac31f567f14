-- ===== src/Validate/Pieces.antt =====
-- The loops of `diff_collection` as the pieces that their elements contribute, and the keys that it
-- compares.
use mathlib.Core.Path.{subst}
use leafmask.Prelude.{
  Text, Bool, true, false, Bool-cases, Option-cases, none, List, [], ◌∷◌, ◌++◌, map, In, In-append,
  text_eq_iff, if◌then◌else◌, Map, at_key, ◌≡◌, ◌≢◌, ◌↔◌, ◌⊎◌, inl, inr, refl, arith, ap,
}
use leafmask.Bson.{Bson}
use leafmask.Restore.Sink.{IndexSpec}
use leafmask.Validate.{
  SchemaDiff, index_named, insert_key, sort_keys, dedup_after, dedup, index_diff, recorded_diffs,
  addition, live_diffs, option_eq, option_diffs, option_keys,
}

In-insert_key : (a k : Text) (ks : List Text) → In a (insert_key k ks) ↔ ((a ≡ k) ⊎ In a ks)
In-insert_key a k [] = ground arith
In-insert_key a k (j ∷ ks) = ground (arith, In-insert_key a k ks)

In-sort_keys : (a : Text) (ks : List Text) → In a (sort_keys ks) ↔ In a ks
In-sort_keys a [] = ground arith
In-sort_keys a (k ∷ ks) = ground (arith, In-sort_keys a ks, In-insert_key a k (sort_keys ks))

In-dedup_after :
    (a k : Text) (ks : List Text) → ((a ≡ k) ⊎ In a (dedup_after k ks)) ↔ ((a ≡ k) ⊎ In a ks)
In-dedup_after a k [] = ground arith
In-dedup_after a k (j ∷ js) =
    ground (arith, text_eq_iff k j, In-dedup_after a k js, In-dedup_after a j js)

In-dedup : (a : Text) (ks : List Text) → In a (dedup ks) ↔ In a ks
In-dedup a [] = ground arith
In-dedup a (k ∷ ks) = In-dedup_after a k ks

-- A key has a value exactly if it is among the entries.
In-keys : (m : Map Bson) (k : Text) → at_key m k ≢ none → In k (map (λ e. e.0) m)
In-keys [] k h = absurd (h refl)
In-keys ((j, v) ∷ m) k h = ground (arith, text_eq_iff j k, In-keys m k)

module _ (same : Bson → Bson → Bool) (r l : Map Bson) where
  among : (k : Text) → (In k (map (λ e. e.0) r) ⊎ In k (map (λ e. e.0) l)) → In k (option_keys r l)
  among k h =
      let both = map (λ e. e.0) r ++ map (λ e. e.0) l in
      (In-dedup k (sort_keys both)).1
        ((In-sort_keys k both).1 ((In-append k (map (λ e. e.0) r) (map (λ e. e.0) l)).1 h))

  pub differs-In :
      (k : Text) → option_eq same (at_key r k) (at_key l k) ≡ false → In k (option_keys r l)
  differs-In k h = elim (Option-cases (at_key r k)) [
    | inl n ↦ elim (Option-cases (at_key l k)) [
      | inl m ↦ cc
      | inr (b, m) ↦ among k (inr (In-keys l k (λ h. cc)))
    ]
    | inr (b, m) ↦ among k (inl (In-keys r k (λ h. cc)))
  ]

module _ {A : Type 0} (f : A → List SchemaDiff) where
  -- The pieces of all elements, one behind the other.
  pub pieces : List A → List SchemaDiff
  pieces [] = []
  pieces (i ∷ is) = f i ++ pieces is

  pub In-pieces :
      (d : SchemaDiff) (is : List A) → In d (pieces is) ↔ ((i : A) × In i is × In d (f i))
  unfolding pieces
  In-pieces d [] = (λ h. elim h [ ], λ (i, m, q). elim m [ ])
  In-pieces d (x ∷ is) =
      let (to, from) = In-pieces d is in
      let (split, merge) = In-append d (f x) (pieces is) in
      (
        λ h. elim (split h) [
          | inl m ↦ (x, inl refl, m)
          | inr m ↦ let (i, n, q) = to m in (i, inr n, q)
        ],
        λ (i, n, q). elim n [
          | inl e ↦ merge (inl (subst (λ j. In d (f j)) e q))
          | inr n ↦ merge (inr (from (i, n, q)))
        ],
      )

pub recorded-pieces :
    (live rs : List IndexSpec)
    → recorded_diffs live rs ≡ pieces (λ r. index_diff r (index_named r.name live)) rs
unfolding recorded_diffs pieces
recorded-pieces live [] = refl
recorded-pieces live (r ∷ rs) =
    ap (λ t. index_diff r (index_named r.name live) ++ t) (recorded-pieces live rs)

pub live-pieces :
    (recorded ls : List IndexSpec)
    → live_diffs recorded ls ≡ pieces (λ l. addition l (index_named l.name recorded)) ls
unfolding live_diffs pieces
live-pieces recorded [] = refl
live-pieces recorded (l ∷ ls) =
    ap (λ t. addition l (index_named l.name recorded) ++ t) (live-pieces recorded ls)

module _ (same : Bson → Bson → Bool) (r l : Map Bson) where
  abbrev pub option_piece : Text → List SchemaDiff
  option_piece k =
      if option_eq same (at_key r k) (at_key l k) then [] else SchemaDiff.option_changed k ∷ []

  pub option-pieces : (ks : List Text) → option_diffs same r l ks ≡ pieces option_piece ks
  unfolding option_diffs pieces
  option-pieces [] = refl
  option-pieces (k ∷ ks) = elim (Bool-cases (option_eq same (at_key r k) (at_key l k))) [
    | inl t ↦ rw t (option-pieces ks)
    | inr f ↦ rw f (ap (λ t. SchemaDiff.option_changed k ∷ t) (option-pieces ks))
  ]

pub In-one : (d e : SchemaDiff) → In d (e ∷ []) → d ≡ e
In-one d e h = elim h [ inl q ↦ q | inr m ↦ absurd m ]

pub In-unless :
    (b : Bool) (d e : SchemaDiff) → In d (if b then [] else e ∷ []) ↔ (b ≡ false) × (d ≡ e)
In-unless true d e = (λ h. absurd h, λ (h, q). cc)
In-unless false d e = (λ h. (refl, In-one d e h), λ (h, q). inl q)

-- The four parts of a difference.
pub In-parts :
    (d : SchemaDiff) (a b c e : List SchemaDiff)
    → In d (a ++ (b ++ (c ++ e))) ↔ (In d a ⊎ (In d b ⊎ (In d c ⊎ In d e)))
In-parts d a b c e =
    ground (arith, In-append d a (b ++ (c ++ e)), In-append d b (c ++ e), In-append d c e)
