-- ===== src/Subset/Fuel.antt =====
-- The traversal ends: each round takes a node off the work list, and a node is put there only
-- when its key is new.
use leafmask.Prelude.{
  ℕ, zero, suc, ◌+◌, ◌≤◌, ◌<◌, Text, text_Eq, text_eq_iff, false, some, List, [], ◌∷◌, ◌≡◌, refl,
  ap, ◌∙◌, inl, inr, arith, length, contains, In, List-cases, Bool-cases, if◌then◌else◌,
}
use leafmask.Prelude.Result.{Result, ok, err, Result-cases}
use leafmask.Subset.Worklist.{Traversal, admit, admit_all, walk}
use leafmask.Subset.Walk.{Follows, follow-next, follow-fails, walk-empty, walk-step, walk-fail}

-- How many of the keys are not visited.
abbrev pub unvisited : List Text → List Text → ℕ
unvisited [] vs = 0
unvisited (k ∷ u) vs = let rest = unvisited u vs in if contains vs k then rest else suc rest

unvisited-cons_le : (u vs : List Text) (k : Text) → unvisited u (k ∷ vs) ≤ unvisited u vs
unvisited-cons_le [] vs k = omega arith
unvisited-cons_le (j ∷ u) vs k = ground (arith, unvisited-cons_le u vs k)

unvisited-cons_lt :
    (u vs : List Text) (k : Text)
    → In k u
    → contains vs k ≡ false
    → unvisited u (k ∷ vs) < unvisited u vs
unvisited-cons_lt [] vs k i e = elim i [ ]
unvisited-cons_lt (j ∷ u) vs k (inl same) e =
    ground (arith, text_eq_iff k j, unvisited-cons_le u vs k, ap (contains vs) same)
unvisited-cons_lt (j ∷ u) vs k (inr i) e = ground (arith, unvisited-cons_lt u vs k i e)

module _ {N : Type 0} (key : N → Text) (universe : List Text) where
  abbrev pub measure : Traversal N → ℕ
  measure s = length s.work + unvisited universe s.visited

  admit-measure :
      (n : N) (s : Traversal N) → In (key n) universe → measure (admit key n s) ≤ measure s
  unfolding admit
  admit-measure n s i = elim (Bool-cases (contains s.visited (key n))) [
    | inl e ↦ rw e (omega arith)
    | inr e ↦ rw e (omega (arith, unvisited-cons_lt universe s.visited (key n) i e))
  ]

  pub admit_all-measure :
      (ns : List N) (s : Traversal N)
      → ((n : N) → In n ns → In (key n) universe)
      → measure (admit_all key ns s) ≤ measure s
  unfolding admit_all
  admit_all-measure [] s h = omega arith
  admit_all-measure (n ∷ ns) s h = omega (
    arith,
    admit-measure n s (h n (inl refl)),
    admit_all-measure ns (admit key n s) (λ m i. h m (inr i)),
  )

  module _ (follow : N → Traversal N → Result (Traversal N)) (succs : N → Result (List N))
      (follows : Follows key follow succs)
      (bounded : (n : N) (ns : List N)
        → succs n ≡ ok ns
        → (m : N) → In m ns
        → In (key m) universe) where
    pub walk-total :
        (fuel : ℕ) (s : Traversal N)
        → measure s ≤ fuel
        → (r : Result (Traversal N)) × (walk follow fuel s ≡ some r)
    walk-total zero s h = elim (List-cases s.work) [
      | inl e ↦ (ok s, walk-empty key follow succs zero s e)
      | inr (n, rest, e) ↦ absurd (omega (arith, ap (length {0}) e))
    ]
    walk-total (suc fuel) s h = elim (List-cases s.work) [
      | inl e ↦ (ok s, walk-empty key follow succs (suc fuel) s e)
      | inr (n, rest, e) ↦ elim (Result-cases (succs n)) [
        | inl (ns, found) ↦
            let popped : Traversal N = record s { work = rest } in
            let next = admit_all key ns popped in
            let (r, ends) = walk-total fuel next (
              omega (arith, ap (length {0}) e, admit_all-measure ns popped (bounded n ns found))) in
            (
              r,
              walk-step key follow succs fuel s next n rest e
                    (follow-next key follow succs follows s n rest ns found)
                  ∙ ends,
            )
        | inr (x, failed) ↦ (
          err x,
          walk-fail key follow succs fuel s n rest x e
              (follow-fails key follow succs follows s n rest x failed),
        )
      ]
    ]
