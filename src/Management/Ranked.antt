-- ===== src/Management/Ranked.antt =====
-- The sort by time puts each completed dump at its rank.
use mathlib.Core.Path.{subst}
use leafmask.Prelude.{
  ℕ, zero, suc, ◌+◌, ◌<◌, Text, true, false, List, [], ◌∷◌, ◌++◌, map, filter, take, In, ◌≡◌, ◌↔◌,
  ◌∙◌, inl, inr, refl, sym, ap, arith, Bool-cases,
}
use leafmask.Dump.Metadata.{DumpStatus, done, DumpMetadata}
use leafmask.Management.{Clock, is_done, insert_recent, sort_recent}
use leafmask.Management.Rules.{is_done_iff}
use leafmask.Management.Recent.{
  Placed, rivals, not_before, after, Ranked, tally, tally-sort, tally-rivals, completed_of, ahead,
  Inserted, Placed-insert, Descends-sort, has_ended, has_ended-eq,
}

module _ ⦃clock : Clock⦄ where
  ended-done : (s : DumpStatus) → is_done s ≡ true → has_ended s ≡ true
  ended-done s h = sym (has_ended-eq s) ∙ h

  ended-other : (s : DumpStatus) → is_done s ≡ false → has_ended s ≡ false
  ended-other s h = sym (has_ended-eq s) ∙ h

  abbrev sorted : List DumpMetadata → List DumpMetadata
  sorted ds = sort_recent (completed_of ds)

  sorted-done :
      (x : DumpMetadata) (ds : List DumpMetadata)
      → is_done x.status ≡ true
      → sorted (x ∷ ds) ≡ insert_recent x (sorted ds)
  unfolding sort_recent
  sorted-done x ds t = rw t refl

  sorted-other :
      (x : DumpMetadata) (ds : List DumpMetadata)
      → is_done x.status ≡ false
      → sorted (x ∷ ds) ≡ sorted ds
  sorted-other x ds f = rw f refl

  after_sort :
      (x : DumpMetadata) (ds : List DumpMetadata)
      → tally (after x) (sorted ds) ≡ rivals (after x) ds
  after_sort x ds = tally-sort (after x) (completed_of ds) ∙ tally-rivals (after x) ds

  abbrev rank : DumpMetadata → List DumpMetadata → List DumpMetadata → ℕ
  rank m front back = rivals (not_before m) front + rivals (after m) back

  rank-done :
      (m x : DumpMetadata) (front back : List DumpMetadata)
      → is_done x.status ≡ true
      → rank m (x ∷ front) back ≡ ahead m x + rank m front back
  rank-done m x front back t = ground (arith, ended-done x.status t)

  rank-other :
      (m x : DumpMetadata) (front back : List DumpMetadata)
      → is_done x.status ≡ false
      → rank m (x ∷ front) back ≡ rank m front back
  rank-other m x front back f = ground (arith, ended-other x.status f)

  insert_Placed :
      (p : ℕ) (m x : DumpMetadata) (ds : List DumpMetadata)
      → Placed p m (insert_recent x (sorted ds)) ↔ Inserted p m x (sorted ds)
  insert_Placed p m x ds = Placed-insert p m x (sorted ds) (Descends-sort (completed_of ds))

  Placed-Ranked :
      (ds : List DumpMetadata) (p : ℕ) (m : DumpMetadata) → Placed p m (sorted ds) → Ranked p m ds
  unfolding sort_recent
  Placed-Ranked [] p m h = absurd h
  Placed-Ranked (x ∷ ds) p m h = elim (Bool-cases (is_done x.status)) [
    | inl t ↦ elim ((insert_Placed p m x ds).0 (subst (Placed p m) (sorted-done x ds t) h)) [
      | inl (e, r) ↦
          subst (λ k. Ranked p k (x ∷ ds)) (sym e)
            ([], ds, refl, (is_done_iff x.status).0 t, omega (arith, r, after_sort x ds))
      | inr (q, b, r) ↦
          let (front, back, e, d, k) = Placed-Ranked ds q m b in
          (x ∷ front, back, ap (λ l. x ∷ l) e, d, omega (arith, r, k, rank-done m x front back t))
    ]
    | inr f ↦
        let (front, back, e, d, k) =
          Placed-Ranked ds p m (subst (Placed p m) (sorted-other x ds f) h) in
        (x ∷ front, back, ap (λ l. x ∷ l) e, d, omega (arith, k, rank-other m x front back f))
  ]

  rank-Placed :
      (front back : List DumpMetadata) (m : DumpMetadata)
      → m.status ≡ done
      → Placed (rank m front back) m (sorted (front ++ (m ∷ back)))
  rank-Placed [] back m d =
      subst (Placed (rank m [] back) m) (sym (sorted-done m back ((is_done_iff m.status).1 d)))
        ((insert_Placed (rank m [] back) m m back).1 (inl (refl, omega (arith, after_sort m back))))
  rank-Placed (x ∷ front) back m d =
      let behind = front ++ (m ∷ back) in
      let below = rank-Placed front back m d in
      elim (Bool-cases (is_done x.status)) [
        | inl t ↦ subst (Placed (rank m (x ∷ front) back) m) (sym (sorted-done x behind t)) (
            (insert_Placed (rank m (x ∷ front) back) m x behind).1
              (inr (rank m front back, below, rank-done m x front back t)))
        | inr f ↦
            subst (Placed (rank m (x ∷ front) back) m) (sym (sorted-other x behind f))
              (subst (λ k. Placed k m (sorted behind)) (sym (rank-other m x front back f)) below)
      ]

  -- The sorted dumps have at a place the dumps of that rank.
  pub Placed-iff :
      (ds : List DumpMetadata) (p : ℕ) (m : DumpMetadata)
      → Placed p m (sort_recent (filter (λ x. is_done x.status) ds)) ↔ Ranked p m ds
  Placed-iff ds p m = (
    Placed-Ranked ds p m,
    λ (front, back, e, d, k).
        subst (λ l. Placed p m (sorted l)) (sym e)
          (subst (λ q. Placed q m (sorted (front ++ (m ∷ back)))) (sym k)
            (rank-Placed front back m d)),
  )

Placed_below :
    (n p : ℕ) (m : DumpMetadata) (s : List DumpMetadata)
    → p < n
    → Placed p m s
    → In m.id (map (λ x. x.id) (take n s))
Placed_below n p m [] l at = absurd at
Placed_below zero p m (x ∷ s) l at = let no : ⊥ = omega arith in absurd no
Placed_below (suc n) zero m (x ∷ s) l at = inl (ap (λ d. d.id) at)
Placed_below (suc n) (suc p) m (x ∷ s) l at = inr (Placed_below n p m s (omega arith) at)

pub In-take :
    (n : ℕ) (s : List DumpMetadata) (id : Text)
    → In id (map (λ m. m.id) (take n s))
      ↔ ((p : ℕ) × (m : DumpMetadata) × (p < n) × Placed p m s × (m.id ≡ id))
In-take n s id = (
  In-taken n s,
  λ (p, m, l, at, e). subst (λ i. In i (map (λ x. x.id) (take n s))) e (Placed_below n p m s l at),
)
  where
    In-taken :
        (k : ℕ) (t : List DumpMetadata)
        → In id (map (λ m. m.id) (take k t))
        → (p : ℕ) × (m : DumpMetadata) × (p < k) × Placed p m t × (m.id ≡ id)
    In-taken zero t h = absurd h
    In-taken (suc k) [] h = absurd h
    In-taken (suc k) (x ∷ t) (inl e) = (0, x, omega arith, refl, sym e)
    In-taken (suc k) (x ∷ t) (inr i) =
        let (p, m, l, at, e) = In-taken k t i in (suc p, m, omega arith, at, e)
