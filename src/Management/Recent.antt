-- ===== src/Management/Recent.antt =====
-- The place of a dump among the completed ones, most recent first.
use mathlib.Core.Path.{subst}
use leafmask.Prelude.{
  ℕ, zero, suc, ◌+◌, Bool, true, false, List, [], ◌∷◌, ◌++◌, filter, All, ◌≡◌, ◌↔◌, ◌⊎◌, inl, inr,
  refl, sym, arith, Bool-cases, if◌then◌else◌,
}
use leafmask.Prelude.Int.{ltb_ℤ, leb_ℤ}
use leafmask.Dump.Metadata.{DumpStatus, done, failed, in_progress, unknown, DumpMetadata}
use leafmask.Management.{Clock, created_at, is_done, insert_recent, sort_recent}

-- The dump at a place of a list.
abbrev pub Placed : ℕ → DumpMetadata → List DumpMetadata → Type 0
Placed p m [] = ⊥
Placed zero m (x ∷ xs) = m ≡ x
Placed (suc p) m (x ∷ xs) = Placed p m xs

abbrev pub has_ended : DumpStatus → Bool
has_ended done = true
has_ended _ = false

-- How many completed dumps pass a test.
abbrev pub rivals : (DumpMetadata → Bool) → List DumpMetadata → ℕ
rivals f [] = 0
rivals f (x ∷ xs) =
    let rest = rivals f xs in if has_ended x.status then (if f x then suc rest else rest) else rest

module _ ⦃clock : Clock⦄ where
  abbrev pub not_before : DumpMetadata → DumpMetadata → Bool
  not_before m x = leb_ℤ (created_at m) (created_at x)

  abbrev pub after : DumpMetadata → DumpMetadata → Bool
  after m x = ltb_ℤ (created_at m) (created_at x)

  -- A completed dump with p completed ones ahead of it: those created later, and those created at
  -- the same time that are listed before it.
  abbrev pub Ranked : ℕ → DumpMetadata → List DumpMetadata → Type 0
  Ranked p m dumps =
      (front : List DumpMetadata) × (back : List DumpMetadata) × (dumps ≡ front ++ (m ∷ back))
      × (m.status ≡ done)
      × (p ≡ rivals (not_before m) front + rivals (after m) back)

  abbrev pub tally : (DumpMetadata → Bool) → List DumpMetadata → ℕ
  tally f [] = 0
  tally f (x ∷ xs) = let rest = tally f xs in if f x then suc rest else rest

  tally-insert :
      (f : DumpMetadata → Bool) (x : DumpMetadata) (s : List DumpMetadata)
      → tally f (insert_recent x s) ≡ tally f (x ∷ s)
  tally-insert f x [] = refl
  tally-insert f x (y ∷ s) = ground (arith, tally-insert f x s)

  pub tally-sort :
      (f : DumpMetadata → Bool) (s : List DumpMetadata) → tally f (sort_recent s) ≡ tally f s
  unfolding sort_recent
  tally-sort f [] = refl
  tally-sort f (x ∷ s) = ground (arith, tally-insert f x (sort_recent s), tally-sort f s)

  pub has_ended-eq : (s : DumpStatus) → is_done s ≡ has_ended s
  has_ended-eq done = refl
  has_ended-eq failed = refl
  has_ended-eq in_progress = refl
  has_ended-eq unknown = refl

  abbrev pub completed_of : List DumpMetadata → List DumpMetadata
  completed_of dumps = filter (λ m. is_done m.status) dumps

  pub tally-rivals :
      (f : DumpMetadata → Bool) (dumps : List DumpMetadata)
      → tally f (completed_of dumps) ≡ rivals f dumps
  tally-rivals f [] = refl
  tally-rivals f (x ∷ xs) = ground (arith, has_ended-eq x.status, tally-rivals f xs)

  abbrev Upto : DumpMetadata → List DumpMetadata → Type 0
  Upto x s = All (λ y. leb_ℤ (created_at y) (created_at x) ≡ true) s

  abbrev pub Descends : List DumpMetadata → Type 0
  Descends [] = Unit
  Descends (x ∷ s) = Upto x s × Descends s

  leb_trans :
      (a b c : DumpMetadata) → not_before a b ≡ true → not_before b c ≡ true → not_before a c ≡ true
  leb_trans a b c h k = ground arith

  leb_total : (a b : DumpMetadata) → not_before a b ≡ false → not_before b a ≡ true
  leb_total a b h = ground arith

  Upto-trans :
      (x y : DumpMetadata) (s : List DumpMetadata) → not_before y x ≡ true → Upto y s → Upto x s
  Upto-trans x y [] h u = tt
  Upto-trans x y (z ∷ s) h (k, u) = (leb_trans z y x k h, Upto-trans x y s h u)

  Upto-insert :
      (x y : DumpMetadata) (s : List DumpMetadata)
      → not_before x y ≡ true
      → Upto y s
      → Upto y (insert_recent x s)
  Upto-insert x y [] h u = (h, tt)
  Upto-insert x y (z ∷ s) h (k, u) = elim (Bool-cases (not_before z x)) [
    | inl e ↦ rw e (h, (k, u))
    | inr e ↦ rw e (k, Upto-insert x y s h u)
  ]

  Descends-insert :
      (x : DumpMetadata) (s : List DumpMetadata) → Descends s → Descends (insert_recent x s)
  Descends-insert x [] d = (tt, tt)
  Descends-insert x (y ∷ s) (u, d) = elim (Bool-cases (not_before y x)) [
    | inl e ↦ rw e ((e, Upto-trans x y s e u), (u, d))
    | inr e ↦ rw e (Upto-insert x y s (leb_total y x e) u, Descends-insert x s d)
  ]

  pub Descends-sort : (s : List DumpMetadata) → Descends (sort_recent s)
  unfolding sort_recent
  Descends-sort [] = tt
  Descends-sort (x ∷ s) = Descends-insert x (sort_recent s) (Descends-sort s)

  none_after : (x : DumpMetadata) (s : List DumpMetadata) → Upto x s → tally (after x) s ≡ 0
  none_after x [] u = refl
  none_after x (y ∷ s) (h, u) = ground (arith, none_after x s u)

  Upto-Placed :
      (p : ℕ) (m x : DumpMetadata) (s : List DumpMetadata)
      → Upto x s
      → Placed p m s
      → not_before m x ≡ true
  Upto-Placed p m x [] u h = absurd h
  Upto-Placed zero m x (y ∷ s) (k, u) h = rw h k
  Upto-Placed (suc p) m x (y ∷ s) (k, u) h = Upto-Placed p m x s u h

  -- The dumps behind an inserted one keep their place, the others move by one.
  abbrev pub ahead : DumpMetadata → DumpMetadata → ℕ
  ahead m x = if not_before m x then 1 else 0

  abbrev pub Inserted : ℕ → DumpMetadata → DumpMetadata → List DumpMetadata → Type 0
  Inserted p m x s =
      ((m ≡ x) × (p ≡ tally (after x) s)) ⊎ ((q : ℕ) × Placed q m s × (p ≡ ahead m x + q))

  one_ahead : (m x : DumpMetadata) → not_before m x ≡ true → ahead m x ≡ 1
  one_ahead m x h = rw h refl

  none_ahead : (m x : DumpMetadata) → not_before m x ≡ false → ahead m x ≡ 0
  none_ahead m x h = rw h refl

  after-of : (x y : DumpMetadata) → not_before y x ≡ false → after x y ≡ true
  after-of x y h = ground arith

  Placed-first :
      (p : ℕ) (m x : DumpMetadata) (s : List DumpMetadata)
      → Upto x s
      → Placed p m (x ∷ s) ↔ Inserted p m x s
  Placed-first zero m x s u = (
    λ h. inl (h, sym (none_after x s u)),
    λ h. elim h [
      | inl (e, r) ↦ e
      | inr (q, b, r) ↦
          let one = one_ahead m x (Upto-Placed q m x s u b) in let no : ⊥ = omega arith in absurd no
    ],
  )
  Placed-first (suc p) m x s u = (
    λ h. let one = one_ahead m x (Upto-Placed p m x s u h) in inr (p, h, omega arith),
    λ h. elim h [
      | inl (e, r) ↦ let zero_after = none_after x s u in let no : ⊥ = omega arith in absurd no
      | inr (q, b, r) ↦
          let one = one_ahead m x (Upto-Placed q m x s u b) in
          let same : q ≡ p = omega arith in subst (λ k. Placed k m s) same b
    ],
  )

  -- Behind a dump y that was created after x.
  Placed-behind :
      (p : ℕ) (m x y : DumpMetadata) (s t : List DumpMetadata)
      → not_before y x ≡ false
      → ((k : ℕ) → Placed k m t ↔ Inserted k m x s)
      → Placed p m (y ∷ t) ↔ Inserted p m x (y ∷ s)
  Placed-behind zero m x y s t f below = (
    λ h. let level = none_ahead m x (rw h f) in inr (0, h, omega arith),
    λ h. elim h [
      | inl (e, r) ↦
          let more : tally (after x) (y ∷ s) ≡ suc (tally (after x) s) = rw (after-of x y f) refl in
          let no : ⊥ = omega (arith, more, r) in absurd no
      | inr (zero, b, r) ↦ b
      | inr (suc q, b, r) ↦ let no : ⊥ = omega arith in absurd no
    ],
  )
  Placed-behind (suc p) m x y s t f below =
      let more : tally (after x) (y ∷ s) ≡ suc (tally (after x) s) = rw (after-of x y f) refl in
      (
        λ h. elim ((below p).0 h) [
          | inl (e, r) ↦ inl (e, omega (arith, more, r))
          | inr (q, b, r) ↦ inr (suc q, b, omega arith)
        ],
        λ h. elim h [
          | inl (e, r) ↦ (below p).1 (inl (e, omega (arith, more, r)))
          | inr (zero, b, r) ↦
              let level = none_ahead m x (rw b f) in let no : ⊥ = omega arith in absurd no
          | inr (suc q, b, r) ↦ (below p).1 (inr (q, b, omega arith))
        ],
      )

  pub Placed-insert :
      (p : ℕ) (m x : DumpMetadata) (s : List DumpMetadata)
      → Descends s
      → Placed p m (insert_recent x s) ↔ Inserted p m x s
  Placed-insert p m x [] d = Placed-first p m x [] tt
  Placed-insert p m x (y ∷ s) (u, d) = elim (Bool-cases (not_before y x)) [
    | inl e ↦ rw e (Placed-first p m x (y ∷ s) (e, Upto-trans x y s e u))
    | inr e ↦ rw e (Placed-behind p m x y s (insert_recent x s) e (λ k. Placed-insert k m x s d))
  ]
