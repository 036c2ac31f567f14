-- ===== src/Subset/Grouped.antt =====
-- The grouping by collection that `compute` returns.
use leafmask.Prelude.{
  ℕ, Text, text_eq, text_eq_iff, Option, none, some, List, [], ◌∷◌, ◌++◌, ◌≡◌, refl, sym, ap, ◌∙◌,
  ◌↔◌, ◌⊎◌, inl, inr, In, In-append, In-append_left, In-append_right, Bool-cases,
}
use leafmask.Prelude.Result.{Result, ok, err}
use leafmask.Bson.{Document, BsonApi}
use leafmask.Subset.Engine.{
  DocumentSource, Node, SubsetEngine, traverse, push_to, group, compute, result_map,
}
use leafmask.Subset.Correct.{Required}
use leafmask.Subset.Exact.{Distinct, traverse-closure}

-- The map holds v under c.
abbrev pub Holds : {A : Type 0} → List (Text × List A) → Text → A → Type 0
Holds {A} m c v = (vs : List A) × In (c, vs) m × In v vs

module _ {A : Type 0} where
  Holds-cons :
      (m : List (Text × List A)) (x : Text × List A) (c : Text) (v : A)
      → Holds m c v
      → Holds (x ∷ m) c v
  Holds-cons m x c v (vs, i, j) = (vs, inr i, j)

  push_to-adds : (c : Text) (v : A) (m : List (Text × List A)) → Holds (push_to c v m) c v
  unfolding push_to
  push_to-adds c v [] = (v ∷ [], inl refl, inl refl)
  push_to-adds c v ((d, vs) ∷ m) =
      let rest = push_to-adds c v m in
      elim (Bool-cases (text_eq d c)) [
        | inl e ↦ rw e (
          vs ++ v ∷ [],
          inl (ap (λ x. (x, vs ++ v ∷ [])) (sym ((text_eq_iff d c).0 e))),
          In-append_right v vs (v ∷ []) (inl refl),
        )
        | inr e ↦ rw e (Holds-cons (push_to c v m) (d, vs) c v rest)
      ]

  push_to-keeps :
      (c : Text) (v : A) (m : List (Text × List A)) (d : Text) (w : A)
      → Holds m d w
      → Holds (push_to c v m) d w
  unfolding push_to
  push_to-keeps c v [] d w (vs, i, j) = absurd i
  push_to-keeps c v ((b, us) ∷ m) d w (vs, i, j) =
      let rest = push_to-keeps c v m d w in
      elim (Bool-cases (text_eq b c)) [
        | inl e ↦ rw e (elim i [
          | inl here ↦
              let at : d ≡ b = ap (λ p. p.0) here in
              let same : vs ≡ us = ap (λ p. p.1) here in
              (
                us ++ v ∷ [],
                inl (ap (λ x. (x, us ++ v ∷ [])) at),
                In-append_left w us (v ∷ []) (rw same at j),
              )
          | inr there ↦ (vs, inr there, j)
        ])
        | inr e ↦ rw e (elim i [
          | inl here ↦ (vs, inl here, j)
          | inr there ↦ Holds-cons (push_to c v m) (b, us) d w (rest (vs, there, j))
        ])
      ]

  push_to-Holds :
      (c : Text) (v : A) (m : List (Text × List A)) (d : Text) (w : A)
      → Holds (push_to c v m) d w
      → ((d ≡ c) × (w ≡ v)) ⊎ Holds m d w
  unfolding push_to
  push_to-Holds c v [] d w (vs, i, j) = elim i [
    | inr nothing ↦ absurd nothing
    | inl here ↦
        let same : vs ≡ v ∷ [] = ap (λ p. p.1) here in
        elim (rw same at j) [
          | inl last ↦ inl (ap (λ p. p.0) here, last)
          | inr nothing ↦ absurd nothing
        ]
  ]
  push_to-Holds c v ((b, us) ∷ m) d w h =
      let rest = push_to-Holds c v m d w in
      elim (Bool-cases (text_eq b c)) [
        | inl e ↦ held_here b us m c v d w ((text_eq_iff b c).0 e) (rw e at h)
        | inr e ↦ later (push_to c v m) m b us c v d w rest (rw e at h)
      ]
    where
      held_here :
          (b : Text) (us : List A) (m : List (Text × List A)) (c : Text) (v : A) (d : Text) (w : A)
          → b ≡ c
          → Holds ((b, us ++ v ∷ []) ∷ m) d w
          → ((d ≡ c) × (w ≡ v)) ⊎ Holds ((b, us) ∷ m) d w
      held_here b us m c v d w e (vs, inr i, j) = inr (vs, inr i, j)
      held_here b us m c v d w e (vs, inl i, j) =
          let same : vs ≡ us ++ v ∷ [] = ap (λ p. p.1) i in
          let at : d ≡ b = ap (λ p. p.0) i in
          elim ((In-append w us (v ∷ [])).0 (rw same at j)) [
            | inl old ↦ inr (us, inl (ap (λ x. (x, us)) at), old)
            | inr new ↦ elim new [ inl last ↦ inl (at ∙ e, last) | inr nothing ↦ absurd nothing ]
          ]

      later :
          (n m : List (Text × List A)) (b : Text) (us : List A) (c : Text) (v : A) (d : Text)
          (w : A)
          → (Holds n d w → ((d ≡ c) × (w ≡ v)) ⊎ Holds m d w)
          → Holds ((b, us) ∷ n) d w
          → ((d ≡ c) × (w ≡ v)) ⊎ Holds ((b, us) ∷ m) d w
      later n m b us c v d w rest (vs, inl i, j) = inr (vs, inl i, j)
      later n m b us c v d w rest (vs, inr i, j) = elim (rest (vs, i, j)) [
        | inl same ↦ inl same
        | inr h ↦ inr (Holds-cons m (b, us) d w h)
      ]

group-Holds :
    (ns : List Node) (m : List (Text × List Document)) (c : Text) (d : Document)
    → Holds (group ns m) c d
    → In (c, d) ns ⊎ Holds m c d
unfolding group
group-Holds [] m c d h = inr h
group-Holds ((b, e) ∷ ns) m c d h = elim (group-Holds ns (push_to b e m) c d h) [
  | inl i ↦ inl (inr i)
  | inr g ↦ elim (push_to-Holds b e m c d g) [
    | inl (same, what) ↦ inl (inl (ap (λ x. (x, d)) same ∙ ap (λ x. (b, x)) what))
    | inr old ↦ inr old
  ]
]

group-keeps :
    (ns : List Node) (m : List (Text × List Document)) (c : Text) (d : Document)
    → Holds m c d
    → Holds (group ns m) c d
unfolding group
group-keeps [] m c d h = h
group-keeps ((b, e) ∷ ns) m c d h = group-keeps ns (push_to b e m) c d (push_to-keeps b e m c d h)

group-In :
    (ns : List Node) (m : List (Text × List Document)) (c : Text) (d : Document)
    → In (c, d) ns
    → Holds (group ns m) c d
unfolding group
group-In [] m c d i = absurd i
group-In ((b, e) ∷ ns) m c d (inr i) = group-In ns (push_to b e m) c d i
group-In ((b, e) ∷ ns) m c d (inl same) =
    let at : c ≡ b = ap (λ p. p.0) same in
    let what : d ≡ e = ap (λ p. p.1) same in
    group-keeps ns (push_to b e m) c d (rw (at, what) (push_to-adds b e m))

Holds-none : {A : Type 0} (c : Text) (v : A) → ¬ Holds [] c v
Holds-none c v (vs, i, j) = i

result_map-ok :
    {A B : Type 0} (f : A → B) (r : Option (Result A)) (b : B)
    → result_map f r ≡ some (ok b)
    → (a : A) × (r ≡ some (ok a)) × (f a ≡ b)
result_map-ok f none b e = cc
result_map-ok f (some (ok a)) b e = (a, refl, let same : f a ≡ b = cc in same)
result_map-ok f (some (err x)) b e = cc

module _ ⦃api : BsonApi⦄ where
  -- If the keys tell the required documents apart, a computed subset that is no error holds a
  -- document under a collection exactly when it is required there: selected by a condition, or
  -- read, over any number of steps, for a declared reference of a required document.
  pub compute-exact :
      (source : DocumentSource) (engine : SubsetEngine) (fuel : ℕ)
      (subset : List (Text × List Document))
      → Distinct source engine
      → compute source engine fuel ≡ some (ok subset)
      → (c : Text) (d : Document) → Holds subset c d ↔ Required source engine (c, d)
  unfolding compute
  compute-exact source engine fuel subset distinct e c d =
      let (t, ended, same) =
        result_map-ok (λ s. group s.admitted []) (traverse source engine fuel) subset e in
      let (to, from) = traverse-closure source engine distinct fuel t ended (c, d) in
      (
        λ h. elim (group-Holds t.admitted [] c d (rw (← same) at h)) [
          | inl i ↦ to i
          | inr nothing ↦ absurd (Holds-none c d nothing)
        ],
        λ r. rw (← same) (group-In t.admitted [] c d (from r)),
      )
