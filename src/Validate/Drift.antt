-- ===== src/Validate/Drift.antt =====
-- What `diff_collection` reports.
use mathlib.Core.Path.{subst}
use leafmask.Prelude.{
  Text, Bool, false, Option-cases, none, some, In, at_key, ◌≡◌, ◌↔◌, ◌⊎◌, inl, inr, refl, sym,
}
use leafmask.Bson.{Bson}
use leafmask.Restore.Sink.{IndexSpec}
use leafmask.Validate.{
  CollectionSchema, SchemaDiff, index_named, index_eq, index_diff, recorded_diffs, addition,
  live_diffs, option_eq, validator_diffs, option_diffs, option_keys, diff_collection,
}
use leafmask.Validate.Pieces.{
  differs-In, In-pieces, recorded-pieces, live-pieces, option_piece, option-pieces, In-unless,
  In-parts, In-one,
}
use SchemaDiff.{index_added, index_removed, index_changed, option_changed, validator_changed}

-- When a difference is there.
abbrev pub Drifted :
    (Bson → Bson → Bool) → CollectionSchema → CollectionSchema → SchemaDiff → Type 0
Drifted same r l (index_added n) =
    (i : IndexSpec) × In i l.indexes × (i.name ≡ n) × (index_named i.name r.indexes ≡ none)
Drifted same r l (index_removed n) =
    (i : IndexSpec) × In i r.indexes × (i.name ≡ n) × (index_named i.name l.indexes ≡ none)
Drifted same r l (index_changed n) =
    (i : IndexSpec) × (j : IndexSpec) × In i r.indexes
    × (i.name ≡ n)
    × (index_named i.name l.indexes ≡ some j)
    × (index_eq j i ≡ false)
Drifted same r l validator_changed = option_eq same r.validator l.validator ≡ false
Drifted same r l (option_changed k) =
    option_eq same (at_key r.options k) (at_key l.options k) ≡ false

module _ (same : Bson → Bson → Bool) (r l : CollectionSchema) where
  index_diff-Drifted :
      (i : IndexSpec) (d : SchemaDiff)
      → In i r.indexes
      → In d (index_diff i (index_named i.name l.indexes))
      → Drifted same r l d
  index_diff-Drifted i d m h = elim (Option-cases (index_named i.name l.indexes)) [
    | inl n ↦
        let e = In-one d (index_removed i.name) (subst (λ o. In d (index_diff i o)) n h) in
        subst (Drifted same r l) (sym e) (i, m, refl, n)
    | inr (j, n) ↦
        let (differs, e) =
          (In-unless (index_eq j i) d (index_changed i.name)).0
            (subst (λ o. In d (index_diff i o)) n h) in
        subst (Drifted same r l) (sym e) (i, j, m, refl, n, differs)
  ]

  addition-Drifted :
      (i : IndexSpec) (d : SchemaDiff)
      → In i l.indexes
      → In d (addition i (index_named i.name r.indexes))
      → Drifted same r l d
  addition-Drifted i d m h = elim (Option-cases (index_named i.name r.indexes)) [
    | inl n ↦
        let e = In-one d (index_added i.name) (subst (λ o. In d (addition i o)) n h) in
        subst (Drifted same r l) (sym e) (i, m, refl, n)
    | inr (j, n) ↦ let none_here : ⊥ = subst (λ o. In d (addition i o)) n h in absurd none_here
  ]

  option-Drifted :
      (k : Text) (d : SchemaDiff)
      → In d (option_piece same r.options l.options k)
      → Drifted same r l d
  option-Drifted k d h =
      let differs = option_eq same (at_key r.options k) (at_key l.options k) in
      let (f, e) = (In-unless differs d (option_changed k)).0 h in
      subst (Drifted same r l) (sym e) f

  diff-Drifted : (d : SchemaDiff) → In d (diff_collection same r l) → Drifted same r l d
  unfolding diff_collection validator_diffs
  diff-Drifted d h =
      elim ((In-parts d (recorded_diffs l.indexes r.indexes) (live_diffs r.indexes l.indexes)
          (validator_diffs same r.validator l.validator)
          (option_diffs same r.options l.options (option_keys r.options l.options))).0
        h) [
          | inl m ↦
              let (i, n, q) =
                (In-pieces (λ i. index_diff i (index_named i.name l.indexes)) d r.indexes).0
                  (subst (In d) (recorded-pieces l.indexes r.indexes) m) in
              index_diff-Drifted i d n q
          | inr (inl m) ↦
              let (i, n, q) =
                (In-pieces (λ i. addition i (index_named i.name r.indexes)) d l.indexes).0
                  (subst (In d) (live-pieces r.indexes l.indexes) m) in
              addition-Drifted i d n q
          | inr (inr (inl m)) ↦
              let (f, e) =
                (In-unless (option_eq same r.validator l.validator) d validator_changed).0 m in
              subst (Drifted same r l) (sym e) f
          | inr (inr (inr m)) ↦
              let (k, n, q) =
                (In-pieces (option_piece same r.options l.options) d
                    (option_keys r.options l.options)).0
                  (subst (In d)
                    (option-pieces same r.options l.options (option_keys r.options l.options)) m) in
              option-Drifted k d q
        ]

  added-In :
      (i : IndexSpec)
      → In i l.indexes
      → index_named i.name r.indexes ≡ none
      → In (index_added i.name) (live_diffs r.indexes l.indexes)
  added-In i m h = subst (In (index_added i.name)) (sym (live-pieces r.indexes l.indexes)) (
      (In-pieces (λ i. addition i (index_named i.name r.indexes)) (index_added i.name) l.indexes).1
        (i, m, rw h (inl refl)))

  recorded-In :
      (i : IndexSpec) (d : SchemaDiff)
      → In i r.indexes
      → In d (index_diff i (index_named i.name l.indexes))
      → In d (recorded_diffs l.indexes r.indexes)
  recorded-In i d m q =
      subst (In d) (sym (recorded-pieces l.indexes r.indexes))
        ((In-pieces (λ i. index_diff i (index_named i.name l.indexes)) d r.indexes).1 (i, m, q))

  option-In :
      (k : Text)
      → option_eq same (at_key r.options k) (at_key l.options k) ≡ false
      → In
          (option_changed k)
          (option_diffs same r.options l.options (option_keys r.options l.options))
  option-In k h =
      subst (In (option_changed k))
        (sym (option-pieces same r.options l.options (option_keys r.options l.options)))
        ((In-pieces (option_piece same r.options l.options) (option_changed k)
            (option_keys r.options l.options)).1
          (k, differs-In same r.options l.options k h, rw h (inl refl)))

  Drifted-part :
      (d : SchemaDiff)
      → Drifted same r l d
      → In d (recorded_diffs l.indexes r.indexes)
        ⊎ (In d (live_diffs r.indexes l.indexes)
            ⊎ (In d (validator_diffs same r.validator l.validator)
                ⊎ In d (option_diffs same r.options l.options (option_keys r.options l.options))))
  unfolding validator_diffs
  Drifted-part (index_added n) (i, m, e, h) =
      inr
        (inl (subst (λ t. In (index_added t) (live_diffs r.indexes l.indexes)) e (added-In i m h)))
  Drifted-part (index_removed n) (i, m, e, h) = inl (
      subst (λ t. In (index_removed t) (recorded_diffs l.indexes r.indexes)) e
        (recorded-In i (index_removed i.name) m (rw h (inl refl))))
  Drifted-part (index_changed n) (i, j, m, e, h, c) = inl (
      subst (λ t. In (index_changed t) (recorded_diffs l.indexes r.indexes)) e
        (recorded-In i (index_changed i.name) m (rw h (rw c (inl refl)))))
  Drifted-part validator_changed h = inr (inr (inl (rw h (inl refl))))
  Drifted-part (option_changed k) h = inr (inr (inr (option-In k h)))

  -- What the diff of a recorded and a live structure reports is exactly what differs: an index whose
  -- name only one side has, a recorded index whose live namesake has another definition, the validator,
  -- and each option that only one side has or whose values differ.
  pub diff_collection_iff : (d : SchemaDiff) → In d (diff_collection same r l) ↔ Drifted same r l d
  unfolding diff_collection
  diff_collection_iff d = (
    diff-Drifted d,
    λ h.
        (In-parts d (recorded_diffs l.indexes r.indexes) (live_diffs r.indexes l.indexes)
            (validator_diffs same r.validator l.validator)
            (option_diffs same r.options l.options (option_keys r.options l.options))).1
          (Drifted-part d h),
  )
