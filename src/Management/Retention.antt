-- ===== src/Management/Retention.antt =====
-- What a retention policy selects.
use leafmask.Prelude.{
  ℕ, ◌<◌, Option-cases, some, filter, Text, text_Eq, Bool, true, false, List, [], ◌∷◌, ◌≡◌, refl,
  sym, ap, ◌∙◌, ◌⊎◌, ◌↔◌, inl, inr, arith, In, contains, contains_iff, Bool-cases, if◌then◌else◌,
}
use leafmask.Prelude.Int.{ℤ}
use leafmask.Prelude.Result.{Result, ok, err}
use leafmask.Dump.Metadata.{DumpMetadata}
use leafmask.Management.{
  RetentionPolicy, Clock, insert_text, sort_texts, protected, candidate, select_ids,
  select_for_deletion, is_done, sort_recent, DumpStore, prune, prune_listed, deleted, delete_all,
}
use leafmask.Management.Rules.{Rule, candidate_iff}
use leafmask.Management.Recent.{Ranked}
use leafmask.Management.Ranked.{Placed-iff, In-take}

In-insert_text : (x y : Text) (ys : List Text) → In y (insert_text x ys) ↔ ((y ≡ x) ⊎ In y ys)
In-insert_text x y [] = (λ h. h, λ h. h)
In-insert_text x y (z ∷ ys) = ground (arith, In-insert_text x y ys)

In-sort_texts : (x : Text) (xs : List Text) → In x (sort_texts xs) ↔ In x xs
unfolding sort_texts
In-sort_texts x [] = (λ h. h, λ h. h)
In-sort_texts x (y ∷ ys) =
    let (to, from) = In-insert_text y x (sort_texts ys) in
    let below = In-sort_texts x ys in
    (
      λ h. elim (to h) [ inl e ↦ inl e | inr i ↦ inr (below.0 i) ],
      λ h. elim h [ inl e ↦ from (inl e) | inr i ↦ from (inr (below.1 i)) ],
    )

chosen :
    (a b : Bool) (id x : Text) (rest : List Text)
    → In id (if a then rest else if b then x ∷ rest else rest)
      ↔ (((a ≡ false) × (b ≡ true) × (id ≡ x)) ⊎ In id rest)
chosen a b id x rest = ground arith

not_kept : (kept : List Text) (x : Text) → ¬ In x kept → contains kept x ≡ false
not_kept kept x h = elim (Bool-cases (contains kept x)) [
  | inl e ↦ absurd (h ((contains_iff kept x).0 e))
  | inr e ↦ e
]

same_ids :
    {S : Type 0} (selected : List Text) (r : Result {0} Unit × S) (ids : List Text) (t : S)
    → deleted selected r ≡ (ok ids, t)
    → ok selected ≡ ok ids
same_ids selected (ok u, v) ids t e = ap (λ p. p.0) e
same_ids selected (err x, v) ids t e = cc (ap (λ p. p.0) e)

module _ ⦃clock : Clock⦄ (policy : RetentionPolicy) where
  -- The id of a completed dump that fewer completed ones are ahead of than the policy retains.
  abbrev pub Protected : List DumpMetadata → Text → Type 0
  Protected dumps id =
      (n : ℕ) × (policy.retain_recent ≡ some n)
      × (p : ℕ) × (m : DumpMetadata) × (p < n)
      × Ranked p m dumps
      × (m.id ≡ id)

  protected_iff :
      (dumps : List DumpMetadata) (id : Text) → In id (protected policy dumps) ↔ Protected dumps id
  unfolding protected
  protected_iff dumps id = elim (Option-cases policy.retain_recent) [
    | inl none_set ↦ rw none_set (λ h. absurd h, λ (n, e, p, m, l, at, same). cc)
    | inr (n, set) ↦
        let (to, from) = In-take n (sort_recent (filter (λ m. is_done m.status) dumps)) id in
        rw set (
          λ h. let (p, m, l, at, e) = to h in (n, refl, p, m, l, (Placed-iff dumps p m).0 at, e),
          λ (k, same, p, m, l, at, e).
              let count : n ≡ k = cc in from (p, m, rw count l, (Placed-iff dumps p m).1 at, e),
        )
  ]

module _ ⦃clock : Clock⦄ (policy : RetentionPolicy) (now : ℤ) where
  -- A dump with that id that the loop takes for a candidate.
  abbrev Taken : List DumpMetadata → Text → Type 0
  Taken dumps id = (m : DumpMetadata) × In m dumps × (m.id ≡ id) × (candidate policy now m ≡ true)

  -- A dump with that id that a rule of the policy deletes.
  abbrev pub Applies : List DumpMetadata → Text → Type 0
  Applies dumps id = (m : DumpMetadata) × In m dumps × (m.id ≡ id) × Rule policy now m

  select_ids_iff :
      (kept : List Text) (dumps : List DumpMetadata) (id : Text)
      → In id (select_ids policy now kept dumps) ↔ (¬ In id kept × Taken dumps id)
  unfolding select_ids
  select_ids_iff kept [] id = (λ h. absurd h, λ (_, (m, i, _, _)). i)
  select_ids_iff kept (m ∷ dumps) id =
      let rest = select_ids policy now kept dumps in
      let (to, from) = chosen (contains kept m.id) (candidate policy now m) id m.id rest in
      let below = select_ids_iff kept dumps id in
      (
        λ h. elim (to h) [
          | inl (free, applies, same) ↦ (
            λ k. cc ((contains_iff kept m.id).1 (rw same at k), free),
            (m, inl refl, sym same, applies),
          )
          | inr i ↦ let (free, (x, at, e, c)) = below.0 i in (free, (x, inr at, e, c))
        ],
        λ (free, (x, at, e, c)). elim at [
          | inl same ↦
              let named : m.id ≡ id = ap (λ d. d.id) (sym same) ∙ e in
              from (inl (not_kept kept m.id (λ k. free (rw named at k)), rw same at c, sym named))
          | inr i ↦ from (inr (below.1 (free, (x, i, e, c))))
        ],
      )

  Taken-iff : (dumps : List DumpMetadata) (id : Text) → Taken dumps id ↔ Applies dumps id
  Taken-iff dumps id = (
    λ (m, i, e, c). (m, i, e, (candidate_iff policy now m).0 c),
    λ (m, i, e, r). (m, i, e, (candidate_iff policy now m).1 r),
  )

  -- The ids selected for deletion are exactly those of a dump that a rule of the policy deletes,
  -- less those of the retained dumps: the completed ones with fewer completed dumps ahead of them
  -- than the policy retains, where a dump is ahead that was created later, or at the same time and is
  -- listed before. The rules are: completed, where a number is retained; created longer ago than the
  -- duration; created before the date; failed, with prune_failed; unknown or in progress, with
  -- prune_unsafe.
  pub select_for_deletion_iff :
      (dumps : List DumpMetadata) (id : Text)
      → In id (select_for_deletion dumps policy now)
        ↔ (¬ Protected policy dumps id × Applies dumps id)
  unfolding select_for_deletion
  select_for_deletion_iff dumps id =
      let kept = protected policy dumps in
      let (a, b) = In-sort_texts id (select_ids policy now kept dumps) in
      let (c, d) = select_ids_iff kept dumps id in
      let (f, g) = protected_iff policy dumps id in
      let (j, k) = Taken-iff dumps id in
      (
        λ h. let (free, taken) = c (a h) in (λ r. free (g r), j taken),
        λ (free, applies). b (d (λ r. free (f r), k applies)),
      )

  module _ {S : Type 0} (store : DumpStore S) where
    predicted :
        (r : Result (List DumpMetadata)) (s t : S) (ids : List Text)
        → prune_listed store policy now false r s ≡ (ok ids, t)
        → prune_listed store policy now true r s ≡ (ok ids, s)
    predicted (err x) s t ids e = cc (ap (λ p. p.0) e)
    predicted (ok dumps) s t ids e =
        ap (λ r. (r, s))
          (same_ids (select_for_deletion dumps policy now)
            (delete_all store (select_for_deletion dumps policy now) s) ids t e)

    -- When a pruning succeeds, the dry run from the same state reports the same dumps and changes
    -- nothing.
    pub prune-dry_run :
        (s t : S) (ids : List Text)
        → prune store policy now false s ≡ (ok ids, t)
        → prune store policy now true s ≡ (ok ids, s)
    unfolding prune
    prune-dry_run s t ids e = predicted (store.list_metadata s) s t ids e
