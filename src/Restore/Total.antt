-- ===== src/Restore/Total.antt =====
-- A restore of several collections.
use mathlib.Core.List.{append-nil, append_assoc}
use leafmask.Prelude.{
  ℕ, ◌+◌, ◌≤◌, Text, codes, Option, none, some, List, [], ◌∷◌, ◌++◌, ◌≡◌, refl, sym, ap, ◌∙◌, inl,
  inr, arith, Option-cases,
}
use leafmask.Prelude.Result.{Result, ok, err, Result-cases}
use leafmask.Dump.Reader.{BsonCodec}
use leafmask.Restore.Sink.{IsAccurate}
use leafmask.Restore.Collection.{
  Restore, untouched, RestoreItemResult, CollectionMeta, restore_item,
}
use leafmask.Restore.Complete.{ItemEnds, Clean, restore_item_complete}
use leafmask.Restore.Scripts.{ScriptSpec, ScriptRunner, run_stage}
use leafmask.Dump.Metadata.{DumpMetadata}
use leafmask.Restore.Run.{
  RestoreItem, RestoreReport, empty_report, add_results, then_item, with_item, restore_items,
  failure_names, items_of_dump, after_items, after_results, after_indexes, after_post, after_pre,
  run_sequential,
}

-- What the results count together.
abbrev pub total_inserted : List RestoreItemResult → ℕ
total_inserted [] = 0
total_inserted (r ∷ rs) = r.inserted + total_inserted rs

abbrev pub total_skipped : List RestoreItemResult → ℕ
total_skipped [] = 0
total_skipped (r ∷ rs) = r.skipped + total_skipped rs

abbrev pub NoFatal : List RestoreItemResult → Type 0
NoFatal [] = Unit
NoFatal (r ∷ rs) = (r.fatal ≡ none) × NoFatal rs

abbrev pub all_failed : List RestoreItemResult → List Text
all_failed [] = []
all_failed (r ∷ rs) = failure_names r.failed ++ all_failed rs

pub add_results-totals :
    (rs : List RestoreItemResult) (report final : RestoreReport)
    → add_results rs report ≡ ok final
    → NoFatal rs
      × (final.inserted ≡ report.inserted + total_inserted rs)
      × (final.skipped ≡ report.skipped + total_skipped rs)
      × (final.failed ≡ report.failed ++ all_failed rs)
unfolding add_results
add_results-totals [] report final e =
    let same : report ≡ final = cc in
    rw (← same) (tt, omega arith, omega arith, sym (append-nil report.failed))
add_results-totals (r ∷ rs) report final e = elim (Option-cases r.fatal) [
  | inr (x, f) ↦ cc (rw (f, add_results) at e)
  | inl f ↦
      let next : RestoreReport = record {
        inserted = report.inserted + r.inserted;
        skipped = report.skipped + r.skipped;
        indexes_created = report.indexes_created + r.indexes_created;
        failed = report.failed ++ failure_names r.failed;
      } in
      let (fine, a, b, c) = add_results-totals rs next final (simp (f, add_results) at e) in
      (
        (f, fine),
        omega (arith, a),
        omega (arith, b),
        c ∙ append_assoc report.failed (failure_names r.failed) (all_failed rs),
      )
]

pub some-eq : {A : Type 0} {a b : A} → some a ≡ some b → a ≡ b
some-eq e = cc

pub no_failure :
    (o : Option Text) (names : List Text)
    → failure_names o ++ names ≡ []
    → (o ≡ none) × (names ≡ [])
no_failure none names e = (refl, e)
no_failure (some n) names e = cc

abbrev pub count_of : Result CollectionMeta → ℕ
count_of (ok cmeta) = cmeta.document_count
count_of (err e) = 0

module _ {S : Type 0} ⦃codec : BsonCodec⦄ (self : Restore S) where
  -- How many documents the dump records for the items.
  abbrev pub recorded : Text → List RestoreItem → ℕ
  recorded dump_id [] = 0
  recorded dump_id (i ∷ items) =
      count_of (self.storage.read_collection_meta dump_id i.db i.coll) + recorded dump_id items

  module _ (accurate : IsAccurate self.sink) where
    pub item-Ends :
        (dump_id : Text) (i : RestoreItem) (s : S)
        → ItemEnds self accurate
            (count_of (self.storage.read_collection_meta dump_id i.db i.coll))
            (restore_item self dump_id i.db i.coll s)
    unfolding restore_item
    item-Ends dump_id i s =
        elim (Result-cases (self.storage.read_collection_meta dump_id i.db i.coll)) [
          | inl (cmeta, e) ↦
              let (r, t, same, enough) =
                restore_item_complete self accurate dump_id i.db i.coll cmeta s e in
              (r, t, same, λ c. omega (arith, enough c, ap count_of e))
          | inr (x, e) ↦ (
            record untouched { fatal = some x },
            s,
            rw (e, restore_item),
            λ c. omega (arith, ap count_of e),
          )
        ]

    restore_items-count :
        (dump_id : Text) (items : List RestoreItem) (s t : S) (rs : List RestoreItemResult)
        → restore_items self dump_id items s ≡ some (rs, t)
        → NoFatal rs
        → all_failed rs ≡ []
        → recorded dump_id items ≤ total_inserted rs + total_skipped rs
    unfolding restore_items
    restore_items-count dump_id [] s t rs e fine none_failed = omega arith
    restore_items-count dump_id (i ∷ items) s t rs e fine none_failed =
        let (r, u, same, enough) = item-Ends dump_id i s in
        let rest : then_item self (restore_items self dump_id items) (some (r, u)) ≡ some (rs, t) =
          rw (same, restore_items) at e in
        later i r u enough (restore_items-count dump_id items u)
          (restore_items self dump_id items u) refl rest
      where
        later :
            (i : RestoreItem) (r : RestoreItemResult) (u : S)
            → (Clean self accurate r
                → count_of (self.storage.read_collection_meta dump_id i.db i.coll)
                  ≤ r.inserted + r.skipped)
            → ((t' : S) (rs' : List RestoreItemResult)
                → restore_items self dump_id items u ≡ some (rs', t')
                → NoFatal rs'
                → all_failed rs' ≡ []
                → recorded dump_id items ≤ total_inserted rs' + total_skipped rs')
            → (m : Option (List RestoreItemResult × S)) → restore_items self dump_id items u ≡ m
            → with_item self r m ≡ some (rs, t)
            → recorded dump_id (i ∷ items) ≤ total_inserted rs + total_skipped rs
        later i r u enough ih none f h = cc
        later i r u enough ih (some (rs', t')) f h =
            let all : r ∷ rs' ≡ rs = cc in
            let (not_fatal, fine') = rw (← all) at fine in
            let (not_failed, none_failed') =
              no_failure r.failed (all_failed rs') (rw (← all) at none_failed) in
            rw (← all)
              (omega (arith, enough (not_failed, not_fatal), ih t' rs' f fine' none_failed'))

    restore_items-ends :
        (dump_id : Text) (items : List RestoreItem) (s : S)
        → (r : List RestoreItemResult × S) × (restore_items self dump_id items s ≡ some r)
    unfolding restore_items
    restore_items-ends dump_id [] s = (([], s), refl)
    restore_items-ends dump_id (i ∷ items) s =
        let (r, u, same, _) = item-Ends dump_id i s in
        let ((rs, t), e) = restore_items-ends dump_id items u in
        ((r ∷ rs, t), rw (same, restore_items) (rw e))

    module _ (scripts : List (Text × List ScriptSpec)) (runner : ScriptRunner S) where
      after_indexes-kept :
          (report final : RestoreReport) (m : Result ℕ × S) (t : S)
          → after_indexes self scripts runner report m ≡ (ok final, t)
          → (final.inserted ≡ report.inserted)
            × (final.skipped ≡ report.skipped)
            × (final.failed ≡ report.failed)
      after_indexes-kept report final (err e, s) t h = cc (ap (λ p. p.0) h)
      after_indexes-kept report final (ok n, s) t h =
          posted (record report { indexes_created = n })
            (run_stage runner scripts (codes "post-data") s) h
        where
          posted :
              (r : RestoreReport) (m : Result {0} Unit × S)
              → after_post self scripts runner r m ≡ (ok final, t)
              → (final.inserted ≡ r.inserted)
                × (final.skipped ≡ r.skipped)
                × (final.failed ≡ r.failed)
          posted r (err e, s) h = cc (ap (λ p. p.0) h)
          posted r (ok u, s) h =
              let both : ok r ≡ ok final = ap (λ p. p.0) h in
              let same : r ≡ final = cc in rw (← same) (refl, refl, refl)

      after_results_complete :
          (dump_id : Text) (items : List RestoreItem) (s u t : S) (rs : List RestoreItemResult)
          (report : RestoreReport)
          → restore_items self dump_id items s ≡ some (rs, u)
          → after_results self scripts runner dump_id items (add_results rs empty_report) u
            ≡ (ok report, t)
          → report.failed ≡ []
          → recorded dump_id items ≤ report.inserted + report.skipped
      after_results_complete dump_id items s u t rs report e h clean =
          elim (Result-cases (add_results rs empty_report)) [
            | inr (x, f) ↦ cc (ap (λ p. p.0) (rw f at h))
            | inl (r0, f) ↦
                let (a, b, c) = after_indexes-kept r0 report _ t (rw f at h) in
                let (fine, i, k, l) = add_results-totals rs empty_report r0 f in
                omega (
                  arith,
                  a,
                  b,
                  i,
                  k,
                  restore_items-count dump_id items s u rs e fine (sym l ∙ sym c ∙ clean),
                )
          ]

      -- With a sink whose reports are accurate, a restore with one job that succeeds and names no
      -- failed collection has inserted or skipped together at least as many documents as the dump
      -- records for the collections that the options select.
      pub run_sequential_complete :
          (dump : DumpMetadata) (s t : S) (report : RestoreReport)
          → run_sequential self scripts runner (ok dump) s ≡ some (ok report, t)
          → report.failed ≡ []
          → recorded dump.id (items_of_dump self.options dump.databases)
            ≤ report.inserted + report.skipped
      unfolding run_sequential
      run_sequential_complete dump s t report e clean =
          pre (run_stage runner scripts (codes "pre-data") s) e
        where
          items :
              (m : Option (List RestoreItemResult × S)) (u : S)
              → restore_items self dump.id (items_of_dump self.options dump.databases) u ≡ m
              → after_items self scripts runner dump.id
                  (items_of_dump self.options dump.databases)
                  m
                ≡ some (ok report, t)
              → recorded dump.id (items_of_dump self.options dump.databases)
                ≤ report.inserted + report.skipped
          items none u f h = cc
          items (some (rs, v)) u f h =
              after_results_complete dump.id (items_of_dump self.options dump.databases) u v t rs
                report f (some-eq h) clean

          pre :
              (m : Result {0} Unit × S)
              → after_pre self scripts runner dump.id (items_of_dump self.options dump.databases) m
                ≡ some (ok report, t)
              → recorded dump.id (items_of_dump self.options dump.databases)
                ≤ report.inserted + report.skipped
          pre (err x, u) h = cc (ap (λ p. p.0) (some-eq h))
          pre (ok x, u) h =
              items (restore_items self dump.id (items_of_dump self.options dump.databases) u) u
                refl h

      -- With a sink whose reports are accurate, a restore with one job ends, with a report or with
      -- an error.
      pub run_sequential_ends :
          (resolved : Result DumpMetadata) (s : S)
          → (r : Result RestoreReport × S) × (run_sequential self scripts runner resolved s
              ≡ some r)
      unfolding run_sequential
      run_sequential_ends (err x) s = ((err x, s), refl)
      run_sequential_ends (ok dump) s = pre (run_stage runner scripts (codes "pre-data") s)
        where
          pre :
              (m : Result {0} Unit × S)
              → (r : Result RestoreReport × S) × (after_pre self scripts runner dump.id
                    (items_of_dump self.options dump.databases)
                    m
                  ≡ some r)
          pre (err x, u) = ((err x, u), refl)
          pre (ok x, u) =
              let ((rs, v), e) =
                restore_items-ends dump.id (items_of_dump self.options dump.databases) u in
              (
                after_results self scripts runner dump.id
                    (items_of_dump self.options dump.databases) (add_results rs empty_report) v,
                rw e,
              )
