-- ===== src/Restore/Parallel/Complete.antt =====
-- A parallel restore that reports success has restored everything.
use leafmask.Prelude.{
  ℕ, zero, suc, ◌+◌, ◌≤◌, ◌<◌, Text, Option, none, some, List, [], ◌∷◌, ◌≡◌, refl, sym, ap, ◌∙◌,
  length, arith, unwrap_or,
}
use leafmask.Prelude.Result.{ok}
use leafmask.Dump.Reader.{BsonCodec}
use leafmask.Restore.Sink.{IsAccurate}
use leafmask.Restore.Collection.{Restore, RestoreItemResult, restore_item, untouched}
use leafmask.Restore.Run.{RestoreItem, RestoreReport, empty_report, add_results}
use leafmask.Restore.Total.{
  total_inserted, total_skipped, all_failed, add_results-totals, no_failure, some-eq, count_of,
  recorded, item-Ends,
}
use leafmask.Restore.Parallel.{Worker, Shared, item_at, Reach, Finished, collect}
use leafmask.Restore.Parallel.Reported.{all-Reported}

item_at_lt :
    (items : List RestoreItem) (k : ℕ) (item : RestoreItem)
    → item_at items k ≡ some item
    → k < length items
item_at_lt [] k item e = cc
item_at_lt (x ∷ xs) zero item e = omega arith
item_at_lt (x ∷ xs) (suc k) item e = omega (arith, item_at_lt xs k item e)

module _ {S : Type 0} ⦃codec : BsonCodec⦄ (self : Restore S) (dump_id : Text) where
  -- The result accounts for the documents of the item, unless the item failed.
  Accounts : RestoreItem → RestoreItemResult → Type 0
  Accounts item r =
      r.failed ≡ none
      → count_of (self.storage.read_collection_meta dump_id item.db item.coll)
        ≤ r.inserted + r.skipped

  collect-count :
      (results : ℕ → Option RestoreItemResult) (xs : List RestoreItem) (from : ℕ)
      → ((k : ℕ) (item : RestoreItem)
          → item_at xs k ≡ some item
          → (r : RestoreItemResult) × (results (from + k) ≡ some r) × Accounts item r)
      → all_failed (collect results from (length xs)) ≡ []
      → recorded self dump_id xs
        ≤ total_inserted (collect results from (length xs))
          + total_skipped (collect results from (length xs))
  unfolding collect Accounts
  collect-count results [] from all fine = omega arith
  collect-count results (x ∷ xs) from all fine =
      let (r, e, enough) = all 0 x refl in
      let first : from + 0 ≡ from = omega arith in
      let here : unwrap_or (results from) untouched ≡ r = cc (rw first at e) in
      let (fine_here, fine_rest) = no_failure (unwrap_or (results from) untouched).failed _ fine in
      omega (
        arith,
        enough (rw here at fine_here),
        ap (λ q. q.inserted) here,
        ap (λ q. q.skipped) here,
        collect-count results xs (suc from)
            (λ k item f.
              let (q, g, more) = all (suc k) item f in
              let next : from + suc k ≡ suc from + k = omega arith in (q, rw next at g, more))
            fine_rest,
      )

  item-Accounts :
      (accurate : IsAccurate self.sink) (item : RestoreItem) (r : RestoreItemResult) (s t : S)
      → restore_item self dump_id item.db item.coll s ≡ some (r, t)
      → r.fatal ≡ none
      → Accounts item r
  unfolding Accounts
  item-Accounts accurate item r s t ran fatal failed =
      let (q, u, same, enough) = item-Ends self accurate dump_id item s in
      let result : q ≡ r = ap (λ p. p.0) (some-eq (sym same ∙ ran)) in
      rw result at enough (failed, fatal)

  -- With a sink whose reports are accurate, a parallel restore by at least one worker, however its
  -- workers are interleaved, accounts for every document that the dump records for the items, once
  -- all workers have finished, if the report of the results is not an error and lists no failed
  -- collection: the documents inserted and skipped are at least as many.
  pub parallel_complete :
      (accurate : IsAccurate self.sink) (items : List RestoreItem) (jobs : ℕ) (s : S) (m : Shared S)
      (ws : List Worker) (report : RestoreReport)
      → 0 < jobs
      → Reach self dump_id items jobs s m ws
      → Finished ws
      → add_results (collect m.results 0 (length items)) empty_report ≡ ok report
      → report.failed ≡ []
      → recorded self dump_id items ≤ report.inserted + report.skipped
  unfolding Accounts
  parallel_complete accurate items jobs s m ws report some_job reach done e none_failed =
      let (fine, a, b, c) =
        add_results-totals (collect m.results 0 (length items)) empty_report report e in
      omega (arith, a, b, collect-count m.results items 0 accounted (sym c ∙ none_failed))
    where
      accounted :
          (k : ℕ) (item : RestoreItem)
          → item_at items k ≡ some item
          → (r : RestoreItemResult) × (m.results (0 + k) ≡ some r) × Accounts item r
      accounted k item f =
          let fine =
            (add_results-totals (collect m.results 0 (length items)) empty_report report e).0 in
          let (r, g, fatal, (other, s', t', h, ran)) =
            all-Reported self dump_id items reach some_job done fine k
              (item_at_lt items k item f) in
          let same : other ≡ item = some-eq (sym h ∙ f) in
          let zero_k : k ≡ 0 + k = omega arith in
          (r, rw (← zero_k) g, item-Accounts accurate item r s' t' (rw same at ran) fatal)
