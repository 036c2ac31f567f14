-- ===== src/Restore/Accounts.antt =====
-- `insert_batch` ends and accounts for every document of the batch.
use leafmask.Prelude.{
  ℕ, zero, suc, ◌+◌, ◌-◌, ◌≤◌, Text, Bool, true, false, Option, some, List, [], ◌∷◌, ◌≡◌, refl, ◌∙◌,
  inl, inr, arith, length, drop, Bool-cases,
}
use leafmask.Prelude.Result.{Result, ok, err}
use leafmask.Bson.{Document}
use leafmask.Restore.Exclusions.{InsertError, ErrorExclusions, is_excluded}
use leafmask.Restore.Sink.{BatchInsert, MongoSink, Account, IsAccurate}
use leafmask.Restore.Batch.{
  InsertOutcome, Insertion, inserts, tally, after_tally, after_failures, after_insert, insert_from,
  insert_batch,
}

length-drop : {A : Type 0} (n : ℕ) (xs : List A) → length (drop n xs) ≡ length xs - n
length-drop zero xs = omega arith
length-drop (suc n) [] = omega arith
length-drop (suc n) (x ∷ xs) = omega (arith, length-drop n xs)

-- If the insertion succeeds, n more documents are counted as inserted or skipped.
pub record Counted {S : Type 0} (n : ℕ) (o : InsertOutcome) (r : Insertion S) : Type 0 where
  pub total : r.result ≡ ok tt → r.outcome.inserted + r.outcome.skipped ≡ o.inserted + o.skipped + n
  pub same_read : r.outcome.read ≡ o.read

abbrev Ends : {S : Type 0} → ℕ → InsertOutcome → Option (Insertion S) → Type 0
Ends {S} n o m = (r : Insertion S) × (m ≡ some r) × Counted n o r

record Tallied (failures : List (ℕ × InsertError)) (o : InsertOutcome) (r : Result {0} Unit)
    (p : InsertOutcome) : Type 0 where
  kept : (p.inserted ≡ o.inserted) × (p.read ≡ o.read)
  counts : r ≡ ok tt → p.skipped ≡ o.skipped + length failures

tally-Tallied :
    (x : ErrorExclusions) (coll : Text) (failures : List (ℕ × InsertError)) (o : InsertOutcome)
    → Tallied failures o (tally x coll failures o).0 (tally x coll failures o).1
unfolding tally
tally-Tallied x coll [] o = record { kept = (refl, refl); counts = λ e. omega arith }
tally-Tallied x coll ((i, e) ∷ failures) o =
    let ih = tally-Tallied x coll failures (record o { skipped = suc o.skipped }) in
    elim (Bool-cases (is_excluded x coll e)) [
      | inl t ↦ rw t (record { kept = ih.kept; counts = λ h. omega (arith, ih.counts h) })
      | inr f ↦ rw f (record { kept = (refl, refl); counts = λ h. cc })
    ]

module _ {S : Type 0} (sink : MongoSink S) (x : ErrorExclusions) (db coll : Text) where
  after_tally-Ends :
      (ordered : Bool) (again : InsertOutcome → Option (Insertion S)) (n k : ℕ)
      (failures : List (ℕ × InsertError)) (i : ℕ × InsertError) (o : InsertOutcome)
      (r : Result {0} Unit) (p : InsertOutcome) (s : S)
      → Account ordered n k (i ∷ failures)
      → Tallied (i ∷ failures) (record o { inserted = o.inserted + k }) r p
      → ((q : InsertOutcome) → Ends (n - suc i.0) q (again q))
      → Ends n o (after_tally sink x ordered db coll again (r, p) s)
  after_tally-Ends ordered again n k failures i o (err e) p s acc t ih =
      (inserts (err e) p s, refl, record { total = λ h. cc; same_read = t.kept.1 })
  after_tally-Ends false again n k failures i o (ok u) p s acc t ih = (
    inserts (ok tt) p s,
    refl,
    record { total = λ h. omega (arith, acc, t.kept.0, t.counts refl); same_read = t.kept.1 },
  )
  after_tally-Ends true again n k [] i o (ok u) p s (at, lt) t ih =
      let (r, e, c) = ih p in
      (
        r,
        e,
        record {
          total = λ h. omega (arith, at, lt, t.kept.0, t.counts refl, c.total h);
          same_read = c.same_read ∙ t.kept.1;
        },
      )
  after_tally-Ends true again n k (j ∷ failures) i o (ok u) p s acc t ih = absurd acc

  after_insert-Ends :
      (ordered : Bool) (again : ℕ → InsertOutcome → S → Option (Insertion S)) (n : ℕ)
      (o : InsertOutcome) (m : Result BatchInsert × S)
      → ((out : BatchInsert) (t : S)
          → m ≡ (ok out, t)
          → Account ordered n out.inserted out.failures)
      → ((k : ℕ) (q : InsertOutcome) (t : S) → Ends (n - suc k) q (again (suc k) q t))
      → Ends n o (after_insert sink x ordered db coll again o m)
  after_insert-Ends ordered again n o (err e, s) acc ih =
      (inserts (err e) o s, refl, record { total = λ h. cc; same_read = refl })
  after_insert-Ends ordered again n o (ok out, s) acc ih = failed out.failures (acc out s refl)
    where
      failed :
          (failures : List (ℕ × InsertError))
          → Account ordered n out.inserted failures
          → Ends n o (
              after_failures sink x ordered db coll again
                (record o { inserted = o.inserted + out.inserted })
                failures
                s)
      failed [] a = (
        inserts (ok tt) (record o { inserted = o.inserted + out.inserted }) s,
        refl,
        record { total = λ h. all_in ordered a; same_read = refl },
      )
        where
          all_in :
              (b : Bool)
              → Account b n out.inserted []
              → o.inserted + out.inserted + o.skipped ≡ o.inserted + o.skipped + n
          all_in true a = omega (arith, a)
          all_in false a = omega (arith, a)
      failed (f ∷ failures) a =
          let counted : InsertOutcome = record o { inserted = o.inserted + out.inserted } in
          let (r, p) = tally x coll (f ∷ failures) counted in
          after_tally-Ends ordered (λ q. again (suc f.0) q s) n out.inserted failures f o
            (tally x coll (f ∷ failures) counted).0 (tally x coll (f ∷ failures) counted).1 s a
            (tally-Tallied x coll (f ∷ failures) counted) (λ q. ih f.0 q s)

  module _ (accurate : IsAccurate sink) (ordered : Bool) where
    insert_from-Ends :
        (fuel : ℕ) (rest : List Document) (o : InsertOutcome) (s : S)
        → length rest ≤ fuel
        → Ends (length rest) o (insert_from sink x ordered db coll fuel rest o s)
    unfolding insert_from
    insert_from-Ends fuel [] o s h =
        (inserts (ok tt) o s, refl, record { total = λ e. omega arith; same_read = refl })
    insert_from-Ends zero (d ∷ rest) o s h = absurd (omega (arith, h))
    insert_from-Ends (suc fuel) (d ∷ rest) o s h =
        let within = λ (k : ℕ). length-drop (suc k) (d ∷ rest) in
        after_insert-Ends ordered
          (λ n p t. insert_from sink x ordered db coll fuel (drop n (d ∷ rest)) p t)
          (length (d ∷ rest)) o (sink.insert_many db coll (d ∷ rest) ordered s)
          (λ out t e. accurate db coll (d ∷ rest) ordered s t out e)
          (λ k q t.
            rw (← within k)
              (insert_from-Ends fuel (drop (suc k) (d ∷ rest)) q t (omega (arith, h, within k))))

    -- With a sink whose reports are accurate, the insertion of a batch ends, and if it succeeds,
    -- every document of the batch is counted once, as inserted or as skipped.
    pub insert_batch-Counted :
        (batch : List Document) (o : InsertOutcome) (s : S)
        → (r : Insertion S) × (insert_batch sink x ordered db coll batch o s ≡ some r)
          × Counted (length batch) o r
    unfolding insert_batch
    insert_batch-Counted batch o s = insert_from-Ends (length batch) batch o s (omega arith)
