-- ===== src/Restore/Complete.antt =====
-- A collection that is restored without a failure is complete.
use leafmask.Prelude.{
  ℕ, zero, suc, ◌+◌, ◌≤◌, ◌<◌, Text, Bool, true, false, Option, none, some, List, [], ◌∷◌, ◌≡◌,
  refl, inl, inr, arith, length, Bool-cases, ltb, if◌then◌else◌,
}
use leafmask.Prelude.Result.{Error, Result, ok, err, Result-cases}
use leafmask.Bson.{Document}
use leafmask.Dump.Reader.{ByteStream, BsonCodec, next_batch}
use leafmask.Dump.Framing.{read_batch-Shorter}
use leafmask.Restore.Sink.{IsAccurate, IndexSpec}
use leafmask.Restore.Batch.{InsertOutcome, Insertion, inserts}
use leafmask.Restore.Accounts.{Counted, insert_batch-Counted}
use leafmask.Restore.Collection.{
  Restore, RestoreItemResult, CollectionMeta, no_outcome, untouched, batch_room, after_batch,
  after_read, insert_loop, insert_opened, insert_documents, complete, settle, with_indexes,
  create_indexes, inserted_item, ensured, cleaned, restore_item,
}

next_batch-Shorter :
    ⦃codec : BsonCodec⦄ (n : ℕ) (s : ByteStream) (d : Document) (docs : List Document)
    (t : ByteStream)
    → next_batch n s ≡ ok (d ∷ docs, t)
    → length t.bytes < length s.bytes
unfolding next_batch
next_batch-Shorter n s d docs t e =
    omega (arith, read_batch-Shorter (if ltb n 1 then 1 else n) s (d ∷ docs) t e)

-- Every document that was read is counted as inserted or skipped.
abbrev Balanced : InsertOutcome → Type 0
Balanced o = o.inserted + o.skipped ≡ o.read

-- The insertion ends, and if it succeeds every document read is counted.
abbrev pub Ends : {S : Type 0} → Option (Insertion S) → Type 0
Ends {S} m = (r : Insertion S) × (m ≡ some r) × (r.result ≡ ok tt → Balanced r.outcome)

module _ {S : Type 0} ⦃codec : BsonCodec⦄ (self : Restore S) (accurate : IsAccurate self.sink) where
  after_batch-Ends :
      (again : InsertOutcome → S → Option (Insertion S)) (n : ℕ) (o : InsertOutcome)
      (r : Insertion S)
      → Counted n (record o { read = o.read + n }) r
      → Balanced o
      → ((p : InsertOutcome) (t : S) → Balanced p → Ends (again p t))
      → Ends (after_batch self again (some r))
  after_batch-Ends again n o r c balanced ih = elim (Result-cases r.result) [
    | inr (x, e) ↦ rw e (r, refl, λ h. cc)
    | inl (u, e) ↦ rw e (ih r.outcome r.target (omega (arith, c.total e, c.same_read, balanced)))
  ]

  after_read-Ends :
      (again : ByteStream → InsertOutcome → S → Option (Insertion S)) (db coll : Text)
      (o : InsertOutcome) (s : S) (m : Result (List Document × ByteStream))
      → Balanced o
      → ((d : Document) (docs : List Document) (reader : ByteStream) (p : InsertOutcome) (t : S)
          → m ≡ ok (d ∷ docs, reader)
          → Balanced p
          → Ends (again reader p t))
      → Ends (after_read self again db coll o s m)
  after_read-Ends again db coll o s (err e) balanced ih = (inserts (err e) o s, refl, λ h. cc)
  after_read-Ends again db coll o s (ok ([], reader)) balanced ih =
      (inserts (ok tt) o s, refl, λ h. balanced)
  after_read-Ends again db coll o s (ok (d ∷ docs, reader)) balanced ih =
      let more : InsertOutcome = record o { read = o.read + length (d ∷ docs) } in
      let (r, e, c) =
        insert_batch-Counted self.sink self.exclusions db coll accurate self.options.ordered
          (d ∷ docs) more s in
      rw e (
        after_batch-Ends (again reader) (length (d ∷ docs)) o r c balanced
          (λ p t. ih d docs reader p t refl))

  insert_loop-Ends :
      (fuel : ℕ) (db coll : Text) (reader : ByteStream) (o : InsertOutcome) (s : S)
      → length reader.bytes < fuel
      → Balanced o
      → Ends (insert_loop self fuel db coll reader o s)
  unfolding insert_loop
  insert_loop-Ends zero db coll reader o s h balanced = absurd (omega (arith, h))
  insert_loop-Ends (suc fuel) db coll reader o s h balanced =
      after_read-Ends (insert_loop self fuel db coll) db coll o s
        (next_batch (batch_room self) reader) balanced
        (λ d docs t p u e b.
          insert_loop-Ends fuel db coll t p u
            (omega (arith, h, next_batch-Shorter (batch_room self) reader d docs t e)) b)

  insert_opened-Ends :
      (db coll : Text) (m : Result ByteStream) (s : S) → Ends (insert_opened self db coll m s)
  insert_opened-Ends db coll (err e) s = (inserts (err e) no_outcome s, refl, λ h. cc)
  insert_opened-Ends db coll (ok reader) s =
      insert_loop-Ends (suc (length reader.bytes)) db coll reader no_outcome s (omega arith) refl

  -- With a sink whose reports are accurate, the insertion of a collection's documents ends, and if
  -- it succeeds, the documents inserted and those skipped are together the documents read.
  pub insert_documents-Ends :
      (dump_id db coll : Text) (s : S) → Ends (insert_documents self dump_id db coll s)
  unfolding insert_documents
  insert_documents-Ends dump_id db coll s =
      insert_opened-Ends db coll (self.storage.open_document_reader dump_id db coll) s

  -- Neither the collection nor the restore has failed.
  abbrev pub Clean : RestoreItemResult → Type 0
  Clean r = (r.failed ≡ none) × (r.fatal ≡ none)

  -- The item's restore ends, and leaves no recorded document out unless it reports a failure.
  abbrev pub ItemEnds : ℕ → Option (RestoreItemResult × S) → Type 0
  ItemEnds count m =
      (r : RestoreItemResult) × (t : S) × (m ≡ some (r, t))
      × (Clean r → count ≤ r.inserted + r.skipped)

  with_indexes-kept :
      (result : RestoreItemResult) (m : Result ℕ × S)
      → ((with_indexes self result m).0.inserted ≡ result.inserted)
        × ((with_indexes self result m).0.skipped ≡ result.skipped)
  with_indexes-kept result (ok n, s) = (refl, refl)
  with_indexes-kept result (err e, s) = (refl, refl)

  either_kept :
      (result : RestoreItemResult) (s : S) (m : RestoreItemResult × S)
      → (m.0.inserted ≡ result.inserted) × (m.0.skipped ≡ result.skipped)
      → (b : Bool)
      → ((if b then (result, s) else m).0.inserted ≡ result.inserted)
        × ((if b then (result, s) else m).0.skipped ≡ result.skipped)
  either_kept result s m kept true = (refl, refl)
  either_kept result s m kept false = kept

  settle-Clean :
      (db coll : Text) (indexes : List IndexSpec) (result : RestoreItemResult) (m : Result {0} Unit)
      (s : S)
      → Clean (settle self db coll indexes result m s).0
      → (m ≡ ok tt)
        × ((settle self db coll indexes result m s).0.inserted ≡ result.inserted)
        × ((settle self db coll indexes result m s).0.skipped ≡ result.skipped)
  unfolding settle
  settle-Clean db coll indexes result (err e) s (no_failed, no_fatal) =
      elim (Bool-cases self.options.exit_on_error) [
        | inl on ↦ cc (rw on at no_fatal)
        | inr off ↦ cc (rw off at no_failed)
      ]
  settle-Clean db coll indexes result (ok u) s clean =
      let (a, b) =
        either_kept result s (with_indexes self result (create_indexes self db coll indexes s))
          (with_indexes-kept result (create_indexes self db coll indexes s))
          self.options.dependency_order in
      (refl, a, b)

  complete-ok :
      (read count : ℕ) (m : Result {0} Unit)
      → complete self read count m ≡ ok tt
      → (m ≡ ok tt) × (count ≤ read)
  unfolding complete
  complete-ok read count (err e) h = cc
  complete-ok read count (ok u) h = (refl, ground arith)

  inserted_item-Ends :
      (db coll : Text) (cmeta : CollectionMeta) (m : Option (Insertion S))
      → Ends m
      → ItemEnds cmeta.document_count (inserted_item self db coll cmeta m)
  inserted_item-Ends db coll cmeta m (r, e, balanced) =
      let result : RestoreItemResult = record untouched {
        inserted = r.outcome.inserted;
        skipped = r.outcome.skipped;
      } in
      let done = complete self r.outcome.read cmeta.document_count r.result in
      let final = settle self db coll cmeta.indexes result done r.target in
      rw e (
        final.0,
        final.1,
        refl,
        λ clean.
            let (went_well, same_inserted, same_skipped) =
              settle-Clean db coll cmeta.indexes result done r.target clean in
            let (inserted_all, enough) =
              complete-ok r.outcome.read cmeta.document_count r.result went_well in
            omega (arith, enough, balanced inserted_all, same_inserted, same_skipped),
      )

  failed-Ends :
      (count : ℕ) (e : Error) (s : S)
      → ItemEnds count (some (record untouched { fatal = some e }, s))
  failed-Ends count e s = (record untouched { fatal = some e }, s, refl, λ (_, none_fatal). cc)

  ensured-Ends :
      (dump_id db coll : Text) (cmeta : CollectionMeta) (m : Result {0} Unit × S)
      → ItemEnds cmeta.document_count (ensured self dump_id db coll cmeta m)
  ensured-Ends dump_id db coll cmeta (err e, s) = failed-Ends cmeta.document_count e s
  ensured-Ends dump_id db coll cmeta (ok u, s) =
      inserted_item-Ends db coll cmeta (insert_documents self dump_id db coll s)
        (insert_documents-Ends dump_id db coll s)

  cleaned-Ends :
      (dump_id db coll : Text) (cmeta : CollectionMeta) (m : Result {0} Unit × S)
      → ItemEnds cmeta.document_count (cleaned self dump_id db coll cmeta m)
  cleaned-Ends dump_id db coll cmeta (err e, s) = failed-Ends cmeta.document_count e s
  cleaned-Ends dump_id db coll cmeta (ok u, s) =
      ensured-Ends dump_id db coll cmeta
        (self.sink.ensure_collection db coll cmeta.validator cmeta.options s)

  -- With a sink whose reports are accurate, the restore of a collection whose structure can be
  -- read ends, and unless it reports the collection failed or a fatal error, it has inserted or
  -- skipped together at least as many documents as the structure records.
  pub restore_item_complete :
      (dump_id db coll : Text) (cmeta : CollectionMeta) (s : S)
      → self.storage.read_collection_meta dump_id db coll ≡ ok cmeta
      → ItemEnds cmeta.document_count (restore_item self dump_id db coll s)
  unfolding restore_item
  restore_item_complete dump_id db coll cmeta s e =
      rw (e, restore_item)
        (cleaned-Ends dump_id db coll cmeta
          (if self.options.clean then self.sink.drop_collection db coll s else (ok tt, s)))
