-- ===== src/Restore/Batch.antt =====
-- `insert_batch` of restore/database.rs.
use leafmask.Prelude.{
  ℕ, zero, suc, ◌+◌, Text, Bool, Option, none, some, List, [], ◌∷◌, length, drop, if◌then◌else◌,
}
use leafmask.Prelude.Result.{restore, Result, ok, err}
use leafmask.Bson.{Document}
use leafmask.Restore.Exclusions.{InsertError, ErrorExclusions, is_excluded}
use leafmask.Restore.Sink.{BatchInsert, MongoSink}

pub record InsertOutcome : Type 0 where
  pub inserted : ℕ
  pub skipped : ℕ
  pub read : ℕ

-- What an insertion returns, with the outcome that it has written to and the target.
pub record Insertion (S : Type 0) : Type 0 where
  pub result : Result {0} Unit
  pub outcome : InsertOutcome
  pub target : S

abbrev pub inserts : {S : Type 0} → Result {0} Unit → InsertOutcome → S → Insertion S
inserts r o s = record { result = r; outcome = o; target = s }

-- The loop over the failures of a batch.
unfoldable pub tally :
    ErrorExclusions
    → Text
    → List (ℕ × InsertError)
    → InsertOutcome
    → Result {0} Unit × InsertOutcome
tally x coll [] o = (ok tt, o)
tally x coll ((_, e) ∷ failures) o =
    let rest = tally x coll failures (record o { skipped = suc o.skipped }) in
    if is_excluded x coll e then rest else (err restore, o)

module _ {S : Type 0} (sink : MongoSink S) (x : ErrorExclusions) (ordered : Bool)
    (db coll : Text) where
  -- `again` goes on with the rest of the batch.
  abbrev pub after_tally :
      (InsertOutcome → Option (Insertion S))
      → Result {0} Unit × InsertOutcome
      → S
      → Option (Insertion S)
  after_tally again (err e, o) s = some (inserts (err e) o s)
  after_tally again (ok u, o) s =
      let rest = again o in if ordered then rest else some (inserts (ok tt) o s)

  abbrev pub after_failures :
      (ℕ → InsertOutcome → S → Option (Insertion S))
      → InsertOutcome
      → List (ℕ × InsertError)
      → S
      → Option (Insertion S)
  after_failures again o [] s = some (inserts (ok tt) o s)
  after_failures again o (f ∷ failures) s =
      after_tally (λ p. again (suc f.0) p s) (tally x coll (f ∷ failures) o) s

  abbrev pub after_insert :
      (ℕ → InsertOutcome → S → Option (Insertion S))
      → InsertOutcome
      → Result BatchInsert × S
      → Option (Insertion S)
  after_insert again o (err e, s) = some (inserts (err e) o s)
  after_insert again o (ok out, s) =
      after_failures again (record o { inserted = o.inserted + out.inserted }) out.failures s

  -- `rest` is `batch[start..]`; `none` is out of fuel.
  unfoldable pub insert_from : ℕ → List Document → InsertOutcome → S → Option (Insertion S)
  insert_from fuel [] o s = some (inserts (ok tt) o s)
  insert_from zero (d ∷ rest) o s = none
  insert_from (suc fuel) (d ∷ rest) o s =
      after_insert (λ n p t. insert_from fuel (drop n (d ∷ rest)) p t) o
        (sink.insert_many db coll (d ∷ rest) ordered s)

  unfoldable pub insert_batch : List Document → InsertOutcome → S → Option (Insertion S)
  insert_batch batch o s = insert_from (length batch) batch o s
