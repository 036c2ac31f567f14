-- ===== src/Restore/Sink.antt =====
-- The write side that a restore drives: the `MongoSink` trait of mongo.rs, with its default
-- `insert_many`. `S` is the state of the target database.
use leafmask.Prelude.{
  ℕ, suc, ◌+◌, ◌<◌, Text, Bool, true, false, Option, none, some, List, [], ◌∷◌, ◌++◌, ◌≡◌, length,
  if◌then◌else◌,
}
use leafmask.Prelude.Int.{ℤ}
use leafmask.Prelude.Result.{Result, ok}
use leafmask.Bson.{Bson, Document}
use leafmask.Restore.Exclusions.{InsertError}

pub record IndexSpec : Type 0 where
  pub name : Text
  pub keys : List (Text × ℤ)
  pub unique : Bool

pub record BatchInsert : Type 0 where
  pub inserted : ℕ
  pub failures : List (ℕ × InsertError)

-- The default `insert_many`: one `insert` for each document, which gives back `none` or its failure. `i` is the index of the next document.
module _ {S : Type 0} (insert : Text → Text → Document → S → Option InsertError × S) where
  unfoldable pub insert_each :
      Text → Text → Bool → ℕ → List Document → BatchInsert → S → BatchInsert × S
  insert_each db coll ordered i [] out s = (out, s)
  insert_each db coll ordered i (doc ∷ docs) out s =
      let (failure, t) = insert db coll doc s in
      elim failure [
        | none ↦
            insert_each db coll ordered (suc i) docs (record out { inserted = suc out.inserted }) t
        | some e ↦
            let failed : BatchInsert = record out { failures = out.failures ++ (i, e) ∷ [] } in
            let rest = insert_each db coll ordered (suc i) docs failed t in
            if ordered then (failed, t) else rest
      ]

  unfoldable pub insert_many : Text → Text → List Document → Bool → S → Result BatchInsert × S
  unfolding insert_each
  insert_many db coll docs ordered s =
      let (out, t) =
        insert_each db coll ordered 0 docs (record { inserted = 0; failures = [] }) s in
      (ok out, t)

-- What `insert_many` documents of the failures it reports for a batch of n documents: ordered
-- writes stop at the first, others attempt every document.
abbrev pub Account : Bool → ℕ → ℕ → List (ℕ × InsertError) → Type 0
Account false n inserted failures = inserted + length failures ≡ n
Account true n inserted [] = inserted ≡ n
Account true n inserted (f ∷ []) = (f.0 ≡ inserted) × (inserted < n)
Account true n inserted (_ ∷ _ ∷ _) = ⊥

pub record MongoSink (S : Type 0) : Type 0 where
  pub ensure_collection : Text → Text → Option Bson → List (Text × Bson) → S → Result {0} Unit × S
  pub insert_many : Text → Text → List Document → Bool → S → Result BatchInsert × S
  pub create_index : Text → Text → IndexSpec → S → Result {0} Unit × S
  pub drop_collection : Text → Text → S → Result {0} Unit × S

-- Every reported failure is accounted for: with ordered writes the batch stops at its first.
abbrev pub IsAccurate : {S : Type 0} → MongoSink S → Type 0
IsAccurate {S} sink =
    (db coll : Text) (docs : List Document) (ordered : Bool) (s t : S) (out : BatchInsert)
    → sink.insert_many db coll docs ordered s ≡ (ok out, t)
    → Account ordered (length docs) out.inserted out.failures
