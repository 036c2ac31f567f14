-- ===== src/Restore/Collection.antt =====
-- Restoring one collection: `insert_documents`, `create_indexes` and `restore_item` of
-- restore/database.rs.
use leafmask.Prelude.{
  ℕ, zero, suc, ◌+◌, Text, codes, text_eq, text_Eq, Bool, true, false, ◌||◌, Option, none, some,
  List, [], ◌∷◌, ◌++◌, contains, length, ltb, if◌then◌else◌,
}
use leafmask.Prelude.Result.{Error, restore, Result, ok, err}
use leafmask.Bson.{Bson, Document}
use leafmask.Dump.Reader.{ByteStream, BsonCodec, next_batch}
use leafmask.Restore.Exclusions.{ErrorExclusions}
use leafmask.Restore.Sink.{IndexSpec, MongoSink}
use leafmask.Restore.Batch.{InsertOutcome, Insertion, inserts, insert_batch}

pub record RestoreOptions : Type 0 where
  pub include_collections : List Text
  pub exclude_collections : List Text
  pub include_indexes : List Text
  pub exclude_indexes : List Text
  pub batch_size : ℕ
  pub ordered : Bool
  pub dependency_order : Bool
  pub exit_on_error : Bool
  pub clean : Bool
  pub parallel_jobs : ℕ

abbrev pub is_nil : List Text → Bool
is_nil [] = true
is_nil (_ ∷ _) = false

abbrev pub selects : List Text → List Text → Text → Bool
selects included excluded name =
    if contains excluded name then false else is_nil included || contains included name

unfoldable pub include_collection : RestoreOptions → Text → Bool
include_collection options name =
    selects options.include_collections options.exclude_collections name

unfoldable pub include_index : RestoreOptions → Text → Bool
include_index options name = selects options.include_indexes options.exclude_indexes name

-- The structure blob of dump/mod.rs.
pub record CollectionMeta : Type 0 where
  pub database : Text
  pub collection : Text
  pub document_count : ℕ
  pub indexes : List IndexSpec
  pub validator : Option Bson
  pub options : List (Text × Bson)

-- Reading a dump out of storage, by dump, database and collection.
pub record DumpStorage : Type 0 where
  pub read_collection_meta : Text → Text → Text → Result CollectionMeta
  pub open_document_reader : Text → Text → Text → Result ByteStream

pub record RestoreItemResult : Type 0 where
  pub inserted : ℕ
  pub skipped : ℕ
  pub indexes_created : ℕ
  pub failed : Option Text
  pub fatal : Option Error

abbrev pub no_outcome : InsertOutcome
no_outcome = record { inserted = 0; skipped = 0; read = 0 }

abbrev pub untouched : RestoreItemResult
untouched = record { inserted = 0; skipped = 0; indexes_created = 0; failed = none; fatal = none }

pub record Restore (S : Type 0) : Type 0 where
  pub storage : DumpStorage
  pub sink : MongoSink S
  pub exclusions : ErrorExclusions
  pub options : RestoreOptions

module _ {S : Type 0} ⦃codec : BsonCodec⦄ (self : Restore S) where
  abbrev pub batch_room : ℕ
  batch_room = if ltb self.options.batch_size 1 then 1 else self.options.batch_size

  abbrev pub after_batch :
      (InsertOutcome → S → Option (Insertion S)) → Option (Insertion S) → Option (Insertion S)
  after_batch again none = none
  after_batch again (some r) = elim r.result [ err e ↦ some r | ok u ↦ again r.outcome r.target ]

  abbrev pub after_read :
      (ByteStream → InsertOutcome → S → Option (Insertion S))
      → Text
      → Text
      → InsertOutcome
      → S
      → Result (List Document × ByteStream)
      → Option (Insertion S)
  after_read again db coll o s (err e) = some (inserts (err e) o s)
  after_read again db coll o s (ok ([], reader)) = some (inserts (ok tt) o s)
  after_read again db coll o s (ok (d ∷ docs, reader)) = after_batch (again reader) (
      insert_batch self.sink self.exclusions self.options.ordered db coll (d ∷ docs)
        (record o { read = o.read + length (d ∷ docs) }) s)

  -- The loop over the batches: `none` is out of fuel.
  unfoldable pub insert_loop :
      ℕ → Text → Text → ByteStream → InsertOutcome → S → Option (Insertion S)
  insert_loop zero db coll reader o s = none
  insert_loop (suc fuel) db coll reader o s =
      after_read (insert_loop fuel db coll) db coll o s (next_batch batch_room reader)

  abbrev pub insert_opened : Text → Text → Result ByteStream → S → Option (Insertion S)
  insert_opened db coll (err e) s = some (inserts (err e) no_outcome s)
  insert_opened db coll (ok reader) s =
      insert_loop (suc (length reader.bytes)) db coll reader no_outcome s

  unfoldable pub insert_documents : Text → Text → Text → S → Option (Insertion S)
  insert_documents dump_id db coll s =
      insert_opened db coll (self.storage.open_document_reader dump_id db coll) s

  unfoldable pub create_indexes : Text → Text → List IndexSpec → S → Result ℕ × S
  create_indexes db coll [] s = (ok 0, s)
  create_indexes db coll (idx ∷ indexes) s =
      if text_eq idx.name (codes "_id_")
      then create_indexes db coll indexes s
      else if include_index self.options idx.name
      then (let (r, t) = self.sink.create_index db coll idx s in
          elim r [
            | err e ↦ (err e, t)
            | ok u ↦
                let (n, u') = create_indexes db coll indexes t in
                elim n [ err e ↦ (err e, u') | ok k ↦ (ok (suc k), u') ]
          ])
      else create_indexes db coll indexes s

  -- `insert_result.and_then(...)`: fewer documents than the dump records is an error.
  unfoldable pub complete : ℕ → ℕ → Result {0} Unit → Result {0} Unit
  complete read count (err e) = err e
  complete read count (ok u) = if ltb read count then err restore else ok tt

  abbrev pub with_indexes : RestoreItemResult → Result ℕ × S → RestoreItemResult × S
  with_indexes result (ok n, s) = (record result { indexes_created = n }, s)
  with_indexes result (err e, s) = (record result { fatal = some e }, s)

  -- What follows the insertion.
  unfoldable pub settle :
      Text → Text → List IndexSpec → RestoreItemResult → Result {0} Unit → S → RestoreItemResult × S
  settle db coll indexes result (err e) s =
      if self.options.exit_on_error
      then (record result { fatal = some e }, s)
      else (record result { failed = some (db ++ (codes "." ++ coll)) }, s)
  settle db coll indexes result (ok u) s =
      if self.options.dependency_order
      then (result, s)
      else with_indexes result (create_indexes db coll indexes s)

  abbrev pub inserted_item :
      Text → Text → CollectionMeta → Option (Insertion S) → Option (RestoreItemResult × S)
  inserted_item db coll cmeta none = none
  inserted_item db coll cmeta (some r) = some (
      settle db coll cmeta.indexes
        (record untouched { inserted = r.outcome.inserted; skipped = r.outcome.skipped })
        (complete r.outcome.read cmeta.document_count r.result) r.target)

  abbrev pub failed_item : Error → S → Option (RestoreItemResult × S)
  failed_item e s = some (record untouched { fatal = some e }, s)

  abbrev pub ensured :
      Text → Text → Text → CollectionMeta → Result {0} Unit × S → Option (RestoreItemResult × S)
  ensured dump_id db coll cmeta (err e, s) = failed_item e s
  ensured dump_id db coll cmeta (ok u, s) =
      inserted_item db coll cmeta (insert_documents dump_id db coll s)

  abbrev pub cleaned :
      Text → Text → Text → CollectionMeta → Result {0} Unit × S → Option (RestoreItemResult × S)
  cleaned dump_id db coll cmeta (err e, s) = failed_item e s
  cleaned dump_id db coll cmeta (ok u, s) =
      ensured dump_id db coll cmeta
        (self.sink.ensure_collection db coll cmeta.validator cmeta.options s)

  abbrev pub started :
      Text → Text → Text → Result CollectionMeta → S → Option (RestoreItemResult × S)
  started dump_id db coll (err e) s = failed_item e s
  started dump_id db coll (ok cmeta) s =
      cleaned dump_id db coll cmeta
        (if self.options.clean then self.sink.drop_collection db coll s else (ok tt, s))

  unfoldable pub restore_item : Text → Text → Text → S → Option (RestoreItemResult × S)
  restore_item dump_id db coll s =
      started dump_id db coll (self.storage.read_collection_meta dump_id db coll) s
