-- ===== src/Restore/Run.antt =====
-- `run` of restore/database.rs with one job: the items one after the other, between the scripts.
use leafmask.Prelude.{ℕ, ◌+◌, Text, codes, Option, none, some, List, [], ◌∷◌, ◌++◌, if◌then◌else◌}
use leafmask.Prelude.Result.{Result, ok, err}
use leafmask.Dump.Reader.{BsonCodec}
use leafmask.Dump.Metadata.{CollectionToc, DatabaseToc, DumpMetadata}
use leafmask.Restore.Scripts.{ScriptSpec, ScriptRunner, run_stage}
use leafmask.Restore.Collection.{
  Restore, RestoreOptions, RestoreItemResult, CollectionMeta, include_collection, create_indexes,
  restore_item,
}

pub record RestoreReport : Type 0 where
  pub inserted : ℕ
  pub skipped : ℕ
  pub indexes_created : ℕ
  pub failed : List Text

pub record RestoreItem : Type 0 where
  pub db : Text
  pub coll : Text

abbrev pub empty_report : RestoreReport
empty_report = record { inserted = 0; skipped = 0; indexes_created = 0; failed = [] }

unfoldable pub items_in : RestoreOptions → Text → List CollectionToc → List RestoreItem
items_in options db [] = []
items_in options db (c ∷ cs) =
    let rest = items_in options db cs in
    if include_collection options c.name then record { db = db; coll = c.name } ∷ rest else rest

unfoldable pub items_of_dump : RestoreOptions → List DatabaseToc → List RestoreItem
items_of_dump options [] = []
items_of_dump options (d ∷ ds) = items_in options d.name d.collections ++ items_of_dump options ds

abbrev pub failure_names : Option Text → List Text
failure_names none = []
failure_names (some name) = name ∷ []

-- The loop over the results: the first fatal error is the restore's.
unfoldable pub add_results : List RestoreItemResult → RestoreReport → Result RestoreReport
add_results [] report = ok report
add_results (r ∷ rs) report = elim r.fatal [
  | some e ↦ err e
  | none ↦ add_results rs (record {
    inserted = report.inserted + r.inserted;
    skipped = report.skipped + r.skipped;
    indexes_created = report.indexes_created + r.indexes_created;
    failed = report.failed ++ failure_names r.failed;
  })
]

module _ {S : Type 0} ⦃codec : BsonCodec⦄ (self : Restore S) where
  abbrev pub with_item :
      RestoreItemResult → Option (List RestoreItemResult × S) → Option (List RestoreItemResult × S)
  with_item r none = none
  with_item r (some (rs, s)) = some (r ∷ rs, s)

  abbrev pub then_item :
      (S → Option (List RestoreItemResult × S))
      → Option (RestoreItemResult × S)
      → Option (List RestoreItemResult × S)
  then_item rest none = none
  then_item rest (some (r, s)) = with_item r (rest s)

  -- `items.iter().map(restore_item).collect()`: `none` is out of fuel.
  unfoldable pub restore_items : Text → List RestoreItem → S → Option (List RestoreItemResult × S)
  restore_items dump_id [] s = some ([], s)
  restore_items dump_id (item ∷ items) s =
      then_item (restore_items dump_id items) (restore_item self dump_id item.db item.coll s)

  abbrev pub add_indexes : (ℕ → S → Result ℕ × S) → ℕ → Result ℕ × S → Result ℕ × S
  add_indexes rest total (err e, s) = (err e, s)
  add_indexes rest total (ok n, s) = rest (total + n) s

  abbrev pub indexes_of :
      (ℕ → S → Result ℕ × S) → RestoreItem → ℕ → Result CollectionMeta → S → Result ℕ × S
  indexes_of rest item total (err e) s = (err e, s)
  indexes_of rest item total (ok cmeta) s =
      add_indexes rest total (create_indexes self item.db item.coll cmeta.indexes s)

  -- Indexes after all documents; the selected collections are the items again.
  unfoldable pub dependency_indexes : Text → List RestoreItem → ℕ → S → Result ℕ × S
  dependency_indexes dump_id [] total s = (ok total, s)
  dependency_indexes dump_id (item ∷ items) total s =
      indexes_of (dependency_indexes dump_id items) item total
        (self.storage.read_collection_meta dump_id item.db item.coll) s

  module _ (scripts : List (Text × List ScriptSpec)) (runner : ScriptRunner S) where
    abbrev pub after_post : RestoreReport → Result {0} Unit × S → Result RestoreReport × S
    after_post report (err e, s) = (err e, s)
    after_post report (ok u, s) = (ok report, s)

    abbrev pub after_indexes : RestoreReport → Result ℕ × S → Result RestoreReport × S
    after_indexes report (err e, s) = (err e, s)
    after_indexes report (ok n, s) =
        after_post (record report { indexes_created = n })
          (run_stage runner scripts (codes "post-data") s)

    abbrev pub after_results :
        Text → List RestoreItem → Result RestoreReport → S → Result RestoreReport × S
    after_results dump_id items (err e) s = (err e, s)
    after_results dump_id items (ok report) s = after_indexes report (
        if self.options.dependency_order
        then dependency_indexes dump_id items report.indexes_created s
        else (ok report.indexes_created, s))

    abbrev pub after_items :
        Text
        → List RestoreItem
        → Option (List RestoreItemResult × S)
        → Option (Result RestoreReport × S)
    after_items dump_id items none = none
    after_items dump_id items (some (rs, s)) =
        some (after_results dump_id items (add_results rs empty_report) s)

    abbrev pub after_pre :
        Text → List RestoreItem → Result {0} Unit × S → Option (Result RestoreReport × S)
    after_pre dump_id items (err e, s) = some (err e, s)
    after_pre dump_id items (ok u, s) = after_items dump_id items (restore_items dump_id items s)

    abbrev pub run_resolved : Result DumpMetadata → S → Option (Result RestoreReport × S)
    run_resolved (err e) s = some (err e, s)
    run_resolved (ok dump) s =
        after_pre dump.id (items_of_dump self.options dump.databases)
          (run_stage runner scripts (codes "pre-data") s)

    unfoldable pub run_sequential : Result DumpMetadata → S → Option (Result RestoreReport × S)
    run_sequential resolved s = run_resolved resolved s
