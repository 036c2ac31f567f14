-- ===== src/Restore/Tests.antt =====
-- A target that takes the first document and tells the second from it as a duplicate.
use leafmask.Prelude.{
  ℕ, zero, suc, Text, codes, true, false, Option, none, some, List, [], ◌∷◌, ◌≡◌, ◌↔◌, ◌⊎◌, refl,
  ◌≤◌,
}
use leafmask.Prelude.Int.{pos}
use leafmask.Prelude.Result.{Result, ok}
use leafmask.Bson.{Document, end}
use leafmask.Dump.Tests.{five_codec}
use leafmask.Restore.Exclusions.{
  InsertError, ErrorExclusions, is_excluded, Listed, Rule, is_excluded_iff,
}
use leafmask.Restore.Sink.{MongoSink, Account, IsAccurate, insert_many, insert_each}
use leafmask.Restore.Default.{insert_many-Account}
use leafmask.Restore.Batch.{Insertion, insert_batch}
use leafmask.Restore.Accounts.{Counted, insert_batch-Counted}
use leafmask.Restore.Collection.{Restore, CollectionMeta, no_outcome, restore_item}
use leafmask.Dump.Metadata.{DumpMetadata, done}
use leafmask.Restore.Scripts.{ScriptSpec, ScriptRunner, kind, run_stage}
use leafmask.Restore.Run.{
  RestoreReport, run_sequential, items_of_dump, items_in, restore_items, add_results,
}
use leafmask.Restore.Total.{recorded, run_sequential_complete, run_sequential_ends}
use leafmask.Restore.Collection.{
  include_collection, insert_documents, insert_loop, complete, settle, create_indexes,
}
use leafmask.Restore.Scripts.{run_all, run_script}
use leafmask.Dump.Reader.{next_batch, read_batch, next_document, read_body, le_u32, valid_length}
use leafmask.Restore.Batch.{insert_from, tally}
use leafmask.Restore.Exclusions.{matches_code_global, matches_index_global, excluded_in}
use leafmask.Restore.Complete.{ItemEnds, restore_item_complete}

abbrev duplicate : InsertError
duplicate = record { code = some (pos 11000); index_name = none }

-- Only an empty target takes a document.
abbrev insert_once : Text → Text → Document → ℕ → Option InsertError × ℕ
insert_once db coll doc zero = (none, 1)
insert_once db coll doc (suc n) = (some duplicate, suc n)

abbrev once_sink : MongoSink ℕ
once_sink = record {
  ensure_collection = λ db coll validator options s. (ok tt, s);
  insert_many = insert_many insert_once;
  create_index = λ db coll index s. (ok tt, s);
  drop_collection = λ db coll s. (ok tt, 0);
}

pub once-IsAccurate : IsAccurate once_sink
once-IsAccurate db coll docs ordered s t out e =
    insert_many-Account insert_once db coll ordered docs s t out e

abbrev tolerant : ErrorExclusions
tolerant = record { global_error_codes = pos 11000 ∷ []; global_index_names = []; collections = [] }

abbrev two_docs : List Document
two_docs = end ∷ end ∷ []

insert_batch-Counted_example :
    (r : Insertion ℕ) × (insert_batch once_sink tolerant true
        (codes "shop")
        (codes "users")
        two_docs
        no_outcome
        0
      ≡ some r)
    × Counted 2 no_outcome r
insert_batch-Counted_example =
    insert_batch-Counted once_sink tolerant (codes "shop") (codes "users") once-IsAccurate true
      two_docs no_outcome 0

insert_many-stops :
    insert_many insert_once (codes "shop") (codes "users") two_docs true 0
    ≡ (ok (record { inserted = 1; failures = (1, duplicate) ∷ [] }), 1)
unfolding insert_many insert_each
insert_many-stops = refl

insert_many-Account_example : Account true 2 1 ((1, duplicate) ∷ [])
insert_many-Account_example =
    insert_many-Account insert_once (codes "shop") (codes "users") true two_docs 0 1
      (record { inserted = 1; failures = (1, duplicate) ∷ [] }) insert_many-stops

is_excluded_iff_example :
    (is_excluded tolerant (codes "users") duplicate ≡ true)
    ↔ (Listed (pos 11000 ∷ []) [] duplicate ⊎ Rule (codes "users") duplicate [])
is_excluded_iff_example = is_excluded_iff tolerant (codes "users") duplicate

abbrev users_meta : CollectionMeta
users_meta = record {
  database = codes "shop";
  collection = codes "users";
  document_count = 2;
  indexes = [];
  validator = none;
  options = [];
}

abbrev pub users_restore : Restore ℕ
users_restore = record {
  storage = record {
    read_collection_meta = λ id db coll. ok users_meta;
    open_document_reader = λ id db coll.
        ok (record { bytes = 5 ∷ 0 ∷ 0 ∷ 0 ∷ 0 ∷ 5 ∷ 0 ∷ 0 ∷ 0 ∷ 0 ∷ []; breaks = false });
  };
  sink = once_sink;
  exclusions = tolerant;
  options = record {
    include_collections = [];
    exclude_collections = [];
    include_indexes = [];
    exclude_indexes = [];
    batch_size = 1000;
    ordered = true;
    dependency_order = false;
    exit_on_error = true;
    clean = true;
    parallel_jobs = 1;
  };
}

restore_item_complete_example :
    ItemEnds users_restore once-IsAccurate 2
      (restore_item users_restore (codes "d1") (codes "shop") (codes "users") 7)
restore_item_complete_example =
    restore_item_complete users_restore once-IsAccurate (codes "d1") (codes "shop") (codes "users")
      users_meta 7 refl

abbrev cleanup : ScriptSpec
cleanup = record {
  name = none;
  query = some (codes "db.x.drop()");
  query_file = none;
  command = none;
}

-- Scripts that leave the target as it is.
abbrev idle : ScriptRunner ℕ
idle = record {
  run_mongosh = λ q s. (ok tt, s);
  run_mongosh_file = λ f s. (ok tt, s);
  run_command = λ argv s. (ok tt, s);
}

abbrev stages : List (Text × List ScriptSpec)
stages = (codes "pre-data", cleanup ∷ []) ∷ []

abbrev shop_dump : DumpMetadata
shop_dump = record {
  id = codes "d1";
  status = done;
  created_at = codes "now";
  databases =
      record {
        name = codes "shop";
        collections =
            record { name = codes "users"; document_count = 2; indexes = []; restore_order = 0 }
            ∷ [];
      }
      ∷ [];
  size = 10;
}

abbrev shop_report : RestoreReport
shop_report = record { inserted = 1; skipped = 1; indexes_created = 0; failed = [] }

run-shop : run_sequential users_restore stages idle (ok shop_dump) 7 ≡ some (ok shop_report, 1)
unfolding run_sequential items_of_dump items_in include_collection run_stage run_all run_script kind
    restore_items restore_item insert_documents insert_loop next_batch read_batch next_document
    read_body le_u32 valid_length insert_batch insert_from tally insert_many insert_each is_excluded
    matches_code_global matches_index_global excluded_in complete settle create_indexes add_results
run-shop = refl

run_sequential_complete_example :
    recorded users_restore (codes "d1") (items_of_dump users_restore.options shop_dump.databases)
    ≤ 2
run_sequential_complete_example =
    run_sequential_complete users_restore once-IsAccurate stages idle shop_dump 7 1 shop_report
      run-shop refl

run_sequential_ends_example :
    (r : Result RestoreReport × ℕ) × (run_sequential users_restore stages idle (ok shop_dump) 7
      ≡ some r)
run_sequential_ends_example =
    run_sequential_ends users_restore once-IsAccurate stages idle (ok shop_dump) 7
