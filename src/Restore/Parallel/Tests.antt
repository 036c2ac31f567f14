-- ===== src/Restore/Parallel/Tests.antt =====
-- Two workers and one collection.
use leafmask.Prelude.{List, ℕ, ◌≤◌, ◌<◌, Text, codes, false, none, some, [], ◌∷◌, ◌≡◌, refl, arith}
use leafmask.Prelude.Result.{ok}
use leafmask.Dump.Tests.{five_codec}
use leafmask.Dump.Reader.{next_batch, read_batch, next_document, read_body, le_u32, valid_length}
use leafmask.Restore.Sink.{insert_many, insert_each}
use leafmask.Restore.Batch.{insert_batch, insert_from, tally}
use leafmask.Restore.Exclusions.{
  is_excluded, matches_code_global, matches_index_global, excluded_in,
}
use leafmask.Restore.Collection.{
  RestoreItemResult, restore_item, insert_documents, insert_loop, complete, settle, create_indexes,
}
use leafmask.Restore.Run.{RestoreItem, empty_report, add_results}
use leafmask.Restore.Total.{recorded}
use leafmask.Restore.Tests.{users_restore, once-IsAccurate}
use leafmask.Restore.Parallel.{
  Worker, Step, ready, running, finished, Shared, go_on, run_out, claim, restore, store, turn,
  Reach, start, later, fill, collect,
}
use leafmask.Restore.Parallel.Complete.{parallel_complete}
use leafmask.Restore.Parallel.Spec.{status, SpecReach, Reach-SpecReach}
use leafmask.Restore.Parallel.Ends.{left, Ending, parallel_ends}

abbrev dump_id : Text
dump_id = codes "d1"

abbrev users : RestoreItem
users = record { db = codes "shop"; coll = codes "users" }

abbrev users_result : RestoreItemResult
users_result = record {
  inserted = 1;
  skipped = 1;
  indexes_created = 0;
  failed = none;
  fatal = none;
}

restore_item-users :
    restore_item users_restore dump_id (codes "shop") (codes "users") 7 ≡ some (users_result, 1)
unfolding restore_item insert_documents insert_loop next_batch read_batch next_document read_body
    le_u32 valid_length insert_batch insert_from tally insert_many insert_each is_excluded
    matches_code_global matches_index_global excluded_in complete settle create_indexes
restore_item-users = refl

-- The shared state after the item was claimed, after it was restored, with its result, and when
-- both workers have seen the end of the items.
abbrev claimed_state : Shared ℕ
claimed_state = record { next = 1; stop = false; results = λ i. none; target = 7 }

abbrev restored : Shared ℕ
restored = record { next = 1; stop = false; results = λ i. none; target = 1 }

abbrev reported : Shared ℕ
reported = record { next = 1; stop = false; results = fill (λ i. none) 0 users_result; target = 1 }

abbrev seen : ℕ → Shared ℕ
seen n = record reported { next = n }

abbrev reach_first :
    Reach users_restore dump_id (users ∷ []) 2 7 claimed_state (running 0 ∷ ready ∷ [])
reach_first =
    later (later start (turn [] (ready ∷ []) refl (go_on refl) refl))
      (turn [] (ready ∷ []) refl (claim (omega arith)) refl)

abbrev reach_last : Reach users_restore dump_id (users ∷ []) 2 7 (seen 3) (finished ∷ finished ∷ [])
reach_last =
    later
      (later
        (later
          (later
            (later
              (later reach_first (
                turn [] (ready ∷ []) refl (restore {item = users} refl restore_item-users refl)
                  refl))
              (turn [] (ready ∷ []) refl store refl))
            (turn [] (ready ∷ []) refl (go_on refl) refl))
          (turn [] (ready ∷ []) refl (run_out (omega arith)) refl))
        (turn (finished ∷ []) [] refl (go_on refl) refl))
      (turn (finished ∷ []) [] refl (run_out (omega arith)) refl)

collected :
    add_results (collect reported.results 0 1) empty_report
    ≡ ok (record { inserted = 1; skipped = 1; indexes_created = 0; failed = [] })
unfolding add_results collect
collected = refl

parallel_complete_example : recorded users_restore dump_id (users ∷ []) ≤ 2
parallel_complete_example =
    parallel_complete users_restore dump_id once-IsAccurate (users ∷ []) 2 7 (seen 3)
      (finished ∷ finished ∷ [])
      (record { inserted = 1; skipped = 1; indexes_created = 0; failed = [] }) (omega arith)
      reach_last (refl, (refl, tt)) collected refl

parallel_ends_example :
    ((m' : Shared ℕ) (ws' : List Worker)
      → Step users_restore dump_id (users ∷ []) claimed_state (running 0 ∷ ready ∷ []) m' ws'
      → left users_restore dump_id (users ∷ []) m' ws'
        < left users_restore dump_id (users ∷ []) claimed_state (running 0 ∷ ready ∷ []))
    × Ending users_restore dump_id
        (users ∷ [])
        once-IsAccurate
        claimed_state
        (running 0 ∷ ready ∷ [])
parallel_ends_example =
    parallel_ends users_restore dump_id (users ∷ []) once-IsAccurate 2 7 claimed_state
      (running 0 ∷ ready ∷ []) reach_first

Reach-SpecReach_example :
    SpecReach users_restore dump_id (users ∷ []) (status (seen 3) (finished ∷ finished ∷ []))
Reach-SpecReach_example = Reach-SpecReach users_restore dump_id (users ∷ []) reach_last
