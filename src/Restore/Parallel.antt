-- ===== src/Restore/Parallel.antt =====
-- `restore_items_parallel` of restore/database.rs: worker threads that pull items from a shared
-- cursor, interleaved in any order. A worker's turn is one access of the shared state; the restore
-- of one collection is one turn, since each works on a collection of its own.
pub mod Claims
pub mod Turns
pub mod Invariant
pub mod Reported
pub mod Complete
pub mod Ends
pub mod Spec
pub mod Tests
use leafmask.Prelude.{
  ℕ, zero, suc, ◌+◌, ◌≤◌, ◌<◌, Text, Bool, true, false, ◌&&◌, Option, none, some, List, [], ◌∷◌,
  ◌++◌, ◌≡◌, length, is_some, unwrap_or, nat_eq, if◌then◌else◌, All, leb,
}
use leafmask.Dump.Reader.{BsonCodec}
use leafmask.Restore.Collection.{Restore, RestoreItemResult, untouched, restore_item}
use leafmask.Restore.Run.{RestoreItem}

-- Where a worker stands in its loop.
pub data Worker : Type 0 where
  ready : Worker  -- before `stop.load`
  claiming : Worker  -- before `next.fetch_add`
  running : ℕ → Worker  -- before `restore_item`
  stopping : ℕ → RestoreItemResult → Worker  -- before `stop.store`
  storing : ℕ → RestoreItemResult → Worker  -- before the result is put into its slot
  finished : Worker

-- The cursor, the flag, the slots of the results and the target database.
pub record Shared (S : Type 0) : Type 0 where
  pub next : ℕ
  pub stop : Bool
  pub results : ℕ → Option RestoreItemResult
  pub target : S

abbrev pub fill :
    (ℕ → Option RestoreItemResult) → ℕ → RestoreItemResult → ℕ → Option RestoreItemResult
fill results i r j = if nat_eq i j then some r else results j

abbrev pub item_at : List RestoreItem → ℕ → Option RestoreItem
item_at [] i = none
item_at (x ∷ xs) zero = some x
item_at (x ∷ xs) (suc i) = item_at xs i

abbrev pub at_loop : ℕ → List Worker
at_loop zero = []
at_loop (suc jobs) = ready ∷ at_loop jobs

abbrev pub start_of : {S : Type 0} → S → Shared S
start_of s = record { next = 0; stop = false; results = λ i. none; target = s }

-- The scope ends when all threads have.
abbrev pub Finished : List Worker → Type 0
Finished ws = All (λ w. w ≡ finished) ws

module _ {S : Type 0} ⦃codec : BsonCodec⦄ (self : Restore S) (dump_id : Text)
    (items : List RestoreItem) where
  -- `result.fatal.is_some() && self.options.exit_on_error`
  abbrev pub raises : RestoreItemResult → Bool
  raises r = is_some r.fatal && self.options.exit_on_error

  -- One turn of one worker.
  pub data Move (m : Shared S) : Worker → Shared S → Worker → Type 0 where
    halt : m.stop ≡ true → Move m ready m finished
    go_on : m.stop ≡ false → Move m ready m claiming
    run_out : length items ≤ m.next → Move m claiming (record m { next = suc m.next }) finished
    claim :
        m.next < length items → Move m claiming (record m { next = suc m.next }) (running m.next)
    fail :
        {i : ℕ} {item : RestoreItem} {r : RestoreItemResult} {t : S}
        → item_at items i ≡ some item
        → restore_item self dump_id item.db item.coll m.target ≡ some (r, t)
        → raises r ≡ true
        → Move m (running i) (record m { target = t }) (stopping i r)
    restore :
        {i : ℕ} {item : RestoreItem} {r : RestoreItemResult} {t : S}
        → item_at items i ≡ some item
        → restore_item self dump_id item.db item.coll m.target ≡ some (r, t)
        → raises r ≡ false
        → Move m (running i) (record m { target = t }) (storing i r)
    raise :
        {i : ℕ} {r : RestoreItemResult}
        → Move m (stopping i r) (record m { stop = true }) (storing i r)
    store :
        {i : ℕ} {r : RestoreItemResult}
        → Move m (storing i r) (record m { results = fill m.results i r }) ready

  -- Any worker may take the next turn.
  pub data Step (m : Shared S) (workers : List Worker) (m' : Shared S) (workers' : List Worker)
      : Type 0 where
    turn :
        (before after : List Worker) {w w' : Worker}
        → workers ≡ before ++ w ∷ after
        → Move m w m' w'
        → workers' ≡ before ++ w' ∷ after
        → Step m workers m' workers'

  -- What `jobs` workers that begin with the target s may reach.
  pub data Reach (jobs : ℕ) (s : S) : Shared S → List Worker → Type 0 where
    start : Reach jobs s (start_of s) (at_loop jobs)
    later :
        {m m' : Shared S} {ws ws' : List Worker}
        → Reach jobs s m ws
        → Step m ws m' ws'
        → Reach jobs s m' ws'

-- The results in the order of the items, from the index on: `unwrap_or_default` of each slot.
unfoldable pub collect : (ℕ → Option RestoreItemResult) → ℕ → ℕ → List RestoreItemResult
collect results i zero = []
collect results i (suc n) = unwrap_or (results i) untouched ∷ collect results (suc i) n
