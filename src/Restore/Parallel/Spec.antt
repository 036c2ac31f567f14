-- ===== src/Restore/Parallel/Spec.antt =====
-- What `restore_items_parallel` promises of each item, and that its workers keep the promise: an
-- item is begun at most once, by one worker, and ends with what restoring it returned.
use leafmask.Prelude.{
  ℕ, zero, suc, ◌<◌, Text, Option, none, some, List, ◌∷◌, ◌++◌, ◌≡◌, ◌≢◌, refl, ap, All, length,
  arith,
}
use leafmask.Dump.Reader.{BsonCodec}
use leafmask.Restore.Collection.{Restore, RestoreItemResult}
use leafmask.Restore.Run.{RestoreItem}
use leafmask.Restore.Parallel.{
  Worker, ready, claiming, running, storing, Shared, fill, Move, halt, go_on, run_out, claim, fail,
  restore, raise, store, Step, turn, Reach, start, later, at_loop,
}
use leafmask.Restore.Parallel.Claims.{Claimed, holds, held, held-append, turn-slot}
use leafmask.Restore.Parallel.Turns.{Came, Good, All-here}
use leafmask.Restore.Parallel.Invariant.{Reach-Inv, held-at_loop}

-- An item as the specification sees it.
pub data Status : Type 0 where
  pending : Status
  claimed : Status
  reported : RestoreItemResult → Status

abbrev pub status_of : Option RestoreItemResult → ℕ → Status
status_of (some r) n = reported r
status_of none zero = pending
status_of none (suc n) = claimed

-- The slot of the item, or else whether a worker has it.
abbrev pub status : {S : Type 0} → Shared S → List Worker → ℕ → Status
status m ws k = status_of (m.results k) (held k ws)

fill-here :
    (results : ℕ → Option RestoreItemResult) (i : ℕ) (r : RestoreItemResult)
    → fill results i r i ≡ some r
fill-here results i r = ground arith

is_pending : (o : Option RestoreItemResult) (n : ℕ) → o ≡ none → n ≡ 0 → status_of o n ≡ pending
is_pending o n e f = rw (e, f) refl

is_claimed : (o : Option RestoreItemResult) (n : ℕ) → o ≡ none → n ≡ 1 → status_of o n ≡ claimed
is_claimed o n e f = rw (e, f) refl

module _ {S : Type 0} ⦃codec : BsonCodec⦄ (self : Restore S) (dump_id : Text)
    (items : List RestoreItem) where
  pub data Advance (i : ℕ) : Status → Status → Type 0 where
    begins : Advance i pending claimed
    ends : {r : RestoreItemResult} → Came self dump_id items i r → Advance i claimed (reported r)

  -- Nothing changes, or one item advances.
  pub data SpecStep (a a' : ℕ → Status) : Type 0 where
    idle : ((k : ℕ) → a' k ≡ a k) → SpecStep a a'
    advance :
        (i : ℕ)
        → i < length items
        → Advance i (a i) (a' i)
        → ((k : ℕ) → k ≢ i → a' k ≡ a k)
        → SpecStep a a'

  pub data SpecReach : (ℕ → Status) → Type 0 where
    begin : {a : ℕ → Status} → ((k : ℕ) → a k ≡ pending) → SpecReach a
    next : {a a' : ℕ → Status} → SpecReach a → SpecStep a a' → SpecReach a'

  begins_at : (i : ℕ) (a b : Status) → a ≡ pending → b ≡ claimed → Advance i a b
  begins_at i a b e f = rw (e, f) begins

  ends_at :
      (i : ℕ) (r : RestoreItemResult) (a b : Status)
      → Came self dump_id items i r
      → a ≡ claimed
      → b ≡ reported r
      → Advance i a b
  ends_at i r a b came e f = rw (e, f) (ends came)

  -- A claim is of an item that no worker holds and whose slot is empty.
  unclaimed :
      (m : Shared S) (ws : List Worker)
      → Claimed self dump_id items m ws
      → (m.results m.next ≡ none) × (held m.next ws ≡ 0)
  unclaimed m ws claims = ground (arith, claims m.next)

  -- The worker's turn changes nothing but where it stands, and it holds what it held.
  same_status :
      (before after : List Worker) (m m' : Shared S) (w w' : Worker)
      → m'.results ≡ m.results
      → ((k : ℕ) → holds k w' ≡ holds k w)
      → (k : ℕ) → status m' (before ++ w' ∷ after) k ≡ status m (before ++ w ∷ after) k
  same_status before after m m' w w' slots held_same k =
      let hold : held k (before ++ w' ∷ after) ≡ held k (before ++ w ∷ after) =
        omega (
          arith,
          held_same k,
          held-append k before (w' ∷ after),
          held-append k before (w ∷ after),
        ) in
      rw (slots, hold) refl

  turn-SpecStep :
      (before after : List Worker) {m m' : Shared S} {w w' : Worker}
      → Move self dump_id items m w m' w'
      → Claimed self dump_id items m (before ++ w ∷ after)
      → Good self dump_id items m w
      → SpecStep (status m (before ++ w ∷ after)) (status m' (before ++ w' ∷ after))
  turn-SpecStep before after {m} {m'} {w} {w'} (halt e) claims g =
      idle (same_status before after m m' w w' refl (λ k. refl))
  turn-SpecStep before after {m} {m'} {w} {w'} (go_on e) claims g =
      idle (same_status before after m m' w w' refl (λ k. refl))
  turn-SpecStep before after {m} {m'} {w} {w'} (run_out e) claims g =
      idle (same_status before after m m' w w' refl (λ k. refl))
  turn-SpecStep before after {m} {m'} {w} {w'} (fail e f h) claims g =
      idle (same_status before after m m' w w' refl (λ k. refl))
  turn-SpecStep before after {m} {m'} {w} {w'} (restore e f h) claims g =
      idle (same_status before after m m' w w' refl (λ k. refl))
  turn-SpecStep before after {m} {m'} {w} {w'} raise claims g =
      idle (same_status before after m m' w w' refl (λ k. refl))
  turn-SpecStep before after {m} {m'} {w} {w'} (claim e) claims g =
      let (empty, free) = unclaimed m (before ++ claiming ∷ after) claims in
      let one : held m.next (before ++ running m.next ∷ after) ≡ 1 = ground (
        arith,
        free,
        held-append m.next before (running m.next ∷ after),
        held-append m.next before (claiming ∷ after),
      ) in
      advance m.next e (begins_at m.next _ _ (is_pending _ _ empty free) (is_claimed _ _ empty one))
        (λ k other.
          let hold : held k (before ++ running m.next ∷ after)
              ≡ held k (before ++ claiming ∷ after) =
            ground (
              arith,
              other,
              held-append k before (running m.next ∷ after),
              held-append k before (claiming ∷ after),
            ) in
          rw hold refl)
  turn-SpecStep before after {m} {m'} {w} {w'} (store {i} {r}) claims came =
      let (empty, below) = turn-slot self dump_id items before after m i r claims in
      let one : held i (before ++ storing i r ∷ after) ≡ 1 =
        ground (arith, claims i, held-append i before (storing i r ∷ after)) in
      advance i below
        (ends_at i r _ _ came (is_claimed _ _ empty one)
          (ap (λ o. status_of o (held i (before ++ ready ∷ after))) (fill-here m.results i r)))
        (λ k other.
          let hold : held k (before ++ ready ∷ after) ≡ held k (before ++ storing i r ∷ after) =
            ground (
              arith,
              other,
              held-append k before (ready ∷ after),
              held-append k before (storing i r ∷ after),
            ) in
          let slot : fill m.results i r k ≡ m.results k = ground (arith, other) in
          rw (slot, hold) refl)

  Step-SpecStep :
      {m m' : Shared S} {ws ws' : List Worker}
      → Step self dump_id items m ws m' ws'
      → Claimed self dump_id items m ws
      → All (Good self dump_id items m) ws
      → SpecStep (status m ws) (status m' ws')
  Step-SpecStep {m} {m'} (turn before after {w} {w'} e move f) claims good =
      rw (e, f)
        (turn-SpecStep before after move (rw e at claims)
          (All-here (Good self dump_id items m) before after w (rw e at good)))

  -- The workers of a parallel restore, in whatever order they take their turns, do what the
  -- specification allows: seen as the states of the items, every state that they reach is one that
  -- the specification reaches from all items pending, where each step begins one pending item or
  -- ends one begun item with a result that restoring it returned.
  pub Reach-SpecReach :
      {jobs : ℕ} {s : S} {m : Shared S} {ws : List Worker}
      → Reach self dump_id items jobs s m ws
      → SpecReach (status m ws)
  Reach-SpecReach {jobs} {s} start =
      begin (λ k. is_pending none (held k (at_loop jobs)) refl (held-at_loop k jobs))
  Reach-SpecReach (later {m} {m'} {ws} {ws'} reach step) =
      let inv = Reach-Inv self dump_id items reach in
      next (Reach-SpecReach reach) (Step-SpecStep step inv.claims inv.good)
