-- ===== src/Restore/Parallel/Invariant.antt =====
-- What holds in every state that the workers reach.
use leafmask.Prelude.{
  ℕ, zero, suc, Text, true, some, List, ◌∷◌, ◌++◌, ◌≡◌, refl, length, All, arith, length-append,
}
use leafmask.Dump.Reader.{BsonCodec}
use leafmask.Restore.Collection.{Restore, RestoreItemResult}
use leafmask.Restore.Run.{RestoreItem}
use leafmask.Restore.Parallel.{
  Worker, Shared, Move, Step, turn, Reach, start, later, start_of, at_loop,
}
use leafmask.Restore.Parallel.Claims.{Claimed, turn-Claimed, held}
use leafmask.Restore.Parallel.Turns.{
  Came, Good, Raised, All-here, All-turn, Good-mono, Move-later, Move-Good, turn-slots, turn-Raised,
}

pub held-at_loop : (k jobs : ℕ) → held k (at_loop jobs) ≡ 0
held-at_loop k zero = refl
held-at_loop k (suc jobs) = omega (arith, held-at_loop k jobs)

length-at_loop : (jobs : ℕ) → length (at_loop jobs) ≡ jobs
length-at_loop zero = refl
length-at_loop (suc jobs) = omega (arith, length-at_loop jobs)

module _ {S : Type 0} ⦃codec : BsonCodec⦄ (self : Restore S) (dump_id : Text)
    (items : List RestoreItem) where
  pub record Inv (jobs : ℕ) (m : Shared S) (ws : List Worker) : Type 0 where
    pub claims : Claimed self dump_id items m ws
    pub staffed : length ws ≡ jobs
    pub good : All (Good self dump_id items m) ws
    pub slots : (i : ℕ) (r : RestoreItemResult) → m.results i ≡ some r → Came self dump_id items i r
    pub raised : m.stop ≡ true → Raised self dump_id items m ws

  turn-Inv :
      (jobs : ℕ) (before after : List Worker) {m m' : Shared S} {w w' : Worker}
      → Move self dump_id items m w m' w'
      → Inv jobs m (before ++ w ∷ after)
      → Inv jobs m' (before ++ w' ∷ after)
  turn-Inv jobs before after {m} {m'} {w} {w'} move inv =
      let (up, on) = Move-later self dump_id items move in
      let mine = All-here (Good self dump_id items m) before after w inv.good in
      record {
        claims = turn-Claimed self dump_id items before after move inv.claims;
        staffed = omega (
          arith,
          inv.staffed,
          length-append before (w ∷ after),
          length-append before (w' ∷ after),
        );
        good =
            All-turn before after (Good-mono self dump_id items m m' up on)
              (Move-Good self dump_id items move) inv.good;
        slots = turn-slots self dump_id items before after move mine inv.slots;
        raised = turn-Raised self dump_id items before after move inv.claims mine inv.raised;
      }

  Step-Inv :
      (jobs : ℕ) {m m' : Shared S} {ws ws' : List Worker}
      → Step self dump_id items m ws m' ws'
      → Inv jobs m ws
      → Inv jobs m' ws'
  Step-Inv jobs (turn before after e move f) inv =
      rw f (turn-Inv jobs before after move (rw e at inv))

  at_loop-Inv : (jobs : ℕ) (s : S) → Inv jobs (start_of s) (at_loop jobs)
  at_loop-Inv jobs s = record {
    claims = λ k. ground (arith, held-at_loop k jobs);
    staffed = length-at_loop jobs;
    good = good jobs;
    slots = λ i r e. cc;
    raised = λ e. cc;
  }
    where
      good : (n : ℕ) → All (Good self dump_id items (start_of s)) (at_loop n)
      good zero = tt
      good (suc n) = (tt, good n)

  -- Every state that the workers reach satisfies the invariant.
  pub Reach-Inv :
      {jobs : ℕ} {s : S} {m : Shared S} {ws : List Worker}
      → Reach self dump_id items jobs s m ws
      → Inv jobs m ws
  Reach-Inv {jobs} {s} start = at_loop-Inv jobs s
  Reach-Inv {jobs} {s} (later reach step) = Step-Inv jobs step (Reach-Inv reach)
