-- ===== src/Restore/Parallel/Claims.antt =====
-- Every index below the cursor is with one worker or has its result.
use leafmask.Prelude.{
  ℕ, ◌+◌, ◌<◌, Text, Bool, true, false, ◌&&◌, Option, none, List, [], ◌∷◌, ◌++◌, ◌≡◌, length,
  is_some, nat_eq, ltb, arith,
}
use leafmask.Dump.Reader.{BsonCodec}
use leafmask.Restore.Collection.{Restore, RestoreItemResult}
use leafmask.Restore.Run.{RestoreItem}
use leafmask.Restore.Parallel.{
  Worker, running, stopping, storing, Shared, Move, halt, go_on, run_out, claim, fail, restore,
  raise, store,
}

abbrev pub one_if : Bool → ℕ
one_if true = 1
one_if false = 0

-- Whether a worker holds the index.
abbrev pub holds : ℕ → Worker → ℕ
holds k (running i) = one_if (nat_eq i k)
holds k (stopping i r) = one_if (nat_eq i k)
holds k (storing i r) = one_if (nat_eq i k)
holds k _ = 0

abbrev pub held : ℕ → List Worker → ℕ
held k [] = 0
held k (w ∷ ws) = holds k w + held k ws

abbrev pub stored : ℕ → (ℕ → Option RestoreItemResult) → ℕ
stored k results = one_if (is_some (results k))

abbrev pub claimed : ℕ → ℕ → ℕ → ℕ
claimed k next n = one_if (ltb k next && ltb k n)

pub held-append : (k : ℕ) (xs ys : List Worker) → held k (xs ++ ys) ≡ held k xs + held k ys
held-append k [] ys = omega arith
held-append k (x ∷ xs) ys = omega (arith, held-append k xs ys)

module _ {S : Type 0} ⦃codec : BsonCodec⦄ (self : Restore S) (dump_id : Text)
    (items : List RestoreItem) where
  -- Each index that was claimed is held by one worker, or else its slot is full; no other is.
  abbrev pub Claimed : Shared S → List Worker → Type 0
  Claimed m ws = (k : ℕ) → held k ws + stored k m.results ≡ claimed k m.next (length items)

  -- A turn takes and gives back the same.
  Move-balance :
      {m m' : Shared S} {w w' : Worker}
      → Move self dump_id items m w m' w'
      → (k rest : ℕ) → rest + holds k w + stored k m.results ≡ claimed k m.next (length items)
      → rest + holds k w' + stored k m'.results ≡ claimed k m'.next (length items)
  Move-balance (halt e) k rest h = h
  Move-balance (go_on e) k rest h = h
  Move-balance (run_out e) k rest h = ground (arith, e, h)
  Move-balance (claim e) k rest h = ground (arith, e, h)
  Move-balance (fail e f g) k rest h = h
  Move-balance (restore e f g) k rest h = h
  Move-balance raise k rest h = h
  Move-balance (store {i} {r}) k rest h = ground (arith, h)

  pub turn-Claimed :
      (before after : List Worker) {m m' : Shared S} {w w' : Worker}
      → Move self dump_id items m w m' w'
      → Claimed m (before ++ w ∷ after)
      → Claimed m' (before ++ w' ∷ after)
  turn-Claimed before after {m} {m'} {w} {w'} move claims k =
      let rest = held k before + held k after in
      let was : rest + holds k w + stored k m.results ≡ claimed k m.next (length items) =
        omega (arith, claims k, held-append k before (w ∷ after)) in
      omega (arith, Move-balance move k rest was, held-append k before (w' ∷ after))

  -- A worker that stores a result finds its slot empty, and its index is one of the items.
  pub turn-slot :
      (before after : List Worker) (m : Shared S) (i : ℕ) (r : RestoreItemResult)
      → Claimed m (before ++ storing i r ∷ after)
      → (m.results i ≡ none) × (i < length items)
  turn-slot before after m i r claims =
      ground (arith, claims i, held-append i before (storing i r ∷ after))
