-- ===== src/Restore/Parallel/Reported.antt =====
-- What the report of a parallel restore accounts for.
use leafmask.Prelude.{
  ℕ, zero, suc, ◌+◌, ◌≤◌, ◌<◌, Text, true, Option, none, some, List, [], ◌∷◌, ◌≡◌, ◌≢◌, refl,
  length, ◌⊎◌, inl, inr, In, nat_eq, nat_eq_iff, Bool-cases, Option-cases, arith,
}
use leafmask.Dump.Reader.{BsonCodec}
use leafmask.Restore.Collection.{Restore, RestoreItemResult}
use leafmask.Restore.Run.{RestoreItem}
use leafmask.Restore.Total.{NoFatal}
use leafmask.Restore.Parallel.{Worker, storing, Shared, Reach, Finished, collect}
use leafmask.Restore.Parallel.Claims.{held}
use leafmask.Restore.Parallel.Turns.{Came, Raised}
use leafmask.Restore.Parallel.Invariant.{Inv, Reach-Inv}

Finished-held : (k : ℕ) (ws : List Worker) → Finished ws → held k ws ≡ 0
Finished-held k [] h = refl
Finished-held k (w ∷ ws) (e, rest) = rw e (omega (arith, Finished-held k ws rest))

Finished-storing :
    (ws : List Worker) (i : ℕ) (r : RestoreItemResult) → Finished ws → In (storing i r) ws → ⊥
Finished-storing [] i r h m = elim m [ ]
Finished-storing (w ∷ ws) i r (e, rest) (inl f) = cc
Finished-storing (w ∷ ws) i r (e, rest) (inr m) = Finished-storing ws i r rest m

NoFatal-collect :
    (results : ℕ → Option RestoreItemResult) (from n k : ℕ) (r : RestoreItemResult)
    → NoFatal (collect results from n)
    → from ≤ k
    → k < from + n
    → results k ≡ some r
    → r.fatal ≡ none
unfolding collect
NoFatal-collect results from zero k r h low below e = absurd (omega (arith, low, below))
NoFatal-collect results from (suc n) k r h low below e = elim (Bool-cases (nat_eq from k)) [
  | inl same ↦
      let here : results from ≡ some r = rw ((nat_eq_iff from k).0 same) e in rw here at h.0
  | inr other ↦
      NoFatal-collect results (suc from) n k r h.1 (ground (arith, other, low))
        (omega (arith, below)) e
]

module _ {S : Type 0} ⦃codec : BsonCodec⦄ (self : Restore S) (dump_id : Text)
    (items : List RestoreItem) where
  -- Once every worker has finished, a worker saw the flag or the end of the items.
  Finished-ends :
      (jobs : ℕ) (m : Shared S) (ws : List Worker)
      → 0 < jobs
      → Inv self dump_id items jobs m ws
      → Finished ws
      → (m.stop ≡ true) ⊎ (length items ≤ m.next)
  Finished-ends jobs m [] some_job inv done = absurd (omega (arith, inv.staffed, some_job))
  Finished-ends jobs m (w ∷ ws) some_job inv (e, rest) = rw e at inv.good.0

  -- The flag is only up if a fatal result is in its slot.
  no_flag :
      (jobs : ℕ) (m : Shared S) (ws : List Worker)
      → Inv self dump_id items jobs m ws
      → Finished ws
      → NoFatal (collect m.results 0 (length items))
      → m.stop ≢ true
  no_flag jobs m ws inv done fine up = after (inv.raised up)
    where
      after : Raised self dump_id items m ws → ⊥
      after (i, r, fatal, inr member) = Finished-storing ws i r done member
      after (i, r, fatal, inl slot) =
          let below : i < length items = ground (arith, inv.claims i, slot) in
          let fatal_none : r.fatal ≡ none =
            NoFatal-collect m.results 0 (length items) i r fine (omega arith) (omega (arith, below))
              slot in
          absurd (cc (rw fatal_none at fatal))

  -- Every item was restored, and its result is not fatal.
  abbrev pub Reported : Shared S → ℕ → Type 0
  Reported m k =
      (r : RestoreItemResult) × (m.results k ≡ some r)
      × (r.fatal ≡ none)
      × Came self dump_id items k r

  pub all-Reported :
      {jobs : ℕ} {s : S} {m : Shared S} {ws : List Worker}
      → Reach self dump_id items jobs s m ws
      → 0 < jobs
      → Finished ws
      → NoFatal (collect m.results 0 (length items))
      → (k : ℕ) → k < length items
      → Reported m k
  all-Reported {jobs} {s} {m} {ws} reach some_job done fine k below =
      elim (Finished-ends jobs m ws some_job inv done) [
        | inl up ↦ absurd (no_flag jobs m ws inv done fine up)
        | inr ended ↦ elim (Option-cases (m.results k)) [
          | inl empty ↦ absurd (ground (arith, inv.claims k, Finished-held k ws done, empty, ended))
          | inr (r, e) ↦ (
            r,
            e,
            NoFatal-collect m.results 0 (length items) k r fine (omega arith) (omega (arith, below))
                e,
            inv.slots k r e,
          )
        ]
      ]
    where
      inv : Inv self dump_id items jobs m ws
      inv = Reach-Inv self dump_id items reach
