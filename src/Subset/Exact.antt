-- ===== src/Subset/Exact.antt =====
-- The subset that the engine computes is exactly what its conditions and references require.
use leafmask.Prelude.{ℕ, some, ◌≡◌, ◌↔◌, inl, inr, In}
use leafmask.Prelude.Result.{ok}
use leafmask.Bson.{BsonApi}
use leafmask.Reference.{references_from}
use leafmask.Subset.Worklist.{Traversal, fresh}
use leafmask.Subset.Search.{seeded, referenced, admit_all-visits}
use leafmask.Subset.Walk.{Done}
use leafmask.Subset.Engine.{DocumentSource, Node, SubsetEngine, key, traverse}
use leafmask.Subset.Closure.{Reads-all_nodes}
use leafmask.Subset.Correct.{
  IsSeed, References, Required, succs, Step, start, start-Inv, IsSeed-seed_nodes, traverse-Ended,
}

module _ ⦃api : BsonApi⦄ (source : DocumentSource) (engine : SubsetEngine) where
  -- The keys tell the required documents apart.
  abbrev pub Distinct : Type 0
  Distinct =
      (n m : Node) → Required source engine n → Required source engine m → key n ≡ key m → n ≡ m

  module _ (distinct : Distinct) (fuel : ℕ) (t : Traversal Node)
      (ended : traverse source engine fuel ≡ some (ok t)) where
    admitted-Required : (n : Node) → In n t.admitted → Required source engine n
    admitted-Required n i =
        let (seeds, _, final) = traverse-Ended source engine fuel t ended in final.inv.sound n i

    visited-admitted :
        (n : Node) → Required source engine n → In (key n) t.visited → In n t.admitted
    visited-admitted n r v =
        let (seeds, _, final) = traverse-Ended source engine fuel t ended in
        let (m, i, same) = final.inv.shown (key n) v in
        rw (distinct n m r (final.inv.sound m i) same) i

    seeds-admitted : (n : Node) → IsSeed source engine.conds n → In n t.admitted
    unfolding start
    seeds-admitted n h =
        let (seeds, e, final) = traverse-Ended source engine fuel t ended in
        let member = IsSeed-seed_nodes source engine.conds seeds n e h in
        let begun = start-Inv source engine seeds e in
        let (m, i, same) = begun.shown (key n) (admit_all-visits key seeds fresh n member) in
        rw (distinct n m (seeded h) (begun.sound m i) same) (final.grows m i)

    Done-all :
        (n : Node) → In n t.admitted → Done key (Step source engine) (succs source engine.graph) n t
    Done-all n i =
        let (seeds, _, final) = traverse-Ended source engine fuel t ended in
        elim (final.closed n i) [ inl w ↦ absurd (rw final.empty at w) | inr d ↦ d ]

    referenced-admitted :
        (n m : Node)
        → Required source engine n
        → In n t.admitted
        → References source engine.graph n m
        → In m t.admitted
    unfolding succs
    referenced-admitted n m r i (edge, at, reads) =
        let (ns, found, visits) = Done-all n i in
        visited-admitted m (referenced r (edge, at, reads)) (
          visits m
            (Reads-all_nodes source n (references_from engine.graph n.0) ns m found edge at reads))

    Required-admitted : (n : Node) → Required source engine n → In n t.admitted
    Required-admitted n (seeded h) = seeds-admitted n h
    Required-admitted n (referenced {n = k} r s) =
        referenced-admitted k n r (Required-admitted k r) s

    -- If the keys tell the required documents apart, a traversal that ends without an error has
    -- admitted exactly the documents that the conditions select and those that are read, over any
    -- number of steps, for their declared references.
    pub traverse-closure : (n : Node) → In n t.admitted ↔ Required source engine n
    traverse-closure n = (admitted-Required n, Required-admitted n)
