-- ===== src/Subset/Ends.antt =====
-- The traversal ends on a database with finitely many documents.
use leafmask.Prelude.{◌≤◌, Text, some, List, [], ◌∷◌, ◌≡◌, ◌∙◌, inl, inr, arith, length, In}
use leafmask.Prelude.Result.{Result, ok, err, Result-cases}
use leafmask.Bson.{Bson, Document, BsonApi}
use leafmask.Condition.Eval.{Condition}
use leafmask.Reference.{references_from}
use leafmask.Subset.Worklist.{Traversal, fresh}
use leafmask.Subset.Fuel.{unvisited, measure, admit_all-measure, walk-total}
use leafmask.Subset.Engine.{DocumentSource, Node, SubsetEngine, key, traverse}
use leafmask.Subset.Closure.{all_nodes-Reads}
use leafmask.Subset.Correct.{
  succs, Step, start, seed_nodes, seed_nodes-IsSeed, follow-Follows, traverse-start,
  traverse-failed,
}

unvisited-none : (u : List Text) → unvisited u [] ≡ length u
unvisited-none [] = omega arith
unvisited-none (k ∷ u) = omega (arith, unvisited-none u)

module _ ⦃api : BsonApi⦄ (source : DocumentSource) (engine : SubsetEngine)
    (universe : List Text) where
  -- The universe holds the keys of all documents that the source returns.
  pub record Bounded : Type 0 where
    pub seeds :
        (c : Text) (cond : Condition) (docs : List Document)
        → source.seed c cond ≡ ok docs
        → (d : Document) → In d docs
        → In (key (c, d)) universe
    pub reads :
        (c field : Text) (v : Bson) (docs : List Document)
        → source.find_by c field v ≡ ok docs
        → (d : Document) → In d docs
        → In (key (c, d)) universe

  module _ (bounded : Bounded) where
    start-measure :
        (ns : List Node)
        → seed_nodes source engine.conds ≡ ok ns
        → measure key universe (start source engine ns) ≤ length universe
    unfolding start
    start-measure ns e =
        let within = admit_all-measure key universe ns fresh (λ n i.
          let (cond, _, (docs, read, member)) = seed_nodes-IsSeed source engine.conds ns n e i in
          bounded.seeds n.0 cond docs read n.1 member) in
        omega (arith, within, unvisited-none universe)

    -- If the documents that the source returns have keys in a finite list, the traversal ends,
    -- with a result or an error, after at most as many rounds as the list is long.
    pub traverse-ends :
        (r : Result (Traversal Node)) × (traverse source engine (length universe) ≡ some r)
    unfolding Step succs
    traverse-ends = elim (Result-cases (seed_nodes source engine.conds)) [
      | inl (ns, e) ↦
          let (r, done) =
            walk-total key universe (Step source engine) (succs source engine.graph)
              (follow-Follows source engine.graph)
              (λ n ms found m i.
                let (edge, _, reads) =
                  all_nodes-Reads source n (references_from engine.graph n.0) ms m found i in
                let (v, docs, _, _, read, member) = reads in
                bounded.reads m.0 edge.to_field v docs read m.1 member)
              (length universe) (start source engine ns) (start-measure ns e) in
          (r, traverse-start source engine (length universe) ns e ∙ done)
      | inr (x, e) ↦ (err x, traverse-failed source engine (length universe) x e)
    ]
