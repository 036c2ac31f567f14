-- ===== src/Subset/Correct.antt =====
-- The subset that the engine computes: the referential closure of the seeds, each document once.
use leafmask.Prelude.{
  ℕ, Text, some, List, [], ◌∷◌, ◌++◌, ◌≡◌, refl, sym, ap, ◌∙◌, inl, inr, In, In-append,
  In-append_left, In-append_right,
}
use leafmask.Prelude.Result.{Error, Result, ok, err, ◌>>=◌, Result-cases, >>=-eq-ok}
use leafmask.Bson.{Document, BsonApi}
use leafmask.Condition.Eval.{Condition}
use leafmask.Reference.{VirtualReference, ReferenceGraph, references_from}
use leafmask.Subset.Worklist.{Traversal, fresh, admit_all, walk}
use leafmask.Subset.Search.{
  Need, seeded, referenced, Inv, Inv-fresh, admit_all-Inv, admit_all-Grows,
}
use leafmask.Subset.Walk.{Succ, Ended, walk-Ended, IsClosed, Follows}
use leafmask.Subset.Engine.{
  DocumentSource, Node, SubsetEngine, nodes_of, key, seed_all, follow, traverse,
}
use leafmask.Subset.Closure.{
  In-nodes_of, nodes_of-In, admit_all-append, Reads, all_nodes, follow_edges-eq, all_nodes-Reads,
}

module _ ⦃api : BsonApi⦄ (source : DocumentSource) where
  -- A document that a condition of the configuration selects.
  abbrev pub IsSeed : List (Text × Condition) → Node → Type 0
  IsSeed conds n =
      (cond : Condition) × In (n.0, cond) conds
      × ((docs : List Document) × (source.seed n.0 cond ≡ ok docs) × In n.1 docs)

  -- m is read for a declared reference of n.
  abbrev pub References : ReferenceGraph → Node → Node → Type 0
  References graph n m =
      (edge : VirtualReference) × In edge (references_from graph n.0) × Reads source n edge m

  -- The documents that a referentially intact subset has to hold.
  abbrev pub Required : SubsetEngine → Node → Type 0
  Required engine = Need (IsSeed engine.conds) (References engine.graph)

  unfoldable pub succs : ReferenceGraph → Node → Result (List Node)
  succs graph n = all_nodes source n.1 (references_from graph n.0)

  pub follow-Follows : (graph : ReferenceGraph) → Follows key (follow source graph) (succs graph)
  unfolding follow succs
  follow-Follows graph n s = follow_edges-eq source n.1 (references_from graph n.0) s

  unfoldable pub seed_nodes : List (Text × Condition) → Result (List Node)
  seed_nodes [] = ok []
  seed_nodes ((c, cond) ∷ conds) =
      source.seed c cond >>= λ docs. seed_nodes conds >>= λ ns. ok (nodes_of c docs ++ ns)

  pub seed_all-eq :
      (conds : List (Text × Condition)) (s : Traversal Node)
      → seed_all source conds s ≡ (seed_nodes conds >>= λ ns. ok (admit_all key ns s))
  unfolding seed_all seed_nodes
  seed_all-eq [] s = unfold admit_all in refl
  seed_all-eq ((c, cond) ∷ conds) s =
      let ih = λ (t : Traversal Node). seed_all-eq conds t in
      elim (Result-cases (source.seed c cond)) [
        | inl (docs, e) ↦ rw e (
            ih (admit_all key (nodes_of c docs) s)
            ∙ join_seeds (seed_nodes conds) (nodes_of c docs))
        | inr (x, e) ↦ rw e
      ]
    where
      join_seeds :
          (r : Result (List Node)) (ns : List Node)
          → (r >>= λ ms. ok (admit_all key ms (admit_all key ns s)))
            ≡ (r >>= (λ ms. ok (ns ++ ms)) >>= λ all. ok (admit_all key all s))
      join_seeds (ok ms) ns = ap ok (sym (admit_all-append key ns ms s))
      join_seeds (err e) ns = refl

  pub In-none : (ns : List Node) (n : Node) → ok [] ≡ ok ns → ¬ In n ns
  In-none ns n e i = let none_left : [] ≡ ns = cc in rw (← none_left) at i

  pub seed_nodes-IsSeed :
      (conds : List (Text × Condition)) (ns : List Node) (n : Node)
      → seed_nodes conds ≡ ok ns
      → In n ns
      → IsSeed conds n
  unfolding seed_nodes
  seed_nodes-IsSeed [] ns n e i = absurd (In-none ns n e i)
  seed_nodes-IsSeed ((c, cond) ∷ conds) ns n e i =
      let (docs, read, e') = >>=-eq-ok (source.seed c cond) _ e in
      let (rest, more, same) = >>=-eq-ok (seed_nodes conds) _ e' in
      let below = seed_nodes-IsSeed conds rest n more in
      let all : nodes_of c docs ++ rest ≡ ns = cc in
      elim ((In-append n (nodes_of c docs) rest).0 (rw (← all) at i)) [
        | inl here ↦
            let (at, member) = nodes_of-In c docs n here in
            (cond, inl (ap (λ x. (x, cond)) at), (docs, rw at read, member))
        | inr there ↦ let (x, at, r) = below there in (x, inr at, r)
      ]

  pub IsSeed-seed_nodes :
      (conds : List (Text × Condition)) (ns : List Node) (n : Node)
      → seed_nodes conds ≡ ok ns
      → IsSeed conds n
      → In n ns
  unfolding seed_nodes
  IsSeed-seed_nodes [] ns n e (cond, i, r) = absurd i
  IsSeed-seed_nodes ((c, x) ∷ conds) ns n e (cond, i, (docs, read, member)) =
      let (found, read', e') = >>=-eq-ok (source.seed c x) _ e in
      let (rest, more, same) = >>=-eq-ok (seed_nodes conds) _ e' in
      let below = IsSeed-seed_nodes conds rest n more in
      let all : nodes_of c found ++ rest ≡ ns = cc in
      rw (← all) (elim i [
        | inl here ↦
            let at : n.0 ≡ c = ap (λ p. p.0) here in
            let what : cond ≡ x = ap (λ p. p.1) here in
            let same_docs : docs ≡ found = cc in
            let same_node : (c, n.1) ≡ n = ap (λ z. (z, n.1)) (sym at) in
            In-append_left n (nodes_of c found) rest
              (rw same_node at (In-nodes_of c found n.1 (rw same_docs at member)))
        | inr there ↦
            In-append_right n (nodes_of c found) rest (below (cond, there, (docs, read, member)))
      ])

  module _ (engine : SubsetEngine) where
    unfoldable pub Step : Node → Traversal Node → Result (Traversal Node)
    Step = follow source engine.graph

    pub keeps :
        (n m : Node)
        → Required engine n
        → Succ key Step (succs engine.graph) n m
        → Required engine m
    unfolding succs
    keeps n m r (ns, found, i) =
        referenced r (all_nodes-Reads source n (references_from engine.graph n.0) ns m found i)

    unfoldable pub start : List Node → Traversal Node
    start seeds = admit_all key seeds fresh

    pub start-Inv :
        (seeds : List Node)
        → seed_nodes engine.conds ≡ ok seeds
        → Inv key (Required engine) (start seeds)
    unfolding start
    start-Inv seeds e =
        admit_all-Inv key (Required engine) seeds fresh
          (λ n i. seeded (seed_nodes-IsSeed engine.conds seeds n e i))
          (Inv-fresh key (Required engine))

    pub start-IsClosed : (seeds : List Node) → IsClosed key Step (succs engine.graph) (start seeds)
    unfolding start
    start-IsClosed seeds n i = elim ((admit_all-Grows key seeds fresh).new n i) [
      | inl nothing ↦ absurd nothing
      | inr w ↦ inl w
    ]

    pub traverse-start :
        (fuel : ℕ) (seeds : List Node)
        → seed_nodes engine.conds ≡ ok seeds
        → traverse source engine fuel ≡ walk Step fuel (start seeds)
    unfolding traverse start Step
    traverse-start fuel seeds e = rw (seed_all-eq engine.conds fresh, e)

    pub traverse-failed :
        (fuel : ℕ) (x : Error)
        → seed_nodes engine.conds ≡ err x
        → traverse source engine fuel ≡ some (err x)
    unfolding traverse
    traverse-failed fuel x e = rw (seed_all-eq engine.conds fresh, e)

    pub traverse-Ended :
        (fuel : ℕ) (t : Traversal Node)
        → traverse source engine fuel ≡ some (ok t)
        → (seeds : List Node) × (seed_nodes engine.conds ≡ ok seeds)
          × Ended key Step (succs engine.graph) (Required engine) (start seeds) t
    unfolding Step
    traverse-Ended fuel t h = elim (Result-cases (seed_nodes engine.conds)) [
      | inl (seeds, e) ↦ (
        seeds,
        e,
        walk-Ended key Step (succs engine.graph) (follow-Follows engine.graph) (Required engine)
            keeps fuel (start seeds) t (start-Inv seeds e) (start-IsClosed seeds)
            (sym (traverse-start fuel seeds e) ∙ h),
      )
      | inr (x, e) ↦ cc (traverse-failed fuel x e, h)
    ]
