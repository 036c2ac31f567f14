-- ===== src/Subset/Engine.antt =====
-- `SubsetEngine` of subset/database_subsetting.rs.
use leafmask.Prelude.{
  ℕ, Text, codes, text_eq, Option, none, some, List, [], ◌∷◌, ◌++◌, map, if◌then◌else◌,
}
use leafmask.Prelude.Result.{Result, ok, err, ◌>>=◌}
use leafmask.Bson.{Bson, Document, BsonApi}
use leafmask.FieldPath.{get_path}
use leafmask.Condition.Eval.{Condition, parse}
use leafmask.Reference.{VirtualReference, ReferenceGraph, resolve_target, references_from}
use leafmask.Subset.Worklist.{Traversal, fresh, admit_all, walk}

-- The `DocumentSource` trait: what the traversal reads documents from.
pub record DocumentSource : Type 0 where
  pub seed : Text → Condition → Result (List Document)
  pub find_by : Text → Text → Bson → Result (List Document)

-- A document with the collection that it stands in.
abbrev pub Node : Type 0
Node = Text × Document

-- The conditions in the order of a BTreeMap.
pub record SubsetEngine : Type 0 where
  pub graph : ReferenceGraph
  pub conds : List (Text × Condition)

unfoldable pub parse_conds : List (Text × Text) → Result (List (Text × Condition))
parse_conds [] = ok []
parse_conds ((collection, expr) ∷ rest) = do
  cond ← parse expr
  parsed ← parse_conds rest
  ok ((collection, cond) ∷ parsed)

unfoldable pub new : ReferenceGraph → List (Text × Text) → Result SubsetEngine
unfolding parse_conds
new graph conds = do parsed ← parse_conds conds; ok (record { graph = graph; conds = parsed })

abbrev pub nodes_of : Text → List Document → List Node
nodes_of collection docs = map (λ d. (collection, d)) docs

module _ ⦃api : BsonApi⦄ where
  unfoldable pub doc_id : Document → Text
  doc_id doc = elim (api.get doc (codes "_id")) [ some v ↦ api.display v | none ↦ api.debug doc ]

  unfoldable pub key : Node → Text
  key (collection, doc) = collection ++ (codes ":" ++ doc_id doc)

  module _ (source : DocumentSource) where
    unfoldable pub seed_all : List (Text × Condition) → Traversal Node → Result (Traversal Node)
    seed_all [] s = ok s
    seed_all ((collection, cond) ∷ conds) s = source.seed collection cond >>= λ docs.
        seed_all conds (admit_all key (nodes_of collection docs) s)

    -- One reference of a document: skipped if its target or its value is missing.
    unfoldable pub follow_edge :
        Document → VirtualReference → Traversal Node → Result (Traversal Node)
    follow_edge doc edge s = elim (resolve_target edge doc) [
      | none ↦ ok s
      | some target ↦ elim (get_path doc edge.from_field) [
        | none ↦ ok s
        | some value ↦ source.find_by target edge.to_field value >>= λ docs.
            ok (admit_all key (nodes_of target docs) s)
      ]
    ]

    unfoldable pub follow_edges :
        Document → List VirtualReference → Traversal Node → Result (Traversal Node)
    follow_edges doc [] s = ok s
    follow_edges doc (edge ∷ edges) s = follow_edge doc edge s >>= λ t. follow_edges doc edges t

    -- The body of the loop of `traverse`.
    unfoldable pub follow : ReferenceGraph → Node → Traversal Node → Result (Traversal Node)
    follow graph (collection, doc) s = follow_edges doc (references_from graph collection) s

    abbrev pub start_walk :
        ReferenceGraph → ℕ → Result (Traversal Node) → Option (Result (Traversal Node))
    start_walk graph fuel (ok s) = walk (follow graph) fuel s
    start_walk graph fuel (err e) = some (err e)

    unfoldable pub traverse : SubsetEngine → ℕ → Option (Result (Traversal Node))
    traverse engine fuel = start_walk engine.graph fuel (seed_all engine.conds fresh)

-- `entry(collection).or_default().push(value)`
unfoldable pub push_to : {A : Type 0} → Text → A → List (Text × List A) → List (Text × List A)
push_to c v [] = (c, v ∷ []) ∷ []
push_to c v ((d, vs) ∷ m) =
    let rest = push_to c v m in if text_eq d c then (d, vs ++ v ∷ []) ∷ m else (d, vs) ∷ rest

unfoldable pub group : List Node → List (Text × List Document) → List (Text × List Document)
unfolding push_to
group [] m = m
group ((c, d) ∷ ns) m = group ns (push_to c d m)

module _ ⦃api : BsonApi⦄ where
  abbrev pub push_id : Option Bson → Text → List (Text × List Bson) → List (Text × List Bson)
  push_id none c m = m
  push_id (some id) c m = push_to c id m

  unfoldable pub group_ids : List Node → List (Text × List Bson) → List (Text × List Bson)
  unfolding push_to
  group_ids [] m = m
  group_ids ((c, d) ∷ ns) m = group_ids ns (push_id (api.get d (codes "_id")) c m)

abbrev pub result_map {ℓ} : {A B : Type ℓ} → (A → B) → Option (Result A) → Option (Result B)
result_map f none = none
result_map f (some (ok a)) = some (ok (f a))
result_map f (some (err e)) = some (err e)

module _ ⦃api : BsonApi⦄ (source : DocumentSource) where
  unfoldable pub compute : SubsetEngine → ℕ → Option (Result (List (Text × List Document)))
  unfolding traverse group
  compute engine fuel = result_map (λ s. group s.admitted []) (traverse source engine fuel)

  unfoldable pub compute_ids : SubsetEngine → ℕ → Option (Result (List (Text × List Bson)))
  unfolding traverse group_ids
  compute_ids engine fuel = result_map (λ s. group_ids s.admitted []) (traverse source engine fuel)
