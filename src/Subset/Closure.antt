-- ===== src/Subset/Closure.antt =====
-- The subset that the engine computes is the referential closure of its seeds.
use leafmask.Prelude.{
  Text, none, some, List, [], ◌∷◌, ◌++◌, ◌≡◌, refl, sym, ap, ◌∙◌, inl, inr, In, In-append,
  In-append_left, In-append_right, Option-cases,
}
use leafmask.Prelude.Result.{Result, ok, err, ◌>>=◌, Result-cases, >>=-eq-ok}
use leafmask.Bson.{Bson, Document, BsonApi}
use leafmask.FieldPath.{get_path}
use leafmask.Reference.{VirtualReference, resolve_target}
use leafmask.Subset.Worklist.{Traversal, admit_all}
use leafmask.Subset.Engine.{DocumentSource, Node, nodes_of, key, follow_edge, follow_edges}

pub In-nodes_of :
    (c : Text) (docs : List Document) (d : Document) → In d docs → In (c, d) (nodes_of c docs)
In-nodes_of c [] d i = i
In-nodes_of c (e ∷ docs) d (inl same) = inl (ap (λ x. (c, x)) same)
In-nodes_of c (e ∷ docs) d (inr i) = inr (In-nodes_of c docs d i)

pub nodes_of-In :
    (c : Text) (docs : List Document) (n : Node) → In n (nodes_of c docs) → (n.0 ≡ c) × In n.1 docs
nodes_of-In c [] n i = absurd i
nodes_of-In c (e ∷ docs) n (inl same) = (ap (λ m. m.0) same, inl (ap (λ m. m.1) same))
nodes_of-In c (e ∷ docs) n (inr i) = let (a, b) = nodes_of-In c docs n i in (a, inr b)

pub admit_all-append :
    {N : Type 0} (k : N → Text) (ns ms : List N) (s : Traversal N)
    → admit_all k (ns ++ ms) s ≡ admit_all k ms (admit_all k ns s)
unfolding admit_all
admit_all-append k [] ms s = refl
admit_all-append k (n ∷ ns) ms s = admit_all-append k ns ms _

module _ ⦃api : BsonApi⦄ (source : DocumentSource) where
  -- The documents that one reference of a document leads to.
  edge_nodes : Document → VirtualReference → Result (List Node)
  edge_nodes doc edge = elim (resolve_target edge doc) [
    | none ↦ ok []
    | some target ↦ elim (get_path doc edge.from_field) [
      | none ↦ ok []
      | some value ↦ source.find_by target edge.to_field value >>= λ docs. ok (nodes_of target docs)
    ]
  ]

  pub all_nodes : Document → List VirtualReference → Result (List Node)
  all_nodes doc [] = ok []
  all_nodes doc (edge ∷ edges) =
      edge_nodes doc edge >>= λ ns. all_nodes doc edges >>= λ ms. ok (ns ++ ms)

  found_nodes :
      (r : Result (List Document)) (target : Text) (s : Traversal Node)
      → (r >>= λ docs. ok (admit_all key (nodes_of target docs) s))
        ≡ (r >>= (λ docs. ok (nodes_of target docs)) >>= λ ns. ok (admit_all key ns s))
  found_nodes (ok docs) target s = refl
  found_nodes (err e) target s = refl

  follow_edge-eq :
      (doc : Document) (edge : VirtualReference) (s : Traversal Node)
      → follow_edge source doc edge s ≡ (edge_nodes doc edge >>= λ ns. ok (admit_all key ns s))
  unfolding follow_edge edge_nodes admit_all
  follow_edge-eq doc edge s = elim (Option-cases (resolve_target edge doc)) [
    | inl e ↦ rw (e, follow_edge, edge_nodes)
    | inr (t, e) ↦ elim (Option-cases (get_path doc edge.from_field)) [
      | inl g ↦ rw (e, g, follow_edge, edge_nodes)
      | inr (v, g) ↦
          rw (e, g, follow_edge, edge_nodes) (found_nodes (source.find_by t edge.to_field v) t s)
    ]
  ]

  chain :
      (r : Result (List Node)) (ns : List Node) (s : Traversal Node)
      → (r >>= λ ms. ok (admit_all key ms (admit_all key ns s)))
        ≡ (r >>= (λ ms. ok (ns ++ ms)) >>= λ all. ok (admit_all key all s))
  chain (ok ms) ns s = ap ok (sym (admit_all-append key ns ms s))
  chain (err e) ns s = refl

  pub follow_edges-eq :
      (doc : Document) (edges : List VirtualReference) (s : Traversal Node)
      → follow_edges source doc edges s ≡ (all_nodes doc edges >>= λ ns. ok (admit_all key ns s))
  unfolding follow_edges all_nodes
  follow_edges-eq doc [] s = unfold admit_all in refl
  follow_edges-eq doc (edge ∷ edges) s =
      let ih = λ (t : Traversal Node). follow_edges-eq doc edges t in
      elim (Result-cases (edge_nodes doc edge)) [
        | inl (ns, e) ↦
            rw (follow_edge-eq doc edge s, e)
              (ih (admit_all key ns s) ∙ chain (all_nodes doc edges) ns s)
        | inr (x, e) ↦ rw (follow_edge-eq doc edge s, e)
      ]

  -- The document m is read for the reference `edge` of n.
  abbrev pub Reads : Node → VirtualReference → Node → Type 0
  Reads n edge m =
      (v : Bson) × (docs : List Document) × (resolve_target edge n.1 ≡ some m.0)
      × (get_path n.1 edge.from_field ≡ some v)
      × (source.find_by m.0 edge.to_field v ≡ ok docs)
      × In m.1 docs

  no_target :
      (doc : Document) (edge : VirtualReference)
      → resolve_target edge doc ≡ none
      → edge_nodes doc edge ≡ ok []
  unfolding edge_nodes
  no_target doc edge e = rw (e, edge_nodes)

  no_value :
      (doc : Document) (edge : VirtualReference) (t : Text)
      → resolve_target edge doc ≡ some t
      → get_path doc edge.from_field ≡ none
      → edge_nodes doc edge ≡ ok []
  unfolding edge_nodes
  no_value doc edge t e g = rw (e, g, edge_nodes)

  found_value :
      (doc : Document) (edge : VirtualReference) (t : Text) (v : Bson)
      → resolve_target edge doc ≡ some t
      → get_path doc edge.from_field ≡ some v
      → edge_nodes doc edge ≡ (source.find_by t edge.to_field v >>= λ docs. ok (nodes_of t docs))
  unfolding edge_nodes
  found_value doc edge t v e g = rw (e, g, edge_nodes)

  ok-eq : {A : Type 0} {a b : A} → ok a ≡ ok b → a ≡ b
  ok-eq e = cc

  some-eq : {A : Type 0} {a b : A} → some a ≡ some b → a ≡ b
  some-eq e = cc

  In-nil : {ns : List Node} (n : Node) → ok [] ≡ ok ns → ¬ In n ns
  In-nil n e i = rw (← ok-eq e) at i

  edge_nodes-Reads :
      (n : Node) (edge : VirtualReference) (ns : List Node) (m : Node)
      → edge_nodes n.1 edge ≡ ok ns
      → In m ns
      → Reads n edge m
  edge_nodes-Reads n edge ns m e i = elim (Option-cases (resolve_target edge n.1)) [
    | inl t ↦ absurd (In-nil m (sym (no_target n.1 edge t) ∙ e) i)
    | inr (c, t) ↦ elim (Option-cases (get_path n.1 edge.from_field)) [
      | inl g ↦ absurd (In-nil m (sym (no_value n.1 edge c t g) ∙ e) i)
      | inr (v, g) ↦
          let (docs, f, same) =
            >>=-eq-ok (source.find_by c edge.to_field v) (λ ds. ok (nodes_of c ds))
              (sym (found_value n.1 edge c v t g) ∙ e) in
          let (at, member) = nodes_of-In c docs m (rw (← ok-eq same) at i) in
          (v, docs, rw at t, g, rw at f, member)
    ]
  ]

  Reads-edge_nodes :
      (n : Node) (edge : VirtualReference) (ns : List Node) (m : Node)
      → edge_nodes n.1 edge ≡ ok ns
      → Reads n edge m
      → In m ns
  Reads-edge_nodes n edge ns m e (v, docs, t, g, f, i) =
      let found = sym (found_value n.1 edge m.0 v t g) ∙ e in
      let same : nodes_of m.0 docs ≡ ns = ok-eq (rw f at found) in
      rw (← same) (In-nodes_of m.0 docs m.1 i)

  pub all_nodes-Reads :
      (n : Node) (edges : List VirtualReference) (ns : List Node) (m : Node)
      → all_nodes n.1 edges ≡ ok ns
      → In m ns
      → (edge : VirtualReference) × In edge edges × Reads n edge m
  unfolding all_nodes
  all_nodes-Reads n [] ns m e i = absurd (In-nil m e i)
  all_nodes-Reads n (edge ∷ edges) ns m e i =
      let (ms, f, e') = >>=-eq-ok (edge_nodes n.1 edge) _ e in
      let (rest, f', same) = >>=-eq-ok (all_nodes n.1 edges) _ e' in
      let below = all_nodes-Reads n edges rest m f' in
      elim ((In-append m ms rest).0 (rw (← ok-eq same) at i)) [
        | inl here ↦ (edge, inl refl, edge_nodes-Reads n edge ms m f here)
        | inr there ↦ let (x, at, r) = below there in (x, inr at, r)
      ]

  pub Reads-all_nodes :
      (n : Node) (edges : List VirtualReference) (ns : List Node) (m : Node)
      → all_nodes n.1 edges ≡ ok ns
      → (edge : VirtualReference) → In edge edges
      → Reads n edge m
      → In m ns
  unfolding all_nodes
  Reads-all_nodes n [] ns m e edge i r = absurd i
  Reads-all_nodes n (x ∷ edges) ns m e edge i r =
      let (ms, f, e') = >>=-eq-ok (edge_nodes n.1 x) _ e in
      let (rest, f', same) = >>=-eq-ok (all_nodes n.1 edges) _ e' in
      let below = Reads-all_nodes n edges rest m f' edge in
      rw (← ok-eq same) (elim i [
        | inl here ↦ In-append_left m ms rest (Reads-edge_nodes n x ms m f (rw here at r))
        | inr there ↦ In-append_right m ms rest (below there r)
      ])
