-- ===== src/Inheritance/Laws.antt =====
-- What `expand_inherited` keeps, adds and leaves alone.
use mathlib.Core.List.{append-nil, append_assoc}
use leafmask.Prelude.{
  Text, text_Eq, Bool, true, false, not, ◌||◌, List, [], ◌∷◌, ◌++◌, ◌≡◌, refl, sym, ap, inl, inr,
  filter, In, In-append, In-append_right, In-filter, Bool-cases, if◌then◌else◌,
}
use leafmask.Reference.{VirtualReference, ReferenceGraph}
use leafmask.Inheritance.{
  FieldTransform, has_explicit, points_here, has_inherited, inherited_by, inherit_edge,
  inherit_edges, inherit_all, expand_inherited,
}
use leafmask.Inheritance.Covers.{
  PointsAt, Covers, Inherits, Once, points_here_iff, explicit-Covers, Covers-explicit,
  inherited-Covers, Covers-inherited, Covers-left, Covers-right, Once-snoc,
}

module _ (explicit : List FieldTransform) (edges : List VirtualReference) where
  -- What the loops have added behind the explicit transformations.
  pub record Added (more : List FieldTransform) : Type 0 where
    pub inherits : (t : FieldTransform) → In t more → Inherits explicit edges t
    pub once : Once more

  Added-none : Added []
  Added-none = record { inherits = λ t i. absurd i; once = tt }

  Added-inherited :
      (more : List FieldTransform) (t : FieldTransform)
      → Added more
      → In t more
      → t.inherited ≡ true
  Added-inherited more t h i =
      let (src, edge, _, _, _, _, _, same) = h.inherits t i in ap (λ x. x.inherited) same

  Added-new :
      (src : FieldTransform) (edge : VirtualReference) (more : List FieldTransform)
      → In src explicit
      → src.apply_for_references ≡ true
      → In edge edges
      → PointsAt edge src
      → has_explicit explicit edge.from_collection edge.from_field ≡ false
      → has_inherited (explicit ++ more) edge.from_collection edge.from_field ≡ false
      → Added more
      → Added (more ++ inherited_by src edge ∷ [])
  Added-new src edge more i applies j points no_own no_other h = record {
    inherits = λ t k. elim ((In-append t more (inherited_by src edge ∷ [])).0 k) [
      | inl old ↦ h.inherits t old
      | inr l ↦ elim l [
        | inl same ↦ (
          src,
          edge,
          i,
          applies,
          j,
          points,
          λ own. cc (Covers-explicit explicit edge.from_collection edge.from_field own, no_own),
          same,
        )
        | inr nothing ↦ absurd nothing
      ]
    ];
    once =
        Once-snoc more (inherited_by src edge)
          (λ (t, k, e, g). cc (
            rw (e, g) at
                (Covers-inherited (explicit ++ more) t (In-append_right t explicit more k)
                  (Added-inherited more t h k)),
            no_other,
          ))
          h.once;
  }

  -- What the loops return: the explicit transformations, with inherited ones behind.
  pub record Extends (out : List FieldTransform) : Type 0 where
    pub more : List FieldTransform
    pub shape : out ≡ explicit ++ more
    pub added : Added more

  push_edge :
      (src : FieldTransform) (edge : VirtualReference) (more : List FieldTransform)
      → In src explicit
      → src.apply_for_references ≡ true
      → In edge edges
      → Added more
      → Extends (inherit_edge explicit src edge (explicit ++ more))
  unfolding inherit_edge
  push_edge src edge more i applies j h =
      let same : Extends (explicit ++ more) = record { more = more; shape = refl; added = h } in
      elim (Bool-cases (points_here src edge)) [
        | inr e ↦ rw e same
        | inl e ↦ elim (Bool-cases (has_explicit explicit edge.from_collection edge.from_field)) [
          | inl own ↦ rw (e, own) same
          | inr free ↦
              elim (Bool-cases
                (has_inherited (explicit ++ more) edge.from_collection edge.from_field)) [
                  | inl other ↦ rw (e, free, other) same
                  | inr none_yet ↦
                      rw (e, free, none_yet)
                        (record {
                          more = more ++ inherited_by src edge ∷ [];
                          shape = append_assoc explicit more (inherited_by src edge ∷ []);
                          added =
                              Added-new src edge more i applies j ((points_here_iff src edge).0 e)
                                free none_yet h;
                        })
                ]
        ]
      ]

  inherit_edge-Extends :
      (src : FieldTransform) (edge : VirtualReference) (out : List FieldTransform)
      → In src explicit
      → src.apply_for_references ≡ true
      → In edge edges
      → Extends out
      → Extends (inherit_edge explicit src edge out)
  inherit_edge-Extends src edge out i applies j h =
      rw (← h.shape) at (push_edge src edge h.more i applies j h.added)

  inherit_edges-Extends :
      (src : FieldTransform) (es : List VirtualReference) (out : List FieldTransform)
      → In src explicit
      → src.apply_for_references ≡ true
      → ((edge : VirtualReference) → In edge es → In edge edges)
      → Extends out
      → Extends (inherit_edges explicit src es out)
  unfolding inherit_edges
  inherit_edges-Extends src [] out i applies within h = h
  inherit_edges-Extends src (edge ∷ es) out i applies within h =
      inherit_edges-Extends src es (inherit_edge explicit src edge out) i applies
        (λ e k. within e (inr k))
        (inherit_edge-Extends src edge out i applies (within edge (inl refl)) h)

  inherit_all-Extends :
      (srcs : List FieldTransform) (out : List FieldTransform)
      → ((src : FieldTransform) → In src srcs → In src explicit × (src.apply_for_references ≡ true))
      → Extends out
      → Extends (inherit_all explicit srcs edges out)
  unfolding inherit_all
  inherit_all-Extends [] out sources h = h
  inherit_all-Extends (src ∷ srcs) out sources h =
      let (i, applies) = sources src (inl refl) in
      inherit_all-Extends srcs (inherit_edges explicit src edges out) (λ s k. sources s (inr k))
        (inherit_edges-Extends src edges out i applies (λ e k. k) h)

  edge-Covers :
      (src : FieldTransform) (edge : VirtualReference) (out : List FieldTransform)
      → ((c f : Text) → Covers explicit c f → Covers out c f)
      → PointsAt edge src
      → Covers (inherit_edge explicit src edge out) edge.from_collection edge.from_field
  unfolding inherit_edge
  edge-Covers src edge out keeps points =
      rw ((points_here_iff src edge).1 points)
        (elim (Bool-cases (has_explicit explicit edge.from_collection edge.from_field)) [
          | inl own ↦ rw own (
              keeps edge.from_collection edge.from_field
                (explicit-Covers explicit edge.from_collection edge.from_field own))
          | inr free ↦ elim (Bool-cases (has_inherited out edge.from_collection edge.from_field)) [
            | inl other ↦
                rw (free, other) (inherited-Covers out edge.from_collection edge.from_field other)
            | inr none_yet ↦
                rw (free, none_yet)
                  (Covers-right out (inherited_by src edge ∷ []) edge.from_collection
                    edge.from_field (inherited_by src edge, inl refl, refl, refl))
          ]
        ])

  edge_keeps :
      (src : FieldTransform) (edge : VirtualReference) (out : List FieldTransform) (c f : Text)
      → Covers out c f
      → Covers (inherit_edge explicit src edge out) c f
  unfolding inherit_edge
  edge_keeps src edge out c f h = pick (points_here src edge) (
      has_explicit explicit edge.from_collection edge.from_field
      || has_inherited out edge.from_collection edge.from_field)
    where
      pick :
          (a b : Bool)
          → Covers (if not a then out else if b then out else out ++ inherited_by src edge ∷ []) c f
      pick true true = h
      pick true false = Covers-left out (inherited_by src edge ∷ []) c f h
      pick false _ = h

  edges_keep :
      (src : FieldTransform) (es : List VirtualReference) (out : List FieldTransform) (c f : Text)
      → Covers out c f
      → Covers (inherit_edges explicit src es out) c f
  unfolding inherit_edges
  edges_keep src [] out c f h = h
  edges_keep src (edge ∷ es) out c f h =
      edges_keep src es (inherit_edge explicit src edge out) c f (edge_keeps src edge out c f h)

  all_keep :
      (srcs out : List FieldTransform) (c f : Text)
      → Covers out c f
      → Covers (inherit_all explicit srcs edges out) c f
  unfolding inherit_all
  all_keep [] out c f h = h
  all_keep (src ∷ srcs) out c f h =
      all_keep srcs (inherit_edges explicit src edges out) c f (edges_keep src edges out c f h)

  edges_cover :
      (src : FieldTransform) (es : List VirtualReference) (out : List FieldTransform)
      (edge : VirtualReference)
      → ((c f : Text) → Covers explicit c f → Covers out c f)
      → In edge es
      → PointsAt edge src
      → Covers (inherit_edges explicit src es out) edge.from_collection edge.from_field
  unfolding inherit_edges
  edges_cover src [] out edge keeps i points = absurd i
  edges_cover src (e ∷ es) out edge keeps (inl same) points =
      edges_keep src es (inherit_edge explicit src e out) edge.from_collection edge.from_field
        (rw (← same) (edge-Covers src edge out keeps points))
  edges_cover src (e ∷ es) out edge keeps (inr i) points =
      edges_cover src es (inherit_edge explicit src e out) edge
        (λ c f h. edge_keeps src e out c f (keeps c f h)) i points

  all_cover :
      (srcs out : List FieldTransform) (src : FieldTransform) (edge : VirtualReference)
      → ((c f : Text) → Covers explicit c f → Covers out c f)
      → In src srcs
      → In edge edges
      → PointsAt edge src
      → Covers (inherit_all explicit srcs edges out) edge.from_collection edge.from_field
  unfolding inherit_all
  all_cover [] out src edge keeps i j points = absurd i
  all_cover (s ∷ srcs) out src edge keeps (inl same) j points =
      all_keep srcs (inherit_edges explicit s edges out) edge.from_collection edge.from_field
        (rw (← same) (edges_cover src edges out edge keeps j points))
  all_cover (s ∷ srcs) out src edge keeps (inr i) j points =
      all_cover srcs (inherit_edges explicit s edges out) src edge
        (λ c f h. edges_keep s edges out c f (keeps c f h)) i j points

-- The result is the explicit transformations, unchanged and in order, followed by inherited ones:
-- each copies the name and parameters of an explicit transformation with `apply_for_references` to
-- the field of an edge that points at it, never to a field with an explicit transformation, and no
-- field inherits twice.
pub expand_inherited-Extends :
    (explicit : List FieldTransform) (graph : ReferenceGraph)
    → Extends explicit graph.edges (expand_inherited explicit graph)
unfolding expand_inherited
expand_inherited-Extends explicit graph =
    let applies = λ (t : FieldTransform). t.apply_for_references in
    inherit_all-Extends explicit graph.edges (filter applies explicit) explicit
      (λ src k. (In-filter applies src explicit).0 k)
      (record {
        more = [];
        shape = sym (append-nil explicit);
        added = Added-none explicit graph.edges;
      })

-- Each field that references, by an edge of the graph, a field whose transformation applies to
-- references has a transformation in the result.
pub expand_inherited-Covers :
    (explicit : List FieldTransform) (graph : ReferenceGraph) (src : FieldTransform)
    (edge : VirtualReference)
    → In src explicit
    → src.apply_for_references ≡ true
    → In edge graph.edges
    → PointsAt edge src
    → Covers (expand_inherited explicit graph) edge.from_collection edge.from_field
unfolding expand_inherited
expand_inherited-Covers explicit graph src edge i applies j points =
    all_cover explicit graph.edges (filter (λ t. t.apply_for_references) explicit) explicit src edge
      (λ c f h. h) ((In-filter (λ t. t.apply_for_references) src explicit).1 (i, applies)) j points
