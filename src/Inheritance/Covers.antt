-- ===== src/Inheritance/Covers.antt =====
-- Which fields a list of transformations covers.
use leafmask.Prelude.{
  Text, text_eq, text_Eq, text_eq_iff, Bool, true, ◌&&◌, List, [], ◌∷◌, ◌++◌, ◌≡◌, refl, sym, ap,
  ◌∙◌, ◌↔◌, inl, inr, arith, any-eq-true, any_of_In, contains_iff, In, In-append, In-append_left,
  In-append_right,
}
use leafmask.Reference.{VirtualReference, target_collections}
use leafmask.Inheritance.{FieldTransform, has_explicit, points_here, has_inherited, inherited_by}

-- The edge refers to the field that the transformation is for.
abbrev pub PointsAt : VirtualReference → FieldTransform → Type 0
PointsAt edge src = (edge.to_field ≡ src.field) × In src.collection (target_collections edge)

abbrev pub Covers : List FieldTransform → Text → Text → Type 0
Covers ts collection field =
    (t : FieldTransform) × In t ts × (t.collection ≡ collection) × (t.field ≡ field)

-- A transformation that is passed on, with the edge that it is passed along.
abbrev pub Inherits : List FieldTransform → List VirtualReference → FieldTransform → Type 0
Inherits explicit edges t =
    (src : FieldTransform) × (edge : VirtualReference) × In src explicit
    × (src.apply_for_references ≡ true)
    × In edge edges
    × PointsAt edge src
    × ¬ Covers explicit edge.from_collection edge.from_field
    × (t ≡ inherited_by src edge)

pub points_here_iff :
    (src : FieldTransform) (edge : VirtualReference)
    → (points_here src edge ≡ true) ↔ PointsAt edge src
unfolding points_here
points_here_iff src edge = ground (
  arith,
  text_eq_iff edge.to_field src.field,
  contains_iff (target_collections edge) src.collection,
)

both_true : (a b : Bool) → a && b ≡ true → (a ≡ true) × (b ≡ true)
both_true a b h = ground arith

pub explicit-Covers :
    (ts : List FieldTransform) (c f : Text) → has_explicit ts c f ≡ true → Covers ts c f
unfolding has_explicit
explicit-Covers ts c f h =
    let (t, i, e) = any-eq-true (λ t. text_eq t.collection c && text_eq t.field f) ts h in
    let (a, b) = both_true (text_eq t.collection c) (text_eq t.field f) e in
    (t, i, (text_eq_iff t.collection c).0 a, (text_eq_iff t.field f).0 b)

pub Covers-explicit :
    (ts : List FieldTransform) (c f : Text) → Covers ts c f → has_explicit ts c f ≡ true
unfolding has_explicit
Covers-explicit ts c f (t, i, e, g) =
    any_of_In (λ t. text_eq t.collection c && text_eq t.field f) t ts i
      (rw ((text_eq_iff t.collection c).1 e, (text_eq_iff t.field f).1 g))

pub inherited-Covers :
    (ts : List FieldTransform) (c f : Text) → has_inherited ts c f ≡ true → Covers ts c f
unfolding has_inherited
inherited-Covers ts c f h =
    let (t, i, e) =
      any-eq-true (λ t. text_eq t.collection c && (text_eq t.field f && t.inherited)) ts h in
    let (a, r) = both_true (text_eq t.collection c) (text_eq t.field f && t.inherited) e in
    let (b, _) = both_true (text_eq t.field f) t.inherited r in
    (t, i, (text_eq_iff t.collection c).0 a, (text_eq_iff t.field f).0 b)

pub Covers-inherited :
    (ts : List FieldTransform) (t : FieldTransform)
    → In t ts
    → t.inherited ≡ true
    → has_inherited ts t.collection t.field ≡ true
unfolding has_inherited
Covers-inherited ts t i e =
    any_of_In (λ u. text_eq u.collection t.collection && (text_eq u.field t.field && u.inherited)) t
      ts i
      (rw ((text_eq_iff t.collection t.collection).1 refl, (text_eq_iff t.field t.field).1 refl, e))

pub Covers-left : (ts us : List FieldTransform) (c f : Text) → Covers ts c f → Covers (ts ++ us) c f
Covers-left ts us c f (t, i, e, g) = (t, In-append_left t ts us i, e, g)

pub Covers-right :
    (ts us : List FieldTransform) (c f : Text) → Covers us c f → Covers (ts ++ us) c f
Covers-right ts us c f (t, i, e, g) = (t, In-append_right t ts us i, e, g)

-- Every field stands at most once.
abbrev pub Once : List FieldTransform → Type 0
Once [] = Unit
Once (t ∷ ts) = ¬ Covers ts t.collection t.field × Once ts

pub Once-snoc :
    (ts : List FieldTransform) (t : FieldTransform)
    → ¬ Covers ts t.collection t.field
    → Once ts
    → Once (ts ++ t ∷ [])
Once-snoc [] t new once = (λ (u, i, _, _). i, tt)
Once-snoc (s ∷ ts) t new (first, once) = (
  λ (u, i, e, g). elim ((In-append u ts (t ∷ [])).0 i) [
    | inl old ↦ first (u, old, e, g)
    | inr l ↦ elim l [
      | inl same ↦ new (
        s,
        inl refl,
        sym (ap (λ x. x.collection) (sym same) ∙ e),
        sym (ap (λ x. x.field) (sym same) ∙ g),
      )
      | inr nothing ↦ nothing
    ]
  ],
  Once-snoc ts t (λ (u, i, e, g). new (u, inr i, e, g)) once,
)
