-- ===== src/Inheritance.antt =====
-- transform/inheritance.rs: transformations passed on to the fields that reference a transformed one.
pub mod Covers
pub mod Configs
pub mod Laws
pub mod Tests
use leafmask.Prelude.{
  Text, text_eq, text_Eq, Bool, true, false, not, ◌&&◌, ◌||◌, Option, none, some, List, [], ◌∷◌,
  ◌++◌, any, filter, contains, if◌then◌else◌,
}
use leafmask.Toolkit.Yaml.{Yaml}
use leafmask.Reference.{VirtualReference, ReferenceGraph, target_collections}

-- `Params`, a map from names to values, in its key order.
abbrev pub Params : Type 0
Params = List (Text × Yaml)

pub record FieldTransform : Type 0 where
  pub collection : Text
  pub field : Text
  pub transformer_name : Text
  pub params : Params
  pub apply_for_references : Bool
  pub inherited : Bool

unfoldable pub has_explicit : List FieldTransform → Text → Text → Bool
has_explicit explicit collection field =
    any (λ t. text_eq t.collection collection && text_eq t.field field) explicit

unfoldable pub points_here : FieldTransform → VirtualReference → Bool
points_here src edge =
    text_eq edge.to_field src.field && contains (target_collections edge) src.collection

-- `out.iter().any(...)`: the referencing field has inherited already
unfoldable pub has_inherited : List FieldTransform → Text → Text → Bool
has_inherited out collection field =
    any (λ t. text_eq t.collection collection && (text_eq t.field field && t.inherited)) out

abbrev pub inherited_by : FieldTransform → VirtualReference → FieldTransform
inherited_by src edge = record {
  collection = edge.from_collection;
  field = edge.from_field;
  transformer_name = src.transformer_name;
  params = src.params;
  apply_for_references = false;
  inherited = true;
}

-- The body of the loop over the edges.
unfoldable pub inherit_edge :
    List FieldTransform
    → FieldTransform
    → VirtualReference
    → List FieldTransform
    → List FieldTransform
unfolding points_here has_explicit has_inherited
inherit_edge explicit src edge out =
    if not (points_here src edge)
    then out
    else if has_explicit explicit edge.from_collection edge.from_field
        || has_inherited out edge.from_collection edge.from_field
    then out
    else out ++ inherited_by src edge ∷ []

unfoldable pub inherit_edges :
    List FieldTransform
    → FieldTransform
    → List VirtualReference
    → List FieldTransform
    → List FieldTransform
inherit_edges explicit src [] out = out
inherit_edges explicit src (edge ∷ edges) out =
    inherit_edges explicit src edges (inherit_edge explicit src edge out)

unfoldable pub inherit_all :
    List FieldTransform
    → List FieldTransform
    → List VirtualReference
    → List FieldTransform
    → List FieldTransform
inherit_all explicit [] edges out = out
inherit_all explicit (src ∷ srcs) edges out =
    inherit_all explicit srcs edges (inherit_edges explicit src edges out)

unfoldable pub expand_inherited : List FieldTransform → ReferenceGraph → List FieldTransform
expand_inherited explicit graph =
    inherit_all explicit (filter (λ t. t.apply_for_references) explicit) graph.edges explicit
