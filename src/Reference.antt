-- ===== src/Reference.antt =====
-- subset/virtual_references.rs: declared references between collections, and their graph.
use leafmask.Prelude.{
  Text, codes, text_eq, Bool, false, Option, none, some, List, [], ◌∷◌, ◌++◌, map, filter,
  if◌then◌else◌,
}
use leafmask.Bson.{Bson, Document, BsonApi}
use leafmask.Toolkit.Yaml.{Yaml, YamlApi, yaml_to_bson}

pub record PolymorphicCase : Type 0 where
  pub field : Text
  pub value : Yaml
  pub references_collection : Text

pub record ReferenceDef : Type 0 where
  pub field : Text
  pub references_collection : Option Text
  pub references_field : Text
  pub not_null : Bool
  pub polymorphic_exprs : List PolymorphicCase

abbrev pub default_id : Text
default_id = codes "_id"

pub record VirtualReferenceEntry : Type 0 where
  pub collection : Text
  pub references : List ReferenceDef

pub data RefTarget : Type 0 where
  fixed : Text → RefTarget
  polymorphic : List (Text × Bson × Text) → RefTarget

pub record VirtualReference : Type 0 where
  pub from_collection : Text
  pub from_field : Text
  pub to_field : Text
  pub not_null : Bool
  pub target : RefTarget

module _ ⦃api : BsonApi⦄ where
  -- `doc.get(field) == Some(value)`
  abbrev pub holds_value : Option Bson → Bson → Bool
  holds_value none v = false
  holds_value (some w) v = api.eq w v

  unfoldable pub first_case : Document → List (Text × Bson × Text) → Option Text
  first_case doc [] = none
  first_case doc ((field, value, collection) ∷ cases) =
      if holds_value (api.get doc field) value then some collection else first_case doc cases

  unfoldable pub resolve_in : RefTarget → Document → Option Text
  unfolding first_case
  resolve_in (fixed c) doc = some c
  resolve_in (polymorphic cases) doc = first_case doc cases

  unfoldable pub resolve_target : VirtualReference → Document → Option Text
  unfolding resolve_in
  resolve_target edge doc = resolve_in edge.target doc

abbrev pub targets_of : RefTarget → List Text
targets_of (fixed c) = c ∷ []
targets_of (polymorphic cases) = map (λ (_, _, c). c) cases

unfoldable pub target_collections : VirtualReference → List Text
target_collections edge = targets_of edge.target

pub record ReferenceGraph : Type 0 where
  pub edges : List VirtualReference

module _ ⦃api : BsonApi⦄ ⦃yaml : YamlApi⦄ where
  abbrev pub compile_case : PolymorphicCase → Text × Bson × Text
  compile_case c = (c.field, yaml_to_bson c.value, c.references_collection)

  -- A reference with neither a fixed target nor cases is inert.
  unfoldable pub compile_target : List PolymorphicCase → Option Text → Option RefTarget
  unfolding yaml_to_bson
  compile_target [] none = none
  compile_target [] (some c) = some (fixed c)
  compile_target (c ∷ cases) fallback = some (polymorphic (map compile_case (c ∷ cases)))

  abbrev pub edge_of : Text → ReferenceDef → RefTarget → VirtualReference
  edge_of collection r target = record {
    from_collection = collection;
    from_field = r.field;
    to_field = r.references_field;
    not_null = r.not_null;
    target = target;
  }

  -- The edges pushed for one entry's references.
  unfoldable pub edges_of : Text → List ReferenceDef → List VirtualReference
  unfolding compile_target
  edges_of collection [] = []
  edges_of collection (r ∷ rs) =
      let rest = edges_of collection rs in
      elim (compile_target r.polymorphic_exprs r.references_collection) [
        | none ↦ rest
        | some target ↦ edge_of collection r target ∷ rest
      ]

  unfoldable pub all_edges : List VirtualReferenceEntry → List VirtualReference
  unfolding edges_of
  all_edges [] = []
  all_edges (e ∷ es) = edges_of e.collection e.references ++ all_edges es

  unfoldable pub from_entries : List VirtualReferenceEntry → ReferenceGraph
  unfolding all_edges
  from_entries entries = record { edges = all_edges entries }

unfoldable pub references_from : ReferenceGraph → Text → List VirtualReference
references_from g collection = filter (λ e. text_eq e.from_collection collection) g.edges
