-- ===== src/Inheritance/Tests.antt =====
-- A masked user field that an order field refers to.
use leafmask.Prelude.{codes, true, false, [], ◌∷◌, refl, inl, some, none}
use leafmask.Reference.{VirtualReference, ReferenceGraph, fixed, target_collections}
use leafmask.Inheritance.{FieldTransform, expand_inherited}
use leafmask.Inheritance.Covers.{Covers, PointsAt}
use leafmask.Inheritance.Configs.{
  TransformationConfig, Extended, expand_transformation_configs,
  expand_transformation_configs-Extended,
}
use leafmask.Inheritance.Laws.{Extends, expand_inherited-Extends, expand_inherited-Covers}

abbrev mask_name : FieldTransform
mask_name = record {
  collection = codes "users";
  field = codes "name";
  transformer_name = codes "mask";
  params = [];
  apply_for_references = true;
  inherited = false;
}

abbrev order_user : VirtualReference
order_user = record {
  from_collection = codes "orders";
  from_field = codes "user";
  to_field = codes "name";
  not_null = true;
  target = fixed (codes "users");
}

abbrev orders_graph : ReferenceGraph
orders_graph = record { edges = order_user ∷ [] }

expand_inherited-Extends_example :
    Extends (mask_name ∷ []) (order_user ∷ []) (expand_inherited (mask_name ∷ []) orders_graph)
expand_inherited-Extends_example = expand_inherited-Extends (mask_name ∷ []) orders_graph

order-PointsAt : PointsAt order_user mask_name
unfolding target_collections
order-PointsAt = (refl, inl refl)

expand_inherited-Covers_example :
    Covers (expand_inherited (mask_name ∷ []) orders_graph) (codes "orders") (codes "user")
expand_inherited-Covers_example =
    expand_inherited-Covers (mask_name ∷ []) orders_graph mask_name order_user (inl refl) refl
      (inl refl) order-PointsAt

abbrev users_config : TransformationConfig
users_config = record {
  collection = codes "users";
  when = some (codes "active");
  query = none;
  transformers =
      record {
        field = codes "name";
        name = codes "mask";
        params = [];
        when = none;
        dynamic_params = [];
        apply_for_references = true;
        type_override = none;
      }
      ∷ [];
}

expand_transformation_configs-Extended_example :
    Extended users_config (expand_transformation_configs (users_config ∷ []) orders_graph)
expand_transformation_configs-Extended_example =
    expand_transformation_configs-Extended (users_config ∷ []) orders_graph users_config (inl refl)
