-- ===== src/Validate/Tests.antt =====
-- An index that a dump recorded and that the live collection has no more.
use leafmask.Prelude.{Text, codes, Bool, true, false, none, [], ◌∷◌, In, ◌↔◌, ◌≡◌, refl}
use leafmask.Prelude.Int.{pos}
use leafmask.Bson.{Bson, boolean}
use leafmask.Restore.Sink.{IndexSpec}
use leafmask.Validate.{
  CollectionSchema, SchemaDiff, diff_collection, recorded_diffs, live_diffs, validator_diffs,
  option_diffs,
}
use leafmask.Validate.Drift.{Drifted, diff_collection_iff}
use SchemaDiff.{index_removed, index_changed, index_added, option_changed}

abbrev same_boolean : Bson → Bson → Bool
same_boolean (boolean true) (boolean b) = b
same_boolean (boolean false) (boolean true) = false
same_boolean (boolean false) (boolean false) = true
same_boolean _ _ = false

abbrev on_field : Text → Bool → IndexSpec
on_field f unique = record { name = f; keys = (f, pos 1) ∷ []; unique = unique }

abbrev users : CollectionSchema
users = record {
  collection = codes "users";
  indexes = on_field (codes "email") true ∷ on_field (codes "name") false ∷ [];
  validator = none;
  options = (codes "capped", boolean true) ∷ [];
}

abbrev live_users : CollectionSchema
live_users = record users {
  indexes = on_field (codes "name") true ∷ on_field (codes "age") false ∷ [];
  options = [];
}

users-drift :
    diff_collection same_boolean users live_users
    ≡ index_removed (codes "email")
      ∷ index_changed (codes "name")
      ∷ index_added (codes "age")
      ∷ option_changed (codes "capped")
      ∷ []
unfolding diff_collection recorded_diffs live_diffs validator_diffs option_diffs
users-drift = refl

diff_collection_iff_example :
    In (index_removed (codes "email")) (diff_collection same_boolean users live_users)
    ↔ Drifted same_boolean users live_users (index_removed (codes "email"))
diff_collection_iff_example =
    diff_collection_iff same_boolean users live_users (index_removed (codes "email"))
