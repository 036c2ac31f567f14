-- ===== src/FieldPath.antt =====
-- Dotted field paths: `get_path`, which transform/apply.rs, transform/condition.rs,
-- transform/dynamic.rs and subset/database_subsetting.rs each declare alike, and `set_path` of
-- transform/apply.rs.
pub mod Laws
pub mod Tests
use leafmask.Prelude.{
  ℕ, zero, suc, Text, Option, none, some, List, [], ◌∷◌, length, split_on, join, option_map,
  option_bind, unwrap_or,
}
use leafmask.Bson.{Bson, Document, BsonApi, as_document, document}

abbrev pub dot : ℕ
dot = b'.'

module _ ⦃api : BsonApi⦄ where
  -- the loop over the parts behind the first
  unfoldable pub descend : Bson → List Text → Option Bson
  descend current [] = some current
  descend current (part ∷ rest) = elim (as_document current) [
    | none ↦ none
    | some d ↦ elim (api.get d part) [ none ↦ none | some v ↦ descend v rest ]
  ]

  unfoldable pub get_parts : Document → List Text → Option Bson
  unfolding descend
  get_parts doc [] = none
  get_parts doc (first ∷ rest) = option_bind (api.get doc first) (λ v. descend v rest)

  unfoldable pub get_path : Document → Text → Option Bson
  unfolding get_parts
  get_path doc path = get_parts doc (split_on dot path)

  -- the embedded document at a field; anything else there is replaced by an empty one
  abbrev pub child_of : Option Bson → Document
  child_of none = api.new
  child_of (some v) = unwrap_or (as_document v) api.new

  -- The body of `set_path` on the parts of the path; `again` is the recursive call.
  unfoldable pub set_at :
      (Document → Text → Option Document) → Document → List Text → Bson → Option Document
  set_at again doc [] value = none
  set_at again doc (head ∷ []) value = some (api.insert doc head value)
  set_at again doc (head ∷ next ∷ more) value =
      option_map (λ child. api.insert doc head (document child))
        (again (child_of (api.get doc head)) (join (dot ∷ []) (next ∷ more)))

  -- The source joins the parts behind the head again and calls itself; `none` is out of fuel.
  unfoldable pub set_path_fuel : ℕ → Document → Text → Bson → Option Document
  unfolding set_at
  set_path_fuel zero doc path value = none
  set_path_fuel (suc fuel) doc path value =
      set_at (λ d rest. set_path_fuel fuel d rest value) doc (split_on dot path) value

  unfoldable pub set_path : Document → Text → Bson → Document
  unfolding set_path_fuel
  set_path doc path value = unwrap_or (set_path_fuel (suc (length path)) doc path value) doc

  -- The same by recursion on the parts.
  unfoldable pub set_parts : Document → List Text → Bson → Document
  set_parts doc [] value = doc
  set_parts doc (head ∷ []) value = api.insert doc head value
  set_parts doc (head ∷ next ∷ more) value =
      api.insert doc head (document (set_parts (child_of (api.get doc head)) (next ∷ more) value))
