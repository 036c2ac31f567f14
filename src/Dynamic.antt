-- ===== src/Dynamic.antt =====
-- transform/dynamic.rs: parameters that are read from other fields of the document.
pub mod Layers
pub mod Typed
pub mod Tests
use leafmask.Prelude.{
  Text, text_eq, text_Eq, Bool, true, false, not, ◌&&◌, Option, none, some, List, [], ◌∷◌, find,
  contains, split_on, unwrap_or, if◌then◌else◌, Map,
}
use leafmask.Prelude.Result.{parameter, Result, ok, err, ok_or, map_err, ◌>>=◌}
use leafmask.Bson.{Bson, Document, BsonApi, StdApi}
use leafmask.FieldPath.{dot, get_path}
use leafmask.Inheritance.Configs.{DynSource}
use leafmask.Toolkit.Params.{ParamType, ParamDefinition}
use leafmask.Toolkit.Values.{ParamValues, insert}
use leafmask.Toolkit.Cast.{bson_to_typed}

pub record DynamicBinding : Type 0 where
  pub param : Text
  pub field : Text
  pub kind : ParamType

pub record DynamicParams : Type 0 where
  pub bindings : List DynamicBinding

abbrev pub is_empty : {A : Type 0} → List A → Bool
is_empty [] = true
is_empty (x ∷ xs) = false

abbrev pub declared : List ParamDefinition → Text → Option ParamDefinition
declared defs param = find (λ d. text_eq d.name param) defs

-- The loop over the configured parameters.
unfoldable pub bind_all : Map DynSource → List ParamDefinition → Result (List DynamicBinding)
bind_all [] defs = ok []
bind_all ((param, source) ∷ cfg) defs = ok_or (declared defs param) parameter >>= λ def.
    bind_all cfg defs >>= λ rest.
    ok (record { param = param; field = source.field; kind = def.kind } ∷ rest)

unfoldable pub from_config : Map DynSource → List ParamDefinition → Result DynamicParams
from_config cfg defs = bind_all cfg defs >>= λ bindings. ok (record { bindings = bindings })

-- `b.field.split('.').next().unwrap_or(&b.field)`
abbrev pub first_or : List Text → Text → Text
first_or [] field = field
first_or (head ∷ parts) field = head

unfoldable pub known_all : List DynamicBinding → List Text → Result {0} Unit
known_all [] known = ok tt
known_all (b ∷ bindings) known =
    let rest = known_all bindings known in
    if not (contains known (first_or (split_on dot b.field) b.field))
      && not (contains known b.field)
    then err parameter
    else rest

unfoldable pub validate_fields : DynamicParams → List Text → Result {0} Unit
validate_fields self known = known_all self.bindings known

module _ ⦃api : BsonApi⦄ ⦃std : StdApi⦄ where
  -- The value of one binding.
  unfoldable pub bound_value : DynamicBinding → Document → Result Bson
  bound_value b doc =
      ok_or (get_path doc b.field) parameter >>= λ raw. map_err (bson_to_typed raw b.kind) parameter

  -- The loop over the bindings, with the values so far.
  unfoldable pub layer : List DynamicBinding → Document → ParamValues → Result ParamValues
  layer [] doc values = ok values
  layer (b ∷ bindings) doc values =
      bound_value b doc >>= λ typed. layer bindings doc (insert values b.param typed)

  unfoldable pub resolve : DynamicParams → Document → ParamValues → Result ParamValues
  resolve self doc base = layer self.bindings doc base
