-- ===== src/Toolkit/Params.antt =====
-- toolkit.rs: the declared parameters of a transformer; and the raw parameters of config.rs, looked up in any case.
use leafmask.Prelude.{
  Text, codes, eq_ignore_case, Bool, true, false, Option, none, some, List, [], ◌∷◌, if◌then◌else◌,
  at_key,
}
use leafmask.Bson.{Bson}
use leafmask.Toolkit.Yaml.{Yaml}

pub data ParamType : Type 0 where
  string int float bool bytes object_id decimal128 datetime binary any : ParamType

-- The source's `match` on the name.
abbrev pub type_names : List (Text × ParamType)
type_names =
    (codes "string", ParamType.string)
    ∷ (codes "int", ParamType.int)
    ∷ (codes "float", ParamType.float)
    ∷ (codes "bool", ParamType.bool)
    ∷ (codes "bytes", ParamType.bytes)
    ∷ (codes "objectId", ParamType.object_id)
    ∷ (codes "decimal128", ParamType.decimal128)
    ∷ (codes "datetime", ParamType.datetime)
    ∷ (codes "binary", ParamType.binary)
    ∷ (codes "any", ParamType.any)
    ∷ []

unfoldable pub from_name : Text → Option ParamType
from_name name = at_key type_names name

unfoldable pub name : ParamType → Text
name ParamType.string = codes "string"
name ParamType.int = codes "int"
name ParamType.float = codes "float"
name ParamType.bool = codes "bool"
name ParamType.bytes = codes "bytes"
name ParamType.object_id = codes "objectId"
name ParamType.decimal128 = codes "decimal128"
name ParamType.datetime = codes "datetime"
name ParamType.binary = codes "binary"
name ParamType.any = codes "any"

pub record ParamDefinition : Type 0 where
  pub name : Text
  pub kind : ParamType
  pub required : Bool
  pub default : Option Bson
  pub description : Text

abbrev pub required : Text → ParamType → Text → ParamDefinition
required name kind description = record {
  name = name;
  kind = kind;
  required = true;
  default = none;
  description = description;
}

abbrev pub optional : Text → ParamType → Bson → Text → ParamDefinition
optional name kind default description = record {
  name = name;
  kind = kind;
  required = false;
  default = some default;
  description = description;
}

-- `Params::get`: the first entry whose name agrees but for the case of its letters.
unfoldable pub param_get : List (Text × Yaml) → Text → Option Yaml
param_get [] key = none
param_get ((k, v) ∷ entries) key = if eq_ignore_case k key then some v else param_get entries key
