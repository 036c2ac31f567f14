-- ===== src/Registry.antt =====
-- transform/mod.rs: the named factories of transformers.
pub mod Laws
use leafmask.Prelude.{Text, Option, none, some, List, [], map, Map, at_key, put_key}
use leafmask.Prelude.Result.{Result, ok, err, not_found, ok_or, Run, returns, ◌>>?◌}
use leafmask.Bson.{Bson, Document, BsonApi, StdApi}
use leafmask.Hash.{HashEngine}
use leafmask.Inheritance.{Params}
use leafmask.Toolkit.Yaml.{YamlApi}
use leafmask.Toolkit.Params.{ParamDefinition}
use leafmask.Toolkit.Values.{ParamValues}
use leafmask.Toolkit.Static.{validate_static}
use leafmask.Apply.{Transformer}

pub record TransformerDoc : Type 0 where
  pub name : Text
  pub description : Text
  pub parameters : List ParamDefinition

pub record TransformerFactory : Type 0 where
  pub name : Text
  pub description : Text
  pub parameters : List ParamDefinition
  pub build : ParamValues → HashEngine → Run (Result Transformer)

abbrev pub doc : TransformerFactory → TransformerDoc
doc f = record { name = f.name; description = f.description; parameters = f.parameters }

pub record Registry : Type 0 where
  pub factories : Map TransformerFactory

abbrev pub empty : Registry
empty = record { factories = [] }

unfoldable pub register : Registry → TransformerFactory → Registry
register self f = record { factories = put_key self.factories f.name f }

unfoldable pub get : Registry → Text → Option TransformerFactory
get self name = at_key self.factories name

unfoldable pub names : Registry → List Text
names self = map (λ e. e.0) self.factories

unfoldable pub docs : Registry → List TransformerDoc
docs self = map (λ e. doc e.1) self.factories

unfoldable pub build : Registry → Text → ParamValues → HashEngine → Run (Result Transformer)
build self name values engine =
    returns (ok_or (get self name) not_found) >>? λ factory. factory.build values engine

module _ ⦃api : BsonApi⦄ ⦃std : StdApi⦄ ⦃yaml : YamlApi⦄ where
  unfoldable pub instantiate : Registry → Text → Params → HashEngine → Run (Result Transformer)
  instantiate self name raw engine = returns (ok_or (get self name) not_found) >>? λ factory.
      returns (validate_static factory.parameters raw) >>? λ values. factory.build values engine
