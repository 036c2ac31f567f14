-- ===== src/Toolkit/Yaml.antt =====
-- The YAML values of the configuration (serde_yaml), and `cast::yaml_to_bson` of toolkit.rs.
use leafmask.Prelude.{Text, Bool, [], Option, none, some, trim, unwrap_or}
use leafmask.Prelude.Int.{ℤ}
use leafmask.Bson.{Bson, Items, Document, BsonApi, F64, boolean, int64, double, array, document}

-- serde_yaml::Number by what its accessors return.
pub record YamlNumber : Type 0 where
  pub as_i64 : Option ℤ
  pub as_f64 : Option F64
  pub rendered : Text

mutual
  pub data Yaml : Type 0 where
    null : Yaml
    bool : Bool → Yaml
    number : YamlNumber → Yaml
    string : Text → Yaml
    sequence : Sequence → Yaml
    mapping : Mapping → Yaml
    tagged : Text → Yaml → Yaml

  pub data Sequence : Type 0 where
    nil : Sequence
    cons : Yaml → Sequence → Sequence

  pub data Mapping : Type 0 where
    end : Mapping
    entry : Yaml → Yaml → Mapping → Mapping

-- serde_yaml::to_string, and the f64 constant NaN.
pub record YamlApi : Type 0 where
  pub to_string : Yaml → Option Text
  pub nan : F64

module _ ⦃yaml : YamlApi⦄ where
  abbrev pub key_text : Yaml → Text
  key_text (Yaml.string s) = s
  key_text k = trim (unwrap_or (yaml.to_string k) [])

  abbrev pub number_to_bson : YamlNumber → Bson
  number_to_bson n = elim n.as_i64 [
    | some i ↦ int64 i
    | none ↦ double (unwrap_or n.as_f64 yaml.nan)
  ]

module _ ⦃api : BsonApi⦄ ⦃yaml : YamlApi⦄ where
  unfoldable mutual
    pub yaml_to_bson : Yaml → Bson
    yaml_to_bson Yaml.null = Bson.null
    yaml_to_bson (Yaml.bool b) = boolean b
    yaml_to_bson (Yaml.number n) = number_to_bson n
    yaml_to_bson (Yaml.string s) = Bson.string s
    yaml_to_bson (Yaml.sequence xs) = array (sequence_to_items xs)
    yaml_to_bson (Yaml.mapping m) = document (mapping_into api.new m)
    yaml_to_bson (Yaml.tagged t v) = yaml_to_bson v

    pub sequence_to_items : Sequence → Items
    sequence_to_items Sequence.nil = Items.nil
    sequence_to_items (Sequence.cons v vs) = Items.cons (yaml_to_bson v) (sequence_to_items vs)

    -- the loop that inserts the entries into a document
    pub mapping_into : Document → Mapping → Document
    mapping_into doc Mapping.end = doc
    mapping_into doc (Mapping.entry k v m) =
        mapping_into (api.insert doc (key_text k) (yaml_to_bson v)) m
