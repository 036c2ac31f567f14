-- ===== src/Validate/Live.antt =====
-- `diff_dump_against_live` of validate/schema_diff.rs.
use leafmask.Prelude.{
  Text, codes, Bool, true, false, Option, none, some, List, [], ◌∷◌, ◌++◌, map, contains, text_Eq,
  text_eq, if◌then◌else◌,
}
use leafmask.Prelude.Result.{Result, ok, ◌>>=◌}
use leafmask.Bson.{Bson}
use leafmask.Restore.Collection.{CollectionMeta}
use leafmask.Dump.Metadata.{CollectionToc, DatabaseToc}
use leafmask.Dump.Storage.{Storage, BlobCodec, read_collection_meta, resolve}
use leafmask.Validate.{
  CollectionSchema, CollectionStructure, MongoSource, diff_collection, empty_schema, describe,
}

-- Whether a filter lets a name through.
abbrev pub is_wanted : Option Text → Text → Bool
is_wanted none name = true
is_wanted (some w) name = text_eq w name

abbrev pub from_structure : Text → CollectionStructure → CollectionSchema
from_structure name t = record {
  collection = name;
  indexes = t.indexes;
  validator = t.validator;
  options = t.options;
}

abbrev pub from_meta : Text → CollectionMeta → CollectionSchema
from_meta name m = record {
  collection = name;
  indexes = m.indexes;
  validator = m.validator;
  options = m.options;
}

module _ (same : Bson → Bson → Bool) (source : MongoSource) where
  abbrev pub live_schema : Text → Text → Bool → Result CollectionSchema
  live_schema db name true = source.read_structure db name >>= λ t. ok (from_structure name t)
  live_schema db name false = ok (empty_schema name)

  abbrev pub drift_lines : Text → Text → CollectionSchema → CollectionSchema → List Text
  drift_lines db name recorded live =
      map (λ d. db ++ (codes "." ++ describe name d)) (diff_collection same recorded live)

  module _ {S : Type 0} ⦃codec : BlobCodec⦄ (store : Storage S) (s : S) where
    unfoldable pub collection_drift : Text → Text → List Text → Text → Result (List Text)
    collection_drift id db live_names name = read_collection_meta store id db name s >>= λ m.
        live_schema db name (contains live_names name) >>= λ live.
        ok (drift_lines db name (from_meta name m) live)

    unfoldable pub collections_drift :
        Option Text → Text → Text → List Text → List CollectionToc → Result (List Text)
    unfolding collection_drift
    collections_drift wanted id db live_names [] = ok []
    collections_drift wanted id db live_names (c ∷ cs) =
        let later = collections_drift wanted id db live_names cs in
        if is_wanted wanted c.name
        then (collection_drift id db live_names c.name >>= λ lines.
            later >>= λ more. ok (lines ++ more))
        else later

    unfoldable pub databases_drift :
        Option Text → Option Text → Text → List DatabaseToc → Result (List Text)
    unfolding collections_drift
    databases_drift database collection id [] = ok []
    databases_drift database collection id (db ∷ dbs) =
        let later = databases_drift database collection id dbs in
        if is_wanted database db.name
        then (source.collections db.name >>= λ live_names.
            collections_drift collection id db.name live_names db.collections >>= λ lines.
            later >>= λ more. ok (lines ++ more))
        else later

    unfoldable pub diff_dump_against_live : Text → Option Text → Option Text → Result (List Text)
    unfolding databases_drift
    diff_dump_against_live dump_id database collection = resolve store dump_id s >>= λ meta.
        databases_drift database collection meta.id meta.databases
