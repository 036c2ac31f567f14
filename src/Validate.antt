-- ===== src/Validate.antt =====
-- validate/schema_diff.rs: the recorded structure of a collection against the live one.
pub mod Pieces
pub mod Drift
pub mod Live
pub mod Tests
use leafmask.Prelude.{
  Text, codes, Bool, true, false, not, ◌&&◌, Option, none, some, List, [], ◌∷◌, ◌++◌, map, find,
  contains, text_Eq, text_eq, text_leb, if◌then◌else◌, Map, at_key, unwrap_or,
}
use leafmask.Prelude.Int.{ℤ, int_eq}
use leafmask.Prelude.Result.{Result, ok, err, ◌>>=◌}
use leafmask.Bson.{Bson}
use leafmask.Restore.Sink.{IndexSpec}
use leafmask.Restore.Collection.{CollectionMeta}
use leafmask.Dump.Metadata.{CollectionToc, DatabaseToc, DumpMetadata}
use leafmask.Dump.Storage.{Storage, BlobCodec, read_collection_meta}

pub record CollectionSchema : Type 0 where
  pub collection : Text
  pub indexes : List IndexSpec
  pub validator : Option Bson
  pub options : Map Bson

abbrev pub empty_schema : Text → CollectionSchema
empty_schema name = record { collection = name; indexes = []; validator = none; options = [] }

abbrev pub index_named : Text → List IndexSpec → Option IndexSpec
index_named n = find (λ i. text_eq i.name n)

pub data SchemaDiff : Type 0 where
  index_added index_removed index_changed option_changed : Text → SchemaDiff
  validator_changed : SchemaDiff

abbrev pub describe : Text → SchemaDiff → Text
describe c (SchemaDiff.index_added n) =
    c ++ (codes ": index '" ++ (n ++ codes "' added live, not recorded"))
describe c (SchemaDiff.index_removed n) =
    c ++ (codes ": recorded index '" ++ (n ++ codes "' is missing live"))
describe c (SchemaDiff.index_changed n) =
    c ++ (codes ": index '" ++ (n ++ codes "' definition changed"))
describe c SchemaDiff.validator_changed = c ++ codes ": validator changed"
describe c (SchemaDiff.option_changed k) = c ++ (codes ": option '" ++ (k ++ codes "' changed"))

-- The derived `PartialEq` of an index.
abbrev pub keys_eq : List (Text × ℤ) → List (Text × ℤ) → Bool
keys_eq [] [] = true
keys_eq [] (q ∷ qs) = false
keys_eq (p ∷ ps) [] = false
keys_eq ((f, d) ∷ ps) ((g, e) ∷ qs) = text_eq f g && int_eq d e && keys_eq ps qs

abbrev pub bool_eq : Bool → Bool → Bool
bool_eq true b = b
bool_eq false b = not b

abbrev pub index_eq : IndexSpec → IndexSpec → Bool
index_eq i j = text_eq i.name j.name && keys_eq i.keys j.keys && bool_eq i.unique j.unique

-- `sort` and `dedup` on the keys of the options.
abbrev pub insert_key : Text → List Text → List Text
insert_key k [] = k ∷ []
insert_key k (j ∷ ks) = let rest = insert_key k ks in if text_leb k j then k ∷ j ∷ ks else j ∷ rest

abbrev pub sort_keys : List Text → List Text
sort_keys [] = []
sort_keys (k ∷ ks) = insert_key k (sort_keys ks)

abbrev pub dedup_after : Text → List Text → List Text
dedup_after k [] = []
dedup_after k (j ∷ js) = elim (text_eq k j) [
  | true ↦ dedup_after k js
  | false ↦ j ∷ dedup_after j js
]

abbrev pub dedup : List Text → List Text
dedup [] = []
dedup (k ∷ ks) = k ∷ dedup_after k ks

abbrev pub index_diff : IndexSpec → Option IndexSpec → List SchemaDiff
index_diff r none = SchemaDiff.index_removed r.name ∷ []
index_diff r (some l) = if index_eq l r then [] else SchemaDiff.index_changed r.name ∷ []

-- The loops over the indexes of both sides.
unfoldable pub recorded_diffs : List IndexSpec → List IndexSpec → List SchemaDiff
recorded_diffs live [] = []
recorded_diffs live (r ∷ rs) = index_diff r (index_named r.name live) ++ recorded_diffs live rs

abbrev pub addition : IndexSpec → Option IndexSpec → List SchemaDiff
addition l none = SchemaDiff.index_added l.name ∷ []
addition l (some r) = []

unfoldable pub live_diffs : List IndexSpec → List IndexSpec → List SchemaDiff
live_diffs recorded [] = []
live_diffs recorded (l ∷ ls) = addition l (index_named l.name recorded) ++ live_diffs recorded ls

-- The structure of a live collection, and the reads of the `MongoSource` trait that serve here.
pub record CollectionStructure : Type 0 where
  pub indexes : List IndexSpec
  pub validator : Option Bson
  pub options : Map Bson

pub record MongoSource : Type 0 where
  pub collections : Text → Result (List Text)
  pub read_structure : Text → Text → Result CollectionStructure

abbrev pub option_keys : Map Bson → Map Bson → List Text
option_keys recorded live = dedup (sort_keys (map (λ e. e.0) recorded ++ map (λ e. e.0) live))

-- The `==` of the bson crate.
module _ (same : Bson → Bson → Bool) where
  abbrev pub option_eq : Option Bson → Option Bson → Bool
  option_eq none none = true
  option_eq none (some b) = false
  option_eq (some a) none = false
  option_eq (some a) (some b) = same a b

  unfoldable pub validator_diffs : Option Bson → Option Bson → List SchemaDiff
  validator_diffs a b = if option_eq a b then [] else SchemaDiff.validator_changed ∷ []

  unfoldable pub option_diffs : Map Bson → Map Bson → List Text → List SchemaDiff
  option_diffs recorded live [] = []
  option_diffs recorded live (k ∷ ks) =
      let rest = option_diffs recorded live ks in
      if option_eq (at_key recorded k) (at_key live k)
      then rest
      else SchemaDiff.option_changed k ∷ rest

  unfoldable pub diff_collection : CollectionSchema → CollectionSchema → List SchemaDiff
  diff_collection recorded live =
      recorded_diffs live.indexes recorded.indexes
      ++ (live_diffs recorded.indexes live.indexes
          ++ (validator_diffs recorded.validator live.validator
              ++ option_diffs recorded.options live.options
                  (option_keys recorded.options live.options)))

  abbrev pub schema_of : Text → List CollectionSchema → CollectionSchema
  schema_of name live = unwrap_or (find (λ c. text_eq c.collection name) live) (empty_schema name)

  unfoldable pub diff_database : List CollectionSchema → List CollectionSchema → List Text
  diff_database [] live = []
  diff_database (r ∷ rs) live =
      map (describe r.collection) (diff_collection r (schema_of r.collection live))
      ++ diff_database rs live
