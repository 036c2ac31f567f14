-- ===== src/Dump/Sample.antt =====
-- A storage that is a map from paths to blobs, and a codec for the smallest dumps: names and times
-- of one character, no databases, no indexes.
use leafmask.Prelude.{
  ℕ, Text, false, Option, none, some, List, [], ◌∷◌, Map, at_key, put_key, is_some,
}
use leafmask.Prelude.Result.{not_found, ok, ok_or, ◌>>=◌}
use leafmask.Bson.{Bson}
use leafmask.Dump.Metadata.{DumpStatus, done, DatabaseToc, DumpMetadata}
use leafmask.Restore.Sink.{IndexSpec}
use leafmask.Restore.Collection.{CollectionMeta}
use leafmask.Dump.Storage.{Storage, BlobCodec}

abbrev pub Blobs : Type 0
Blobs = Map (List ℕ)

abbrev first_chars : Blobs → List Text
first_chars [] = []
first_chars (([], b) ∷ m) = first_chars m
first_chars ((c ∷ p, b) ∷ m) = (c ∷ []) ∷ first_chars m

abbrev pub map_store : Storage Blobs
map_store = record {
  list_dumps = λ m. ok (first_chars m);
  get = λ path m. ok_or (at_key m path) not_found;
  put = λ path blob m. (ok tt, put_key m path blob);
  exists = λ path m. ok (is_some (at_key m path));
  get_reader = λ path m.
      ok_or (at_key m path) not_found >>= λ blob. ok (record { bytes = blob; breaks = false });
}

abbrev encode : Text → DumpStatus → Text → List DatabaseToc → ℕ → Option (List ℕ)
encode (i ∷ []) done (t ∷ []) [] n = some (i ∷ t ∷ n ∷ [])
encode _ _ _ _ _ = none

abbrev decode : List ℕ → Option DumpMetadata
decode (i ∷ t ∷ n ∷ []) =
    some (record { id = i ∷ []; status = done; created_at = t ∷ []; databases = []; size = n })
decode _ = none

abbrev encode_meta :
    Text → Text → ℕ → List IndexSpec → Option Bson → List (Text × Bson) → Option (List ℕ)
encode_meta (a ∷ []) (b ∷ []) n [] none [] = some (a ∷ b ∷ n ∷ [])
encode_meta _ _ _ _ _ _ = none

abbrev decode_meta : List ℕ → Option CollectionMeta
decode_meta (a ∷ b ∷ n ∷ []) = some (record {
  database = a ∷ [];
  collection = b ∷ [];
  document_count = n;
  indexes = [];
  validator = none;
  options = [];
})
decode_meta _ = none

instance abbrev pub small_codec : BlobCodec
small_codec = record {
  metadata_to_json = λ m. encode m.id m.status m.created_at m.databases m.size;
  metadata_of_json = decode;
  meta_to_vec =
      λ m. encode_meta m.database m.collection m.document_count m.indexes m.validator m.options;
  meta_of_slice = decode_meta;
  gunzip = λ stream. stream;
}
