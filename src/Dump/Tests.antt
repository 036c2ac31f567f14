-- ===== src/Dump/Tests.antt =====
-- A codec that knows the empty document only, in the five bytes that BSON gives it.
use leafmask.Prelude.{
  codes, text_leb, put_key, none, some, [], ◌∷◌, ◌++◌, ◌≡◌, ◌↔◌, refl, true, false,
}
use leafmask.Prelude.Result.{ok}
use leafmask.Bson.{end}
use leafmask.Dump.Reader.{BsonCodec, le_u32, valid_length, next_batch}
use leafmask.Dump.Metadata.{DumpMetadata, done}
use leafmask.Restore.Collection.{CollectionMeta}
use leafmask.Dump.Storage.{
  metadata_path, data_path, meta_path, in_dump, resolve, list_metadata, read_metadata,
  write_collection_meta, read_collection_meta,
}
use leafmask.Dump.Sample.{Blobs, map_store, small_codec}
use leafmask.Dump.Latest.{Complete, resolve-latest}
use leafmask.Dump.Stored.{data_path-eq-meta_path_iff}
use leafmask.Dump.RoundTrip.{WellFramed, encode, whole, next_batch-encode}

instance abbrev pub five_codec : BsonCodec
five_codec = record { from_slice = λ bytes. some end; to_vec = λ d. 5 ∷ 0 ∷ 0 ∷ 0 ∷ 0 ∷ [] }

end-WellFramed : WellFramed end
unfolding le_u32 valid_length
end-WellFramed = record {
  a = 5;
  b = 0;
  c = 0;
  e = 0;
  tl = 0 ∷ [];
  bytes = refl;
  length_first = refl;
  within = refl;
  back = refl;
}

next_batch-encode_example :
    next_batch 2 (whole (encode (end ∷ end ∷ end ∷ [])))
    ≡ ok (end ∷ end ∷ [], whole (encode (end ∷ [])))
next_batch-encode_example =
    next_batch-encode 2 (end ∷ end ∷ end ∷ [])
      (end-WellFramed, (end-WellFramed, (end-WellFramed, tt)))

-- A storage with a dump whose metadata can be read.
abbrev first_meta : DumpMetadata
first_meta = record {
  id = codes "a";
  status = done;
  created_at = codes "1";
  databases = [];
  size = 3;
}

abbrev second_meta : DumpMetadata
second_meta = record {
  id = codes "b";
  status = done;
  created_at = codes "2";
  databases = [];
  size = 4;
}

abbrev two_dumps : Blobs
two_dumps =
    (metadata_path (codes "a"), codes "a" ++ (codes "1" ++ 3 ∷ []))
    ∷ (metadata_path (codes "b"), codes "b" ++ (codes "2" ++ 4 ∷ []))
    ∷ []

latest-second : resolve map_store (codes "latest") two_dumps ≡ ok second_meta
unfolding resolve list_metadata read_metadata
latest-second = refl

resolve-latest_example :
    Complete map_store two_dumps (codes "a" ∷ codes "b" ∷ []) second_meta
    × ((x : DumpMetadata)
        → Complete map_store two_dumps (codes "a" ∷ codes "b" ∷ []) x
        → text_leb x.created_at second_meta.created_at ≡ true)
resolve-latest_example =
    resolve-latest map_store two_dumps (codes "a" ∷ codes "b" ∷ []) second_meta refl latest-second

abbrev small_meta : CollectionMeta
small_meta = record {
  database = codes "s";
  collection = codes "u";
  document_count = 2;
  indexes = [];
  validator = none;
  options = [];
}

abbrev with_meta : Blobs
with_meta =
    put_key two_dumps (in_dump (codes "a") (meta_path (codes "s") (codes "u")))
      (codes "s" ++ (codes "u" ++ 2 ∷ []))

write-small : write_collection_meta map_store (codes "a") small_meta two_dumps ≡ (ok 3, with_meta)
unfolding write_collection_meta
write-small = refl

read-small :
    read_collection_meta map_store (codes "a") (codes "s") (codes "u") with_meta ≡ ok small_meta
unfolding read_collection_meta
read-small = refl

data_path-eq-meta_path_iff_example :
    (data_path (codes "shop") (codes "users.meta") false ≡ meta_path (codes "shop") (codes "users"))
    ↔ (false ≡ false) × (codes "users.meta" ≡ codes "users" ++ codes ".meta")
data_path-eq-meta_path_iff_example =
    data_path-eq-meta_path_iff (codes "shop") (codes "users.meta") (codes "users") false
