-- ===== src/Dump/Storage.antt =====
-- The `Storage` trait of storage/mod.rs, and what dump/mod.rs keeps in a storage: the metadata of
-- each dump and, for each collection, its structure and its data.
use leafmask.Prelude.{
  Text, codes, text_eq, text_leb, Bool, true, false, Option, none, some, List, [], ◌∷◌, ◌++◌,
  filter, ℕ, length, if◌then◌else◌,
}
use leafmask.Prelude.Result.{storage, not_found, Result, ok, err, ok_or, ◌>>=◌}
use leafmask.Dump.Metadata.{DumpStatus, done, failed, in_progress, unknown, DumpMetadata}
use leafmask.Dump.Reader.{ByteStream}
use leafmask.Restore.Collection.{CollectionMeta, DumpStorage}

-- The operations that dumps use. A backend has a state of type S, which writing passes on.
pub record Storage (S : Type 0) : Type 0 where
  pub list_dumps : S → Result (List Text)
  pub get : Text → S → Result (List ℕ)
  pub put : Text → List ℕ → S → Result {0} Unit × S
  pub exists : Text → S → Result Bool
  pub get_reader : Text → S → Result ByteStream

-- serde_json on the metadata, the bson crate on the structure of a collection, and the decoder of
-- flate2.
pub record BlobCodec : Type 0 where
  pub metadata_to_json : DumpMetadata → Option (List ℕ)
  pub metadata_of_json : List ℕ → Option DumpMetadata
  pub meta_to_vec : CollectionMeta → Option (List ℕ)
  pub meta_of_slice : List ℕ → Option CollectionMeta
  pub gunzip : ByteStream → ByteStream

unfoldable pub as_str : DumpStatus → Text
as_str done = codes "done"
as_str failed = codes "failed"
as_str in_progress = codes "in-progress"
as_str unknown = codes "unknown"

-- `== DumpStatus::Done`
abbrev pub completed : DumpStatus → Bool
completed done = true
completed _ = false

abbrev pub metadata_path : Text → Text
metadata_path id = id ++ codes "/metadata.json"

abbrev pub data_ext : Bool → Text
data_ext true = codes ".bson.gz"
data_ext false = codes ".bson"

abbrev pub data_path : Text → Text → Bool → Text
data_path db collection gzip = codes "data/" ++ (db ++ (codes "/" ++ (collection ++ data_ext gzip)))

abbrev pub meta_path : Text → Text → Text
meta_path db collection = codes "data/" ++ (db ++ (codes "/" ++ (collection ++ codes ".meta.bson")))

abbrev pub in_dump : Text → Text → Text
in_dump dump_id path = dump_id ++ (codes "/" ++ path)

-- The stable sort by descending `created_at`, as an insertion sort.
abbrev pub insert_latest : DumpMetadata → List DumpMetadata → List DumpMetadata
insert_latest m [] = m ∷ []
insert_latest m (x ∷ xs) =
    let rest = insert_latest m xs in
    if text_leb x.created_at m.created_at then m ∷ x ∷ xs else x ∷ rest

abbrev pub sort_latest : List DumpMetadata → List DumpMetadata
sort_latest [] = []
sort_latest (m ∷ ms) = insert_latest m (sort_latest ms)

abbrev pub first_done : List DumpMetadata → Result DumpMetadata
first_done [] = err not_found
first_done (m ∷ ms) = ok m

module _ {S : Type 0} ⦃codec : BlobCodec⦄ (store : Storage S) where
  abbrev pub put_encoded : Text → Option (List ℕ) → S → Result {0} Unit × S
  put_encoded path none s = (err storage, s)
  put_encoded path (some bytes) s = store.put path bytes s

  unfoldable pub write_metadata : DumpMetadata → S → Result {0} Unit × S
  write_metadata m s = put_encoded (metadata_path m.id) (codec.metadata_to_json m) s

  unfoldable pub read_metadata : Text → S → Result DumpMetadata
  read_metadata id s =
      store.get (metadata_path id) s >>= λ bytes. ok_or (codec.metadata_of_json bytes) storage

  -- What stands for a dump that cannot be read.
  abbrev pub unreadable : Text → DumpMetadata
  unreadable id = record { id = id; status = unknown; created_at = []; databases = []; size = 0 }

  abbrev pub or_unreadable : Text → Result DumpMetadata → DumpMetadata
  or_unreadable id (ok m) = m
  or_unreadable id (err e) = unreadable id

  abbrev pub read_all : List Text → S → List DumpMetadata
  read_all [] s = []
  read_all (id ∷ ids) s = or_unreadable id (read_metadata id s) ∷ read_all ids s

  unfoldable pub list_metadata : S → Result (List DumpMetadata)
  list_metadata s = store.list_dumps s >>= λ ids. ok (read_all ids s)

  abbrev pub resolve_latest : S → Result DumpMetadata
  resolve_latest s =
      list_metadata s >>= λ all. first_done (sort_latest (filter (λ m. completed m.status) all))

  unfoldable pub resolve : Text → S → Result DumpMetadata
  resolve id_or_latest s =
      if text_eq id_or_latest (codes "latest")
      then resolve_latest s
      else read_metadata id_or_latest s

  -- The number of bytes written.
  abbrev pub counted : ℕ → Result {0} Unit × S → Result ℕ × S
  counted n (ok u, s) = (ok n, s)
  counted n (err e, s) = (err e, s)

  abbrev pub put_counted : Text → Option (List ℕ) → S → Result ℕ × S
  put_counted path none s = (err storage, s)
  put_counted path (some raw) s = counted (length raw) (store.put path raw s)

  unfoldable pub write_collection_meta : Text → CollectionMeta → S → Result ℕ × S
  write_collection_meta dump_id m s =
      put_counted (in_dump dump_id (meta_path m.database m.collection)) (codec.meta_to_vec m) s

  unfoldable pub read_collection_meta : Text → Text → Text → S → Result CollectionMeta
  read_collection_meta dump_id db collection s =
      store.get (in_dump dump_id (meta_path db collection)) s >>= λ raw.
      ok_or (codec.meta_of_slice raw) storage

  abbrev pub open_by : Text → Text → S → Bool → Result ByteStream
  open_by gz_path plain_path s true =
      store.get_reader gz_path s >>= λ inner. ok (codec.gunzip inner)
  open_by gz_path plain_path s false = store.get_reader plain_path s

  -- The compressed blob is preferred.
  unfoldable pub open_document_reader : Text → Text → Text → S → Result ByteStream
  open_document_reader dump_id db collection s =
      let gz_path = in_dump dump_id (data_path db collection true) in
      let plain_path = in_dump dump_id (data_path db collection false) in
      store.exists gz_path s >>= λ gzipped. open_by gz_path plain_path s gzipped

  -- What a restore reads of a storage.
  abbrev pub dump_storage : S → DumpStorage
  dump_storage s = record {
    read_collection_meta = λ id db coll. read_collection_meta id db coll s;
    open_document_reader = λ id db coll. open_document_reader id db coll s;
  }
