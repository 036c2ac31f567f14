-- ===== src/Dump/Listing.antt =====
-- Listing, showing and deleting dumps: dump/management.rs and `render_toc` of dump/mod.rs.
use leafmask.Prelude.{
  ℕ, Text, codes, text_leb, List, [], ◌∷◌, ◌++◌, map, join, length, if◌then◌else◌, leb, ◌≡◌, refl,
}
use leafmask.Prelude.Decimal.{decimal}
use leafmask.Prelude.Result.{Error, Result, ok, err, ◌>>=◌}
use leafmask.Dump.Metadata.{DumpStatus, CollectionToc, DatabaseToc, DumpMetadata}
use leafmask.Dump.Storage.{Storage, BlobCodec, as_str, list_metadata, read_metadata, resolve}

pub record DumpListing : Type 0 where
  pub id : Text
  pub status : DumpStatus
  pub size : ℕ

abbrev pub listing_of : DumpMetadata → DumpListing
listing_of m = record { id = m.id; status = m.status; size = m.size }

-- The stable sort by id.
abbrev pub insert_listing : DumpListing → List DumpListing → List DumpListing
insert_listing d [] = d ∷ []
insert_listing d (x ∷ xs) =
    let rest = insert_listing d xs in if text_leb d.id x.id then d ∷ x ∷ xs else x ∷ rest

abbrev pub sort_listings : List DumpListing → List DumpListing
sort_listings [] = []
sort_listings (d ∷ ds) = insert_listing d (sort_listings ds)

abbrev pub listing_line : DumpListing → Text
listing_line d =
    d.id ++ (codes "\t" ++ (as_str d.status ++ (codes "\t" ++ (decimal d.size ++ codes " bytes"))))

-- The stable sort by `restore_order`.
abbrev pub insert_toc : CollectionToc → List CollectionToc → List CollectionToc
insert_toc c [] = c ∷ []
insert_toc c (x ∷ xs) =
    let rest = insert_toc c xs in
    if leb c.restore_order x.restore_order then c ∷ x ∷ xs else x ∷ rest

abbrev pub sort_tocs : List CollectionToc → List CollectionToc
sort_tocs [] = []
sort_tocs (c ∷ cs) = insert_toc c (sort_tocs cs)

abbrev pub render_indexes : List Text → Text
render_indexes [] = []
render_indexes (i ∷ is) = codes "        index: " ++ (i ++ (codes "\n" ++ render_indexes is))

abbrev pub render_collections : List CollectionToc → Text
render_collections [] = []
render_collections (c ∷ cs) =
    codes "    - "
    ++ (c.name
        ++ (codes " ("
            ++ (decimal c.document_count
                ++ (codes " docs, "
                    ++ (decimal (length c.indexes)
                        ++ (codes " indexes) [restore #"
                            ++ (decimal c.restore_order
                                ++ (codes "]\n"
                                    ++ (render_indexes c.indexes ++ render_collections cs)))))))))

abbrev pub render_databases : List DatabaseToc → Text
render_databases [] = []
render_databases (db ∷ dbs) =
    codes "  database "
    ++ (db.name
        ++ (codes ":\n" ++ (render_collections (sort_tocs db.collections) ++ render_databases dbs)))

unfoldable pub render_toc : DumpMetadata → Text
render_toc m =
    codes "dump "
    ++ (m.id
        ++ (codes "\n  status: "
            ++ (as_str m.status
                ++ (codes "\n  created_at: "
                    ++ (m.created_at
                        ++ (codes "\n  size: "
                            ++ (decimal m.size
                                ++ (codes " bytes\n" ++ render_databases m.databases))))))))

module _ {S : Type 0} ⦃codec : BlobCodec⦄ (store : Storage S) where
  unfoldable pub list_entries : S → Result (List DumpListing)
  list_entries s = list_metadata store s >>= λ all. ok (sort_listings (map listing_of all))

  unfoldable pub list_dumps : S → Result Text
  unfolding list_entries
  list_dumps s = list_entries s >>= λ ds. ok (join (codes "\n") (map listing_line ds))

  unfoldable pub show_dump : Text → S → Result Text
  show_dump id_or_latest s = resolve store id_or_latest s >>= λ m. ok (render_toc m)

  -- With the backend's `delete`.
  module _ (delete : Text → S → Result {0} Unit × S) where
    abbrev pub delete_read : Text → Result DumpMetadata → S → Result {0} Unit × S
    delete_read id (err e) s = (err e, s)
    delete_read id (ok m) s = delete id s

    unfoldable pub delete_dump : Text → S → Result {0} Unit × S
    delete_dump id s = delete_read id (read_metadata store id s) s

    -- A dump whose metadata cannot be read is not deleted, and the error is the read's.
    delete_dump-unreadable :
        (id : Text) (e : Error) (s : S)
        → read_metadata store id s ≡ err e
        → delete_dump id s ≡ (err e, s)
    unfolding delete_dump
    delete_dump-unreadable id e s failed = rw failed refl
