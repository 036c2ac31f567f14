-- ===== src/Dump/Rendered.antt =====
-- The table of contents of a dump with two collections, which restores the second one first.
use leafmask.Prelude.{codes, [], ◌∷◌, ◌++◌, ◌≡◌, refl}
use leafmask.Prelude.Decimal.{decimal, digits_onto}
use leafmask.Dump.Metadata.{DumpMetadata, done}
use leafmask.Dump.Storage.{as_str}
use leafmask.Dump.Listing.{render_toc}

abbrev shop : DumpMetadata
shop = record {
  id = codes "20260101";
  status = done;
  created_at = codes "now";
  databases =
      record {
        name = codes "shop";
        collections =
            record {
              name = codes "orders";
              document_count = 120;
              indexes = codes "by_day" ∷ [];
              restore_order = 1;
            }
            ∷ record { name = codes "users"; document_count = 0; indexes = []; restore_order = 0 }
            ∷ [];
      }
      ∷ [];
  size = 4096;
}

shop-rendered :
    render_toc shop
    ≡ codes "dump 20260101\n  status: done\n  created_at: now\n  size: 4096 bytes\n"
      ++ (codes "  database shop:\n"
          ++ (codes "    - users (0 docs, 0 indexes) [restore #0]\n"
              ++ (codes "    - orders (120 docs, 1 indexes) [restore #1]\n"
                  ++ codes "        index: by_day\n")))
unfolding render_toc as_str decimal digits_onto
shop-rendered = refl
