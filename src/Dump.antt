-- ===== src/Dump.antt =====
-- dump/mod.rs: what a dump keeps in a storage (Storage), and reading it back. `Reader` is the
-- stream of documents of a collection's data.
pub mod Metadata
pub mod Reader
pub mod Framing
pub mod RoundTrip
pub mod Storage
pub mod Latest
pub mod Stored
pub mod Listing
pub mod Sample
pub mod Rendered
pub mod Tests
