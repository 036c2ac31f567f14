-- ===== src/Dump/Metadata.antt =====
-- The metadata of a dump, of dump/mod.rs.
use leafmask.Prelude.{ℕ, Text, List}

pub data DumpStatus : Type 0 where
  done failed in_progress unknown : DumpStatus

pub record CollectionToc : Type 0 where
  pub name : Text
  pub document_count : ℕ
  pub indexes : List Text
  pub restore_order : ℕ

pub record DatabaseToc : Type 0 where
  pub name : Text
  pub collections : List CollectionToc

pub record DumpMetadata : Type 0 where
  pub id : Text
  pub status : DumpStatus
  pub created_at : Text
  pub databases : List DatabaseToc
  pub size : ℕ
