-- ===== src/Dump/Reader.antt =====
-- `DocumentReader` of dump/mod.rs: a data blob is a bare concatenation of BSON documents, each of
-- which begins with its own length.
use leafmask.Prelude.{
  ℕ, zero, suc, ◌+◌, ◌-◌, ◌*◌, ◌^◌, Bool, ◌&&◌, Option, none, some, List, [], ◌∷◌, ◌++◌, length,
  take, drop, leb, ltb, nat_eq, if◌then◌else◌,
}
use leafmask.Prelude.Result.{storage, Result, ok, err, ◌>>=◌}
use leafmask.Bson.{Document}

-- `Box<dyn Read>`: the bytes that it still delivers, and whether an I/O error follows them in
-- place of the end of the stream.
pub record ByteStream : Type 0 where
  pub bytes : List ℕ
  pub breaks : Bool

-- The codec of the `bson` crate: from_slice and to_vec. A document's bytes begin with their number, little-endian.
pub record BsonCodec : Type 0 where
  pub from_slice : List ℕ → Option Document
  pub to_vec : Document → List ℕ

abbrev pub max_document_size : ℕ
max_document_size = 64 * 1024 * 1024

-- i32::from_le_bytes on the first four bytes, before the sign is taken
unfoldable pub le_u32 : List ℕ → ℕ
le_u32 (a ∷ b ∷ c ∷ d ∷ _) = a + 256 * b + 65536 * c + 16777216 * d
le_u32 _ = 0

-- `(5..=max_document_size).contains(&len)`; from 2 ^ 31 on, the i32 is negative
unfoldable pub valid_length : ℕ → Bool
valid_length len = ltb len (2 ^ 31) && (leb 5 len && leb len max_document_size)

abbrev pub decoded : Option Document → ByteStream → Result (Option Document × ByteStream)
decoded none s = err storage
decoded (some d) s = ok (some d, s)

module _ ⦃codec : BsonCodec⦄ where
  -- The rest of `next_document` once the length is read: `head` is its four bytes.
  unfoldable pub read_body : List ℕ → ByteStream → Result (Option Document × ByteStream)
  read_body head s =
      if valid_length (le_u32 head)
      then (if ltb (length s.bytes) (le_u32 head - 4)
          then err storage
          else decoded (codec.from_slice (head ++ take (le_u32 head - 4) s.bytes))
              (record s { bytes = drop (le_u32 head - 4) s.bytes }))
      else err storage

  -- fewer than four bytes are left: a clean end only if there is none
  abbrev pub at_end : ByteStream → Result (Option Document × ByteStream)
  at_end s =
      if s.breaks
      then err storage
      else if nat_eq (length s.bytes) 0
      then ok (none, s)
      else err storage

  unfoldable pub next_document : ByteStream → Result (Option Document × ByteStream)
  next_document s =
      if ltb (length s.bytes) 4
      then at_end s
      else read_body (take 4 s.bytes) (record s { bytes = drop 4 s.bytes })

  -- the loop of `next_batch`: `room` is how many documents still fit
  unfoldable pub read_batch : ℕ → ByteStream → Result (List Document × ByteStream)
  read_batch zero s = ok ([], s)
  read_batch (suc room) s = next_document s >>= λ (next, t). elim next [
    | none ↦ ok ([], t)
    | some d ↦ read_batch room t >>= λ (docs, u). ok (d ∷ docs, u)
  ]

  unfoldable pub next_batch : ℕ → ByteStream → Result (List Document × ByteStream)
  next_batch n s = read_batch (if ltb n 1 then 1 else n) s
