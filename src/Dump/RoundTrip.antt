-- ===== src/Dump/RoundTrip.antt =====
-- What is read back from a collection's data as it was written.
use leafmask.Prelude.{
  ℕ, zero, suc, ◌+◌, Bool, true, false, none, some, List, [], ◌∷◌, ◌++◌, ◌≡◌, refl, ◌∙◌, arith,
  length, take, drop, All, ltb, if◌then◌else◌,
}
use leafmask.Prelude.Result.{ok}
use leafmask.Bson.{Document}
use leafmask.Dump.Reader.{
  ByteStream, BsonCodec, le_u32, valid_length, read_body, at_end, next_document, read_batch,
  next_batch,
}
use leafmask.Dump.Framing.{read_body-back, read_batch-suc, batch_of}

not_short : (n : ℕ) → ltb (suc (suc (suc (suc n)))) 4 ≡ false
not_short n = ground arith

module _ ⦃codec : BsonCodec⦄ where
  -- The codec writes the length in front, within the limit, and reads its own output back.
  pub record WellFramed (d : Document) : Type 0 where
    pub a : ℕ
    pub b : ℕ
    pub c : ℕ
    pub e : ℕ
    pub tl : List ℕ
    pub bytes : codec.to_vec d ≡ a ∷ b ∷ c ∷ e ∷ tl
    pub length_first : le_u32 (a ∷ b ∷ c ∷ e ∷ []) ≡ 4 + length tl
    pub within : valid_length (4 + length tl) ≡ true
    pub back : codec.from_slice (a ∷ b ∷ c ∷ e ∷ tl) ≡ some d

  -- The bare concatenation of the documents.
  abbrev pub encode : List Document → List ℕ
  encode [] = []
  encode (d ∷ docs) = codec.to_vec d ++ encode docs

  abbrev pub whole : List ℕ → ByteStream
  whole bytes = record { bytes = bytes; breaks = false }

  next_document-head :
      (a b c e : ℕ) (r : List ℕ)
      → next_document (whole (a ∷ b ∷ c ∷ e ∷ r)) ≡ read_body (a ∷ b ∷ c ∷ e ∷ []) (whole r)
  unfolding next_document
  next_document-head a b c e r =
      pick (ltb (suc (suc (suc (suc (length r))))) 4) (not_short (length r))
    where
      pick :
          (q : Bool)
          → q ≡ false
          → (if q
              then at_end (whole (a ∷ b ∷ c ∷ e ∷ r))
              else read_body (a ∷ b ∷ c ∷ e ∷ []) (whole r))
            ≡ read_body (a ∷ b ∷ c ∷ e ∷ []) (whole r)
      pick q h = rw h

  next_document-encode :
      (d : Document) (docs : List Document)
      → WellFramed d
      → next_document (whole (encode (d ∷ docs))) ≡ ok (some d, whole (encode docs))
  next_document-encode d docs w = rw w.bytes (
      next_document-head w.a w.b w.c w.e (w.tl ++ encode docs)
      ∙ read_body-back w.a w.b w.c w.e w.tl (encode docs) d w.length_first w.within w.back)

  next_document-empty : next_document (whole []) ≡ ok (none, whole [])
  unfolding next_document
  next_document-empty = refl

  read_batch-encode :
      (room : ℕ) (docs : List Document)
      → All WellFramed docs
      → read_batch room (whole (encode docs)) ≡ ok (take room docs, whole (encode (drop room docs)))
  unfolding batch_of
  read_batch-encode zero docs framed = unfold read_batch in refl
  read_batch-encode (suc room) [] framed = read_batch-suc room (whole []) ∙ rw next_document-empty
  read_batch-encode (suc room) (d ∷ docs) (w, framed) =
      read_batch-suc room (whole (encode (d ∷ docs)))
      ∙ rw (next_document-encode d docs w, read_batch-encode room docs framed)

  -- Of well-framed documents written one behind the other, `next_batch n` reads the first n (the
  -- first if n is 0, all if there are fewer) and leaves the stream at the next.
  pub next_batch-encode :
      (n : ℕ) (docs : List Document)
      → All WellFramed docs
      → next_batch n (whole (encode docs))
        ≡ ok (
          take (if ltb n 1 then 1 else n) docs,
          whole (encode (drop (if ltb n 1 then 1 else n) docs)),
        )
  unfolding next_batch
  next_batch-encode n docs framed = read_batch-encode (if ltb n 1 then 1 else n) docs framed
