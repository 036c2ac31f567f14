-- ===== src/Dump/Framing.antt =====
-- Reading documents off a stream makes it shorter, and reads back what was written.
use leafmask.Prelude.{
  ℕ, zero, suc, ◌+◌, ◌-◌, ◌≤◌, ◌<◌, true, false, Option, none, some, List, [], ◌∷◌, ◌++◌, ◌≡◌, refl,
  sym, ap, ◌∙◌, inl, inr, arith, length, length-append, take, drop, ltb, nat_eq, Bool-cases,
}
use leafmask.Prelude.Result.{Result, ok, ◌>>=◌, Result-cases, >>=-eq-ok}
use leafmask.Bson.{Document}
use leafmask.Dump.Reader.{
  ByteStream, BsonCodec, le_u32, valid_length, decoded, read_body, at_end, next_document,
  read_batch,
}

length-drop_le : {A : Type 0} (n : ℕ) (xs : List A) → length (drop n xs) ≤ length xs
length-drop_le zero xs = omega arith
length-drop_le (suc n) [] = omega arith
length-drop_le (suc n) (x ∷ xs) = omega (arith, length-drop_le n xs)

drop_shorter :
    {A : Type 0} (n : ℕ) (xs : List A) → n ≤ length xs → length (drop n xs) + n ≡ length xs
drop_shorter zero xs h = omega arith
drop_shorter (suc n) [] h = absurd (omega (arith, h))
drop_shorter (suc n) (x ∷ xs) h = omega (arith, drop_shorter n xs (omega (arith, h)))

add_sub_four : (n : ℕ) → 4 + n - 4 ≡ n
add_sub_four n = omega arith

take-append : {A : Type 0} (xs ys : List A) → take (length xs) (xs ++ ys) ≡ xs
take-append [] ys = refl
take-append (x ∷ xs) ys = ap (λ r. x ∷ r) (take-append xs ys)

drop-append : {A : Type 0} (xs ys : List A) → drop (length xs) (xs ++ ys) ≡ ys
drop-append [] ys = refl
drop-append (x ∷ xs) ys = drop-append xs ys

module _ ⦃codec : BsonCodec⦄ where
  -- The stream behind a document that was read.
  abbrev Shorter : ByteStream → Option Document → ByteStream → Type 0
  Shorter s none t = Unit
  Shorter s (some d) t = length t.bytes ≤ length s.bytes

  decoded-Shorter :
      (o : Option Document) (s : ByteStream) (r : Option Document) (t : ByteStream)
      → decoded o s ≡ ok (r, t)
      → length t.bytes ≤ length s.bytes
  decoded-Shorter none s r t e = cc
  decoded-Shorter (some d) s r t e = let same : s ≡ t = cc in rw same (omega arith)

  read_body-Shorter :
      (head : List ℕ) (s : ByteStream) (r : Option Document) (t : ByteStream)
      → read_body head s ≡ ok (r, t)
      → length t.bytes ≤ length s.bytes
  unfolding read_body
  read_body-Shorter head s r t e = elim (Bool-cases (valid_length (le_u32 head))) [
    | inr bad ↦ cc (rw bad at e)
    | inl good ↦ elim (Bool-cases (ltb (length s.bytes) (le_u32 head - 4))) [
      | inl short ↦ cc (rw (good, short) at e)
      | inr long ↦ omega (
        arith,
        length-drop_le (le_u32 head - 4) s.bytes,
        decoded-Shorter _ _ r t (rw (good, long) at e),
      )
    ]
  ]

  at_end-none : (s : ByteStream) (d : Document) (t : ByteStream) → ¬ (at_end s ≡ ok (some d, t))
  at_end-none s d t e = elim (Bool-cases s.breaks) [
    | inl b ↦ cc (rw b at e)
    | inr b ↦ elim (Bool-cases (nat_eq (length s.bytes) 0)) [
      | inl z ↦ cc (rw (b, z) at e)
      | inr z ↦ cc (rw (b, z) at e)
    ]
  ]

  next_document-Shorter :
      (s : ByteStream) (d : Document) (t : ByteStream)
      → next_document s ≡ ok (some d, t)
      → length t.bytes < length s.bytes
  unfolding next_document
  next_document-Shorter s d t e = elim (Bool-cases (ltb (length s.bytes) 4)) [
    | inl few ↦ absurd (at_end-none s d t (rw few at e))
    | inr many ↦
        let shorter =
          read_body-Shorter (take 4 s.bytes) (record s { bytes = drop 4 s.bytes }) (some d) t
            (rw many at e) in
        ground (arith, shorter, drop_shorter 4 s.bytes, many)
  ]

  at_end-same : (s : ByteStream) (t : ByteStream) → at_end s ≡ ok (none, t) → s ≡ t
  at_end-same s t e = elim (Bool-cases s.breaks) [
    | inl b ↦ cc (rw b at e)
    | inr b ↦ elim (Bool-cases (nat_eq (length s.bytes) 0)) [
      | inl z ↦ cc (rw (b, z) at e)
      | inr z ↦ cc (rw (b, z) at e)
    ]
  ]

  next_document-end_le :
      (s : ByteStream) (t : ByteStream)
      → next_document s ≡ ok (none, t)
      → length t.bytes ≤ length s.bytes
  unfolding next_document
  next_document-end_le s t e = elim (Bool-cases (ltb (length s.bytes) 4)) [
    | inl few ↦ rw (at_end-same s t (rw few at e)) (omega arith)
    | inr many ↦
        let shorter =
          read_body-Shorter (take 4 s.bytes) (record s { bytes = drop 4 s.bytes }) none t
            (rw many at e) in
        ground (arith, shorter, drop_shorter 4 s.bytes, many)
  ]

  unfoldable pub batch_of : ℕ → Option Document × ByteStream → Result (List Document × ByteStream)
  batch_of room (none, t) = ok ([], t)
  batch_of room (some d, t) = read_batch room t >>= λ (docs, u). ok (d ∷ docs, u)

  pub read_batch-suc :
      (room : ℕ) (s : ByteStream) → read_batch (suc room) s ≡ (next_document s >>= batch_of room)
  unfolding read_batch batch_of
  read_batch-suc room s = elim (Result-cases (next_document s)) [
    | inl ((none, t), e) ↦ rw e
    | inl ((some d, t), e) ↦ rw e
    | inr (x, e) ↦ rw e
  ]

  batch_of-Shorter :
      (room : ℕ) (s : ByteStream) (docs : List Document) (t : ByteStream)
      (p : Option Document × ByteStream)
      → ((rest : List Document) (w : ByteStream)
          → read_batch room p.1 ≡ ok (rest, w)
          → length w.bytes + length rest ≤ length p.1.bytes)
      → next_document s ≡ ok p
      → batch_of room p ≡ ok (docs, t)
      → length t.bytes + length docs ≤ length s.bytes
  unfolding batch_of
  batch_of-Shorter room s docs t (none, u) ih f g =
      let no_docs : [] ≡ docs = cc in
      let same : u ≡ t = cc in rw (← no_docs, ← same) (omega (arith, next_document-end_le s u f))
  batch_of-Shorter room s docs t (some d, u) ih f g =
      let ((rest, w), h, k) = >>=-eq-ok (read_batch room u) _ g in
      let same_docs : d ∷ rest ≡ docs = cc in
      let same : w ≡ t = cc in
      rw (← same_docs, ← same) (omega (arith, next_document-Shorter s d u f, ih rest w h))

  pub read_batch-Shorter :
      (room : ℕ) (s : ByteStream) (docs : List Document) (t : ByteStream)
      → read_batch room s ≡ ok (docs, t)
      → length t.bytes + length docs ≤ length s.bytes
  unfolding batch_of
  read_batch-Shorter zero s docs t e =
      unfold read_batch in
      let no_docs : [] ≡ docs = cc in let same : s ≡ t = cc in rw (← no_docs, same) (omega arith)
  read_batch-Shorter (suc room) s docs t e =
      let (p, f, g) =
        >>=-eq-ok (next_document s) (batch_of room) (sym (read_batch-suc room s) ∙ e) in
      batch_of-Shorter room s docs t p (read_batch-Shorter room p.1) f g

  pub read_body-back :
      (a b c e : ℕ) (tl rest : List ℕ) (d : Document)
      → le_u32 (a ∷ b ∷ c ∷ e ∷ []) ≡ 4 + length tl
      → valid_length (4 + length tl) ≡ true
      → codec.from_slice (a ∷ b ∷ c ∷ e ∷ tl) ≡ some d
      → read_body (a ∷ b ∷ c ∷ e ∷ []) (record { bytes = tl ++ rest; breaks = false })
        ≡ ok (some d, record { bytes = rest; breaks = false })
  unfolding read_body
  read_body-back a b c e tl rest d len valid back =
      rw (
        len,
        valid,
        add_sub_four (length tl),
        enough,
        take-append tl rest,
        drop-append tl rest,
        back,
      )
    where
      enough : ltb (length (tl ++ rest)) (length tl) ≡ false
      enough = ground (arith, length-append tl rest)
