-- ===== src/Restore/Default.antt =====
-- The default `insert_many` of the `MongoSink` trait reports accurately.
use leafmask.Prelude.{
  ℕ, suc, ◌+◌, Text, Bool, true, false, Option, none, some, List, [], ◌∷◌, ◌++◌, ◌≡◌, refl, ap, ◌∙◌,
  inl, inr, arith, length, length-append, Option-cases,
}
use leafmask.Prelude.Result.{ok}
use leafmask.Bson.{Document}
use leafmask.Restore.Exclusions.{InsertError}
use leafmask.Restore.Sink.{BatchInsert, Account, insert_each, insert_many}

abbrev batch : ℕ → List (ℕ × InsertError) → BatchInsert
batch n failures = record { inserted = n; failures = failures }

module _ {S : Type 0} (insert : Text → Text → Document → S → Option InsertError × S)
    (db coll : Text) where
  abbrev next_state : Document → S → S
  next_state d s = (insert db coll d s).1

  insert_each-fine :
      (ordered : Bool) (i : ℕ) (d : Document) (docs : List Document) (out : BatchInsert) (s : S)
      → (insert db coll d s).0 ≡ none
      → insert_each insert db coll ordered i (d ∷ docs) out s
        ≡ insert_each insert db coll ordered
            (suc i)
            docs
            (record out { inserted = suc out.inserted })
            (next_state d s)
  unfolding insert_each
  insert_each-fine ordered i d docs out s e = rw (e, insert_each)

  insert_each-skips :
      (i : ℕ) (d : Document) (docs : List Document) (out : BatchInsert) (s : S) (x : InsertError)
      → (insert db coll d s).0 ≡ some x
      → insert_each insert db coll false i (d ∷ docs) out s
        ≡ insert_each insert db coll false
            (suc i)
            docs
            (record out { failures = out.failures ++ (i, x) ∷ [] })
            (next_state d s)
  unfolding insert_each
  insert_each-skips i d docs out s x e = rw (e, insert_each)

  insert_each-stops :
      (i : ℕ) (d : Document) (docs : List Document) (out : BatchInsert) (s : S) (x : InsertError)
      → (insert db coll d s).0 ≡ some x
      → insert_each insert db coll true i (d ∷ docs) out s
        ≡ (record out { failures = out.failures ++ (i, x) ∷ [] }, next_state d s)
  unfolding insert_each
  insert_each-stops i d docs out s x e = rw (e, insert_each)

  insert_each-unordered :
      (i : ℕ) (docs : List Document) (out : BatchInsert) (s : S)
      → out.inserted + length out.failures ≡ i
      → (insert_each insert db coll false i docs out s).0.inserted
          + length (insert_each insert db coll false i docs out s).0.failures
        ≡ i + length docs
  insert_each-unordered i [] out s h = unfold insert_each in omega (arith, h)
  insert_each-unordered i (d ∷ docs) out s h = elim (Option-cases (insert db coll d s).0) [
    | inl e ↦ rw (insert_each-fine false i d docs out s e) (
        insert_each-unordered (suc i) docs (record out { inserted = suc out.inserted })
          (next_state d s) (omega (arith, h))
        ∙ omega arith)
    | inr (x, e) ↦ rw (insert_each-skips i d docs out s x e) (
        insert_each-unordered (suc i) docs (record out { failures = out.failures ++ (i, x) ∷ [] })
          (next_state d s) (omega (arith, h, length-append out.failures ((i, x) ∷ [])))
        ∙ omega arith)
  ]

  insert_each-ordered :
      (i : ℕ) (docs : List Document) (s : S)
      → Account true
          (i + length docs)
          (insert_each insert db coll true i docs (batch i []) s).0.inserted
          (insert_each insert db coll true i docs (batch i []) s).0.failures
  insert_each-ordered i [] s = unfold insert_each in omega arith
  insert_each-ordered i (d ∷ docs) s = elim (Option-cases (insert db coll d s).0) [
    | inl e ↦
        let same : suc i + length docs ≡ i + length (d ∷ docs) = omega arith in
        rw (insert_each-fine true i d docs (batch i []) s e, ← same)
          (insert_each-ordered (suc i) docs (next_state d s))
    | inr (x, e) ↦ rw (insert_each-stops i d docs (batch i []) s x e) (refl, omega arith)
  ]

  Account-both :
      (ordered : Bool) (docs : List Document) (s : S)
      → Account ordered
          (length docs)
          (insert_each insert db coll ordered 0 docs (batch 0 []) s).0.inserted
          (insert_each insert db coll ordered 0 docs (batch 0 []) s).0.failures
  Account-both true docs s =
      let same : 0 + length docs ≡ length docs = omega arith in
      rw same at (insert_each-ordered 0 docs s)
  Account-both false docs s = insert_each-unordered 0 docs (batch 0 []) s refl ∙ omega arith

  -- What the default `insert_many` reports of a batch is accurate, whatever `insert` does:
  -- unordered, the inserted and the failed documents are together as many as the batch; ordered,
  -- either all are inserted, or there is one failure, at the position behind the inserted
  -- documents and within the batch.
  pub insert_many-Account :
      (ordered : Bool) (docs : List Document) (s t : S) (out : BatchInsert)
      → insert_many insert db coll docs ordered s ≡ (ok out, t)
      → Account ordered (length docs) out.inserted out.failures
  unfolding insert_many
  insert_many-Account ordered docs s t out e =
      let both : ok (insert_each insert db coll ordered 0 docs (batch 0 []) s).0 ≡ ok out =
        ap (λ p. p.0) e in
      let same : (insert_each insert db coll ordered 0 docs (batch 0 []) s).0 ≡ out = cc in
      rw same at (Account-both ordered docs s)
