-- ===== src/Subset/Walk.antt =====
-- The loop of the traversal: it reaches exactly what the seeds need, and it ends.
use leafmask.Prelude.{
  ℕ, zero, suc, Text, text_Eq, none, some, List, [], ◌∷◌, ◌≡◌, refl, sym, ◌∙◌, ◌⊎◌, inl, inr, In,
  List-cases,
}
use leafmask.Prelude.Result.{Error, Result, ok, err, ◌>>=◌, Result-cases}
use leafmask.Subset.Worklist.{Traversal, admit_all, walk}
use leafmask.Subset.Search.{Grows, admit_all-Grows, admit_all-visits, Inv, admit_all-Inv}

module _ {N : Type 0} (key : N → Text) (follow : N → Traversal N → Result (Traversal N))
    (succs : N → Result (List N)) where
  pub walk-empty : (fuel : ℕ) (s : Traversal N) → s.work ≡ [] → walk follow fuel s ≡ some (ok s)
  unfolding walk
  walk-empty zero s e = simp (e, walk)
  walk-empty (suc fuel) s e = simp (e, walk)

  pub walk-zero :
      (s : Traversal N) (n : N) (rest : List N) → s.work ≡ n ∷ rest → walk follow 0 s ≡ none
  unfolding walk
  walk-zero s n rest e = rw (e, walk)

  pub walk-step :
      (fuel : ℕ) (s u : Traversal N) (n : N) (rest : List N)
      → s.work ≡ n ∷ rest
      → follow n (record s { work = rest }) ≡ ok u
      → walk follow (suc fuel) s ≡ walk follow fuel u
  unfolding walk
  walk-step fuel s u n rest e f = rw (e, walk) (rw (f, walk))

  pub walk-fail :
      (fuel : ℕ) (s : Traversal N) (n : N) (rest : List N) (x : Error)
      → s.work ≡ n ∷ rest
      → follow n (record s { work = rest }) ≡ err x
      → walk follow (suc fuel) s ≡ some (err x)
  unfolding walk
  walk-fail fuel s n rest x e f = rw (e, walk) (rw (f, walk))

  -- Following a node admits its successors, or fails as the source does.
  abbrev pub Follows : Type 0
  Follows = (n : N) (s : Traversal N) → follow n s ≡ (succs n >>= λ ns. ok (admit_all key ns s))

  abbrev pub Succ : N → N → Type 0
  Succ n m = (ns : List N) × (succs n ≡ ok ns) × In m ns

  abbrev pub Done : N → Traversal N → Type 0
  Done n s = (ns : List N) × (succs n ≡ ok ns) × ((m : N) → In m ns → In (key m) s.visited)

  abbrev pub IsClosed : Traversal N → Type 0
  IsClosed s = (n : N) → In n s.admitted → In n s.work ⊎ Done n s

  popped-Inv :
      (P : N → Type 0) (s : Traversal N) (n : N) (rest : List N)
      → s.work ≡ n ∷ rest
      → Inv key P s
      → Inv key P (record s { work = rest })
  popped-Inv P s n rest e h = record {
    sound = h.sound;
    queued = λ m i. h.queued m (rw e (inr i));
    shown = h.shown;
  }

  followed-Done :
      (s : Traversal N) (n : N) (ns : List N) → succs n ≡ ok ns → Done n (admit_all key ns s)
  followed-Done s n ns found = (ns, found, admit_all-visits key ns s)

  module _ (s : Traversal N) (n : N) (rest ns : List N) where
    abbrev popped : Traversal N
    popped = record s { work = rest }

    abbrev next : Traversal N
    next = admit_all key ns popped

    grown : Grows key popped next
    grown = admit_all-Grows key ns popped

    still-Done : (m : N) → Done m s → Done m next
    still-Done m (ms, f, d) = (ms, f, λ m' i. grown.visits (key m') (d m' i))

    worked :
        (m : N) → s.work ≡ n ∷ rest → succs n ≡ ok ns → In m s.work → In m next.work ⊎ Done m next
    worked m e found w = elim (rw e at w) [
      | inl same ↦ inr (rw same (followed-Done popped n ns found))
      | inr r ↦ inl (grown.waits m r)
    ]

    round-IsClosed : s.work ≡ n ∷ rest → succs n ≡ ok ns → IsClosed s → IsClosed next
    round-IsClosed e found closed m i = elim (grown.new m i) [
      | inr w ↦ inl w
      | inl a ↦ elim (closed m a) [ inl w ↦ worked m e found w | inr d ↦ inr (still-Done m d) ]
    ]

  -- What the loop gives back when it ends without an error.
  pub record Ended (P : N → Type 0) (s t : Traversal N) : Type 0 where
    pub inv : Inv key P t
    pub closed : IsClosed t
    pub empty : t.work ≡ []
    pub grows : (n : N) → In n s.admitted → In n t.admitted

  module _ (follows : Follows) where
    pub follow-next :
        (s : Traversal N) (n : N) (rest ns : List N)
        → succs n ≡ ok ns
        → follow n (record s { work = rest }) ≡ ok (next s n rest ns)
    follow-next s n rest ns found = follows n (record s { work = rest }) ∙ rw found

    pub follow-fails :
        (s : Traversal N) (n : N) (rest : List N) (x : Error)
        → succs n ≡ err x
        → follow n (record s { work = rest }) ≡ err x
    follow-fails s n rest x e = follows n (record s { work = rest }) ∙ rw e

  module _ (follows : Follows) (P : N → Type 0) (keeps : (n m : N) → P n → Succ n m → P m) where
    next-Inv :
        (s : Traversal N) (n : N) (rest ns : List N)
        → s.work ≡ n ∷ rest
        → succs n ≡ ok ns
        → Inv key P s
        → Inv key P (next s n rest ns)
    next-Inv s n rest ns e found inv =
        admit_all-Inv key P ns (record s { work = rest })
          (λ m i. keeps n m (inv.sound n (inv.queued n (rw e (inl refl)))) (ns, found, i))
          (popped-Inv P s n rest e inv)

    Ended-now : (s : Traversal N) → Inv key P s → IsClosed s → s.work ≡ [] → Ended P s s
    Ended-now s inv closed e = record { inv = inv; closed = closed; empty = e; grows = λ n h. h }

    same-result : (s t : Traversal N) → some (ok s) ≡ some (ok t) → s ≡ t
    same-result s t e = cc

    Ended-before :
        (s t : Traversal N) (n : N) (rest ns : List N) → Ended P (next s n rest ns) t → Ended P s t
    Ended-before s t n rest ns h = record {
      inv = h.inv;
      closed = h.closed;
      empty = h.empty;
      grows = λ m i. h.grows m ((grown s n rest ns).admits m i);
    }

    -- When the loop ends, every admitted node is needed, the admitted nodes are closed under the
    -- successors up to their keys, and no node waits.
    pub walk-Ended :
        (fuel : ℕ) (s t : Traversal N)
        → Inv key P s
        → IsClosed s
        → walk follow fuel s ≡ some (ok t)
        → Ended P s t
    walk-Ended zero s t inv closed h = elim (List-cases s.work) [
      | inl e ↦ rw (← same-result s t (sym (walk-empty zero s e) ∙ h)) (Ended-now s inv closed e)
      | inr (n, rest, e) ↦ cc (walk-zero s n rest e, h)
    ]
    walk-Ended (suc fuel) s t inv closed h = elim (List-cases s.work) [
      | inl e ↦
          rw (← same-result s t (sym (walk-empty (suc fuel) s e) ∙ h)) (Ended-now s inv closed e)
      | inr (n, rest, e) ↦ elim (Result-cases (succs n)) [
        | inl (ns, found) ↦ Ended-before s t n rest ns (
            walk-Ended fuel (next s n rest ns) t (next-Inv s n rest ns e found inv)
              (round-IsClosed s n rest ns e found closed)
              (sym (
                  walk-step fuel s (next s n rest ns) n rest e
                    (follow-next follows s n rest ns found))
                ∙ h))
        | inr (x, failed) ↦
            cc (walk-fail fuel s n rest x e (follow-fails follows s n rest x failed), h)
      ]
    ]
