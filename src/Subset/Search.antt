-- ===== src/Subset/Search.antt =====
-- The traversal as a search: what `admit` does to the state, and what the walk reaches.
use leafmask.Prelude.{
  Text, text_Eq, List, [], ◌∷◌, ◌++◌, ◌≡◌, refl, ◌⊎◌, inl, inr, contains, contains_iff, In,
  In-append, In-append_left, In-append_right, Bool-cases,
}
use leafmask.Subset.Worklist.{Traversal, fresh, admit, admit_all}

-- The least set that holds the seeds and is closed under the successors.
pub data Need {N : Type 0} (Seed : N → Type 0) (Succ : N → N → Type 0) : N → Type 0 where
  seeded : {n : N} → Seed n → Need Seed Succ n
  referenced : {n m : N} → Need Seed Succ n → Succ n m → Need Seed Succ m

module _ {N : Type 0} (key : N → Text) where
  -- From s to t nothing is lost, and what is new waits in the work list.
  pub record Grows (s t : Traversal N) : Type 0 where
    pub visits : (k : Text) → In k s.visited → In k t.visited
    pub admits : (n : N) → In n s.admitted → In n t.admitted
    pub waits : (n : N) → In n s.work → In n t.work
    pub new : (n : N) → In n t.admitted → In n s.admitted ⊎ In n t.work

  Grows-refl : (s : Traversal N) → Grows s s
  Grows-refl s = record {
    visits = λ k h. h;
    admits = λ n h. h;
    waits = λ n h. h;
    new = λ n h. inl h;
  }

  Grows-trans : (s t u : Traversal N) → Grows s t → Grows t u → Grows s u
  Grows-trans s t u g h = record {
    visits = λ k i. h.visits k (g.visits k i);
    admits = λ n i. h.admits n (g.admits n i);
    waits = λ n i. h.waits n (g.waits n i);
    new = λ n i. elim (h.new n i) [
      | inr w ↦ inr w
      | inl a ↦ elim (g.new n a) [ inl b ↦ inl b | inr w ↦ inr (h.waits n w) ]
    ];
  }

  push-Grows :
      (n : N) (s : Traversal N)
      → Grows s (record {
        visited = key n ∷ s.visited;
        work = n ∷ s.work;
        admitted = s.admitted ++ n ∷ [];
      })
  push-Grows n s = record {
    visits = λ k h. inr h;
    admits = λ m h. In-append_left m s.admitted (n ∷ []) h;
    waits = λ m h. inr h;
    new = λ m h. elim ((In-append m s.admitted (n ∷ [])).0 h) [
      | inl a ↦ inl a
      | inr l ↦ elim l [ inl e ↦ inr (inl e) | inr w ↦ absurd w ]
    ];
  }

  admit-Grows : (n : N) (s : Traversal N) → Grows s (admit key n s)
  unfolding admit
  admit-Grows n s = elim (Bool-cases (contains s.visited (key n))) [
    | inl e ↦ rw e (Grows-refl s)
    | inr e ↦ rw e (push-Grows n s)
  ]

  pub admit_all-Grows : (ns : List N) (s : Traversal N) → Grows s (admit_all key ns s)
  unfolding admit_all
  admit_all-Grows [] s = Grows-refl s
  admit_all-Grows (n ∷ ns) s =
      Grows-trans s (admit key n s) (admit_all key ns (admit key n s)) (admit-Grows n s)
        (admit_all-Grows ns (admit key n s))

  admit-visits : (n : N) (s : Traversal N) → In (key n) (admit key n s).visited
  unfolding admit
  admit-visits n s = elim (Bool-cases (contains s.visited (key n))) [
    | inl e ↦ rw e ((contains_iff s.visited (key n)).0 e)
    | inr e ↦ rw e (inl refl)
  ]

  pub admit_all-visits :
      (ns : List N) (s : Traversal N) (n : N) → In n ns → In (key n) (admit_all key ns s).visited
  unfolding admit_all
  admit_all-visits [] s n h = elim h [ ]
  admit_all-visits (m ∷ ns) s n (inl e) =
      rw e ((admit_all-Grows ns (admit key m s)).visits (key m) (admit-visits m s))
  admit_all-visits (m ∷ ns) s n (inr h) = admit_all-visits ns (admit key m s) n h

  -- What holds of the state at every moment: only needed nodes are admitted, the work list holds
  -- admitted nodes, and the visited keys are those of the admitted nodes.
  pub record Inv (P : N → Type 0) (s : Traversal N) : Type 0 where
    pub sound : (n : N) → In n s.admitted → P n
    pub queued : (n : N) → In n s.work → In n s.admitted
    pub shown : (k : Text) → In k s.visited → (n : N) × In n s.admitted × (k ≡ key n)

  pub Inv-fresh : (P : N → Type 0) → Inv P fresh
  Inv-fresh P = record {
    sound = λ n h. absurd h;
    queued = λ n h. absurd h;
    shown = λ k h. absurd h;
  }

  push-Inv :
      (P : N → Type 0) (n : N) (s : Traversal N)
      → P n
      → Inv P s
      → Inv P (record {
        visited = key n ∷ s.visited;
        work = n ∷ s.work;
        admitted = s.admitted ++ n ∷ [];
      })
  push-Inv P n s p h =
      let last = In-append_right n s.admitted (n ∷ []) (inl refl) in
      record {
        sound = λ m i. elim ((In-append m s.admitted (n ∷ [])).0 i) [
          | inl a ↦ h.sound m a
          | inr l ↦ elim l [ inl e ↦ rw e p | inr w ↦ absurd w ]
        ];
        queued = λ m i. elim i [
          | inl e ↦ rw e last
          | inr w ↦ In-append_left m s.admitted (n ∷ []) (h.queued m w)
        ];
        shown = λ k i. elim i [
          | inl e ↦ (n, last, e)
          | inr v ↦ let (m, a, e) = h.shown k v in (m, In-append_left m s.admitted (n ∷ []) a, e)
        ];
      }

  admit-Inv : (P : N → Type 0) (n : N) (s : Traversal N) → P n → Inv P s → Inv P (admit key n s)
  unfolding admit
  admit-Inv P n s p h = elim (Bool-cases (contains s.visited (key n))) [
    | inl e ↦ rw e h
    | inr e ↦ rw e (push-Inv P n s p h)
  ]

  pub admit_all-Inv :
      (P : N → Type 0) (ns : List N) (s : Traversal N)
      → ((n : N) → In n ns → P n)
      → Inv P s
      → Inv P (admit_all key ns s)
  unfolding admit_all
  admit_all-Inv P [] s p h = h
  admit_all-Inv P (n ∷ ns) s p h =
      admit_all-Inv P ns (admit key n s) (λ m i. p m (inr i)) (admit-Inv P n s (p n (inl refl)) h)
