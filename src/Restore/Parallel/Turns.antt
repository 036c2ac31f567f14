-- ===== src/Restore/Parallel/Turns.antt =====
-- What a turn of a worker keeps.
use leafmask.Prelude.{
  ℕ, ◌≤◌, Text, true, none, some, List, [], ◌∷◌, ◌++◌, ◌≡◌, ◌≢◌, refl, length, ◌⊎◌, inl, inr, In,
  All, is_some, nat_eq, nat_eq_iff, Bool-cases, arith,
}
use leafmask.Dump.Reader.{BsonCodec}
use leafmask.Restore.Collection.{Restore, RestoreItemResult, restore_item}
use leafmask.Restore.Run.{RestoreItem}
use leafmask.Restore.Parallel.{
  Worker, ready, claiming, running, stopping, storing, finished, Shared, fill, item_at, raises,
  Move, halt, go_on, run_out, claim, fail, restore, raise, store,
}
use leafmask.Restore.Parallel.Claims.{Claimed, turn-slot}

All-map :
    {P Q : Worker → Type 0} (ws : List Worker) → ((x : Worker) → P x → Q x) → All P ws → All Q ws
All-map [] keep h = tt
All-map (x ∷ xs) keep (h, hs) = (keep x h, All-map xs keep hs)

pub All-turn :
    {P Q : Worker → Type 0} (before after : List Worker) {w w' : Worker}
    → ((x : Worker) → P x → Q x)
    → (P w → Q w')
    → All P (before ++ w ∷ after)
    → All Q (before ++ w' ∷ after)
All-turn [] after keep move (p, rest) = (move p, All-map after keep rest)
All-turn (x ∷ before) after keep move (p, rest) = (keep x p, All-turn before after keep move rest)

pub All-here :
    (P : Worker → Type 0) (before after : List Worker) (w : Worker)
    → All P (before ++ w ∷ after)
    → P w
All-here P [] after w h = h.0
All-here P (x ∷ before) after w h = All-here P before after w h.1

In-turn :
    (x : Worker) (before after : List Worker) (w : Worker)
    → In x (before ++ w ∷ after)
    → (x ≡ w) ⊎ ((w' : Worker) → In x (before ++ w' ∷ after))
In-turn x [] after w (inl e) = inl e
In-turn x [] after w (inr m) = inr (λ w'. inr m)
In-turn x (y ∷ before) after w (inl e) = inr (λ w'. inl e)
In-turn x (y ∷ before) after w (inr m) = elim (In-turn x before after w m) [
  | inl e ↦ inl e
  | inr stays ↦ inr (λ w'. inr (stays w'))
]

In-here : (before after : List Worker) (w : Worker) → In w (before ++ w ∷ after)
In-here [] after w = inl refl
In-here (x ∷ before) after w = inr (In-here before after w)

module _ {S : Type 0} ⦃codec : BsonCodec⦄ (self : Restore S) (dump_id : Text)
    (items : List RestoreItem) where
  -- The result is what restoring the item at the index returned, in some state of the target.
  abbrev pub Came : ℕ → RestoreItemResult → Type 0
  Came i r =
      (item : RestoreItem) × (s : S) × (t : S) × (item_at items i ≡ some item)
      × (restore_item self dump_id item.db item.coll s ≡ some (r, t))

  abbrev pub Good : Shared S → Worker → Type 0
  Good m (stopping i r) = (raises self dump_id items r ≡ true) × Came i r
  Good m (storing i r) = Came i r
  Good m finished = (m.stop ≡ true) ⊎ (length items ≤ m.next)
  Good m _ = Unit

  -- A fatal result is in a slot, or on its way there.
  abbrev pub Raised : Shared S → List Worker → Type 0
  Raised m ws =
      (i : ℕ) × (r : RestoreItemResult) × (is_some r.fatal ≡ true)
      × ((m.results i ≡ some r) ⊎ In (storing i r) ws)

  -- The flag is never lowered and the cursor never moves back.
  pub Good-mono :
      (m m' : Shared S)
      → (m.stop ≡ true → m'.stop ≡ true)
      → m.next ≤ m'.next
      → (x : Worker) → Good m x
      → Good m' x
  Good-mono m m' up on finished (inl e) = inl (up e)
  Good-mono m m' up on finished (inr e) = inr (omega (arith, on, e))
  Good-mono m m' up on (stopping i r) g = g
  Good-mono m m' up on (storing i r) g = g
  Good-mono m m' up on ready g = tt
  Good-mono m m' up on claiming g = tt
  Good-mono m m' up on (running i) g = tt

  pub Move-later :
      {m m' : Shared S} {w w' : Worker}
      → Move self dump_id items m w m' w'
      → (m.stop ≡ true → m'.stop ≡ true) × (m.next ≤ m'.next)
  Move-later (halt e) = (λ h. h, omega arith)
  Move-later (go_on e) = (λ h. h, omega arith)
  Move-later (run_out e) = (λ h. h, omega arith)
  Move-later (claim e) = (λ h. h, omega arith)
  Move-later (fail e f h) = (λ h. h, omega arith)
  Move-later (restore e f h) = (λ h. h, omega arith)
  Move-later raise = (λ h. refl, omega arith)
  Move-later store = (λ h. h, omega arith)

  pub Move-Good :
      {m m' : Shared S} {w w' : Worker} → Move self dump_id items m w m' w' → Good m w → Good m' w'
  Move-Good (halt e) g = inl e
  Move-Good (go_on e) g = tt
  Move-Good (run_out e) g = inr (omega (arith, e))
  Move-Good (claim e) g = tt
  Move-Good {m} (fail {i} {item} {r} {t} e f h) g = (h, (item, m.target, t, e, f))
  Move-Good {m} (restore {i} {item} {r} {t} e f h) g = (item, m.target, t, e, f)
  Move-Good raise (h, came) = came
  Move-Good store g = tt

  -- The slots after a turn, and the evidence for the flag.
  module _ (before after : List Worker) where
    pub turn-slots :
        {m m' : Shared S} {w w' : Worker}
        → Move self dump_id items m w m' w'
        → Good m w
        → ((i : ℕ) (r : RestoreItemResult) → m.results i ≡ some r → Came i r)
        → (i : ℕ) (r : RestoreItemResult) → m'.results i ≡ some r
        → Came i r
    turn-slots (halt e) g slots j q h = slots j q h
    turn-slots (go_on e) g slots j q h = slots j q h
    turn-slots (run_out e) g slots j q h = slots j q h
    turn-slots (claim e) g slots j q h = slots j q h
    turn-slots (fail e f c) g slots j q h = slots j q h
    turn-slots (restore e f c) g slots j q h = slots j q h
    turn-slots raise g slots j q h = slots j q h
    turn-slots (store {i} {r}) came slots j q h = elim (Bool-cases (nat_eq i j)) [
      | inl same ↦
          let index : i ≡ j = (nat_eq_iff i j).0 same in
          let value : r ≡ q = cc (rw same at h) in rw (← index, ← value) came
      | inr other ↦ slots j q (rw other at h)
    ]

    -- What stays of the evidence when a worker that is not storing moves.
    kept :
        (m m' : Shared S) (w w' : Worker)
        → m'.results ≡ m.results
        → ((i : ℕ) (r : RestoreItemResult) → storing i r ≢ w)
        → Raised m (before ++ w ∷ after)
        → Raised m' (before ++ w' ∷ after)
    kept m m' w w' same apart (i, r, fatal, inl slot) = (i, r, fatal, inl (rw same slot))
    kept m m' w w' same apart (i, r, fatal, inr member) =
        elim (In-turn (storing i r) before after w member) [
          | inl e ↦ absurd (apart i r e)
          | inr stays ↦ (i, r, fatal, inr (stays w'))
        ]

    stored :
        (m : Shared S) (i : ℕ) (r : RestoreItemResult)
        → m.results i ≡ none
        → Raised m (before ++ storing i r ∷ after)
        → Raised (record m { results = fill m.results i r }) (before ++ ready ∷ after)
    stored m i r empty (j, q, fatal, inl slot) = (
      j,
      q,
      fatal,
      inl (elim (Bool-cases (nat_eq i j)) [
        | inl same ↦
            let index : i ≡ j = (nat_eq_iff i j).0 same in
            let was : m.results j ≡ none = rw index at empty in absurd (cc (was, slot))
        | inr other ↦ rw other slot
      ]),
    )
    stored m i r empty (j, q, fatal, inr member) =
        elim (In-turn (storing j q) before after (storing i r) member) [
          | inl e ↦ let value : q ≡ r = cc in (i, r, rw value at fatal, inl (ground arith))
          | inr stays ↦ (j, q, fatal, inr (stays ready))
        ]

    pub turn-Raised :
        {m m' : Shared S} {w w' : Worker}
        → Move self dump_id items m w m' w'
        → Claimed self dump_id items m (before ++ w ∷ after)
        → Good m w
        → (m.stop ≡ true → Raised m (before ++ w ∷ after))
        → m'.stop ≡ true
        → Raised m' (before ++ w' ∷ after)
    turn-Raised {m} {m'} {w} {w'} (halt e) claims g ev up = kept m m' w w' refl (λ i r. cc) (ev up)
    turn-Raised {m} {m'} {w} {w'} (go_on e) claims g ev up = cc
    turn-Raised {m} {m'} {w} {w'} (run_out e) claims g ev up =
        kept m m' w w' refl (λ i r. cc) (ev up)
    turn-Raised {m} {m'} {w} {w'} (claim e) claims g ev up = kept m m' w w' refl (λ i r. cc) (ev up)
    turn-Raised {m} {m'} {w} {w'} (fail e f h) claims g ev up =
        kept m m' w w' refl (λ i r. cc) (ev up)
    turn-Raised {m} {m'} {w} {w'} (restore e f h) claims g ev up =
        kept m m' w w' refl (λ i r. cc) (ev up)
    turn-Raised (raise {i} {r}) claims (fatal, came) ev up =
        (i, r, ground (arith, fatal), inr (In-here before after (storing i r)))
    turn-Raised {m} (store {i} {r}) claims g ev up =
        stored m i r (turn-slot self dump_id items before after m i r claims).0 (ev up)
