-- ===== src/Restore/Parallel/Ends.antt =====
-- The workers of a parallel restore come to an end.
use leafmask.Prelude.{
  ℕ, zero, suc, ◌+◌, ◌-◌, ◌*◌, ◌≤◌, ◌<◌, Text, some, List, [], ◌∷◌, ◌++◌, ◌≡◌, refl, ap, ◌⊎◌, inl,
  inr, length, Bool-cases, ltb, arith, ltb→lt,
}
use leafmask.Dump.Reader.{BsonCodec}
use leafmask.Restore.Sink.{IsAccurate}
use leafmask.Restore.Collection.{Restore}
use leafmask.Restore.Run.{RestoreItem}
use leafmask.Restore.Total.{item-Ends}
use leafmask.Restore.Parallel.{
  Worker, ready, claiming, running, stopping, storing, finished, Shared, item_at, raises, Move,
  halt, go_on, run_out, claim, fail, restore, raise, store, Step, turn, Reach, later, Finished,
}
use leafmask.Restore.Parallel.Claims.{held-append, Claimed}
use leafmask.Restore.Parallel.Invariant.{Reach-Inv}

-- The turns that a worker has left, if it claims nothing more.
abbrev pub turns : Worker → ℕ
turns ready = 2
turns claiming = 1
turns (running i) = 5
turns (stopping i r) = 4
turns (storing i r) = 3
turns finished = 0

abbrev pub all_turns : List Worker → ℕ
all_turns [] = 0
all_turns (w ∷ ws) = turns w + all_turns ws

all_turns-append : (xs ys : List Worker) → all_turns (xs ++ ys) ≡ all_turns xs + all_turns ys
all_turns-append [] ys = omega arith
all_turns-append (x ∷ xs) ys = omega (arith, all_turns-append xs ys)

-- The first worker that has not finished.
Unfinished : List Worker → Type 0
Unfinished ws =
    (before : List Worker) × (w : Worker) × (after : List Worker) × (ws ≡ before ++ w ∷ after)
    × (0 < turns w)

Finished-or-Unfinished : (ws : List Worker) → Finished ws ⊎ Unfinished ws
unfolding Unfinished
Finished-or-Unfinished [] = inl tt
Finished-or-Unfinished (finished ∷ ws) = elim (Finished-or-Unfinished ws) [
  | inl done ↦ inl (refl, done)
  | inr (before, w, after, e, h) ↦ inr (finished ∷ before, w, after, ap (λ r. finished ∷ r) e, h)
]
Finished-or-Unfinished (ready ∷ ws) = inr ([], ready, ws, refl, omega arith)
Finished-or-Unfinished (claiming ∷ ws) = inr ([], claiming, ws, refl, omega arith)
Finished-or-Unfinished (running i ∷ ws) = inr ([], running i, ws, refl, omega arith)
Finished-or-Unfinished (stopping i r ∷ ws) = inr ([], stopping i r, ws, refl, omega arith)
Finished-or-Unfinished (storing i r ∷ ws) = inr ([], storing i r, ws, refl, omega arith)

item_at_of_lt :
    (items : List RestoreItem) (i : ℕ)
    → i < length items
    → (item : RestoreItem) × (item_at items i ≡ some item)
item_at_of_lt [] i h = absurd (omega (arith, h))
item_at_of_lt (x ∷ xs) zero h = (x, refl)
item_at_of_lt (x ∷ xs) (suc i) h = item_at_of_lt xs i (omega (arith, h))

module _ {S : Type 0} ⦃codec : BsonCodec⦄ (self : Restore S) (dump_id : Text)
    (items : List RestoreItem) where
  -- What is left to do at most: eight turns for an item that no worker has claimed.
  abbrev pub left : Shared S → List Worker → ℕ
  left m ws = all_turns ws + 8 * (length items - m.next)

  Move-shrinks :
      {m m' : Shared S} {w w' : Worker}
      → Move self dump_id items m w m' w'
      → turns w' + 8 * (length items - m'.next) < turns w + 8 * (length items - m.next)
  Move-shrinks (halt e) = omega arith
  Move-shrinks (go_on e) = omega arith
  Move-shrinks (run_out e) = omega (arith, e)
  Move-shrinks (claim e) = omega (arith, e)
  Move-shrinks (fail e f g) = omega arith
  Move-shrinks (restore e f g) = omega arith
  Move-shrinks raise = omega arith
  Move-shrinks store = omega arith

  -- Every turn of any worker leaves less to do.
  Step-shrinks :
      {m m' : Shared S} {ws ws' : List Worker}
      → Step self dump_id items m ws m' ws'
      → left m' ws' < left m ws
  Step-shrinks {m} {m'} (turn before after {w} {w'} e move f) =
      rw (e, f)
        (omega (
          arith,
          Move-shrinks move,
          all_turns-append before (w ∷ after),
          all_turns-append before (w' ∷ after),
        ))

  -- Some turns, one after the other.
  pub data Steps : Shared S → List Worker → Shared S → List Worker → Type 0 where
    none_left : {m : Shared S} {ws : List Worker} → Steps m ws m ws
    one_more :
        {m m' m'' : Shared S} {ws ws' ws'' : List Worker}
        → Step self dump_id items m ws m' ws'
        → Steps m' ws' m'' ws''
        → Steps m ws m'' ws''

  module _ (accurate : IsAccurate self.sink) where
    -- A worker that has not finished can take its turn.
    Move-exists :
        (before after : List Worker) (m : Shared S) (w : Worker)
        → Claimed self dump_id items m (before ++ w ∷ after)
        → 0 < turns w
        → (m' : Shared S) × (w' : Worker) × Move self dump_id items m w m' w'
    Move-exists before after m finished claims h = absurd (omega (arith, h))
    Move-exists before after m ready claims h = elim (Bool-cases m.stop) [
      | inl up ↦ (m, finished, halt up)
      | inr down ↦ (m, claiming, go_on down)
    ]
    Move-exists before after m claiming claims h = elim (Bool-cases (ltb m.next (length items))) [
      | inl below ↦ (_, running m.next, claim (ltb→lt m.next (length items) below))
      | inr above ↦ (_, finished, run_out (ground (arith, above)))
    ]
    Move-exists before after m (running i) claims h =
        let below : i < length items =
          ground (arith, claims i, held-append i before (running i ∷ after)) in
        let (item, e) = item_at_of_lt items i below in
        let (r, t, f, _) = item-Ends self accurate dump_id item m.target in
        elim (Bool-cases (raises self dump_id items r)) [
          | inl fatal ↦ (_, stopping i r, fail e f fatal)
          | inr fine ↦ (_, storing i r, restore e f fine)
        ]
    Move-exists before after m (stopping i r) claims h = (_, storing i r, raise)
    Move-exists before after m (storing i r) claims h = (_, ready, store)

    abbrev pub Ending : Shared S → List Worker → Type 0
    Ending m ws = (m' : Shared S) × (ws' : List Worker) × Steps m ws m' ws' × Finished ws'

    ends_within :
        (bound jobs : ℕ) (s : S) (m : Shared S) (ws : List Worker)
        → Reach self dump_id items jobs s m ws
        → left m ws ≤ bound
        → Ending m ws
    unfolding Unfinished
    ends_within zero jobs s m ws reach enough = elim (Finished-or-Unfinished ws) [
      | inl done ↦ (m, ws, none_left, done)
      | inr (before, w, after, e, h) ↦
          absurd (omega (arith, ap all_turns e, all_turns-append before (w ∷ after), h, enough))
    ]
    ends_within (suc bound) jobs s m ws reach enough = elim (Finished-or-Unfinished ws) [
      | inl done ↦ (m, ws, none_left, done)
      | inr (before, w, after, e, h) ↦
          let claims = (Reach-Inv self dump_id items reach).claims in
          let (m', w', move) = Move-exists before after m w (rw e at claims) h in
          let step : Step self dump_id items m ws m' (before ++ w' ∷ after) =
            turn before after e move refl in
          let (last, ws', rest, done) =
            ends_within bound jobs s m' (before ++ w' ∷ after) (later reach step)
              (omega (arith, Step-shrinks step, enough)) in
          (last, ws', one_more step rest, done)
    ]

    -- With a sink whose reports are accurate, a parallel restore ends: in every state that its
    -- workers reach, each turn that a worker can take makes `left`, the number of turns left at most,
    -- smaller; and some further turns lead to a state where all of them have finished.
    pub parallel_ends :
        (jobs : ℕ) (s : S) (m : Shared S) (ws : List Worker)
        → Reach self dump_id items jobs s m ws
        → ((m' : Shared S) (ws' : List Worker)
            → Step self dump_id items m ws m' ws'
            → left m' ws' < left m ws)
          × Ending m ws
    parallel_ends jobs s m ws reach =
        (λ m' ws' step. Step-shrinks step, ends_within (left m ws) jobs s m ws reach (omega arith))
