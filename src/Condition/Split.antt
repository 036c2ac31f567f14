-- ===== src/Condition/Split.antt =====
-- `split_top`: the pieces join back to the text, and closed quotes stay closed in each piece.
use mathlib.Core.List.{append-nil, append_assoc}
use leafmask.Prelude.{
  ℕ, zero, suc, ◌-◌, Text, true, false, Option, none, some, List, [], ◌∷◌, ◌++◌, ◌≡◌, refl, sym, ap,
  ◌∙◌, inl, inr, arith, length, drop, join, starts_with, All, Bool-cases,
}
use leafmask.Condition.Scan.{is_quote, next_quote, Splitter, split_step, split_loop, split_top}
use leafmask.Condition.Quotes.{quote_after, quote_after-append, Closed}

drop-nil : (k : ℕ) → drop {A = ℕ} k [] ≡ []
drop-nil zero = refl
drop-nil (suc k) = refl

pub starts_with-eq : (s p : Text) → starts_with s p ≡ true → p ++ drop (length p) s ≡ s
starts_with-eq s [] h = refl
starts_with-eq [] (y ∷ p) h = cc
starts_with-eq (x ∷ s) (y ∷ p) h = ground (arith, starts_with-eq s p)

join-last :
    (sep : Text) (ps : List Text) (x y : Text)
    → join sep (ps ++ (x ++ y) ∷ []) ≡ join sep (ps ++ x ∷ []) ++ y
join-last sep [] x y = refl
join-last sep (p ∷ []) x y = simp append_assoc
join-last sep (p ∷ q ∷ ps) x y = simp (join-last sep (q ∷ ps) x y, append_assoc)

join-snoc :
    (sep : Text) (ps : List Text) (x : Text)
    → join sep ((ps ++ x ∷ []) ++ [] ∷ []) ≡ join sep (ps ++ x ∷ []) ++ sep
join-snoc sep [] x = simp append-nil
join-snoc sep (p ∷ []) x = simp (append-nil, append_assoc)
join-snoc sep (p ∷ q ∷ ps) x = simp (join-snoc sep (q ∷ ps) x, append_assoc)

suc_sub_one : (n : ℕ) → suc n - 1 ≡ n
suc_sub_one n = omega arith

abbrev joined : Text → Splitter → Text
joined sep s = join sep (s.parts ++ s.current ∷ [])

next_quote-opens : (c : ℕ) → is_quote c ≡ true → next_quote none c ≡ some c
next_quote-opens c e = rw e

next_quote-stays : (c : ℕ) → is_quote c ≡ false → next_quote none c ≡ none
next_quote-stays c e = rw e

module _ (a : ℕ) (as' : Text) where
  abbrev sep : Text
  sep = a ∷ as'

  joined-push :
      (ps : List Text) (cur : Text) (c : ℕ) (rest : Text)
      → join sep (ps ++ (cur ++ c ∷ []) ∷ []) ++ rest ≡ join sep (ps ++ cur ∷ []) ++ c ∷ rest
  joined-push ps cur c rest =
      rw (join-last sep ps cur (c ∷ [])) (append_assoc (join sep (ps ++ cur ∷ [])) (c ∷ []) rest)

  joined-cut :
      (ps : List Text) (cur : Text) (c : ℕ) (rest : Text)
      → starts_with (c ∷ rest) sep ≡ true
      → join sep ((ps ++ cur ∷ []) ++ [] ∷ []) ++ drop (length as') rest
        ≡ join sep (ps ++ cur ∷ []) ++ c ∷ rest
  joined-cut ps cur c rest h = rw (join-snoc sep ps cur) (
      append_assoc (join sep (ps ++ cur ∷ [])) sep (drop (length as') rest)
      ∙ ap (λ r. join sep (ps ++ cur ∷ []) ++ r) (starts_with-eq (c ∷ rest) sep h))

  joined-step :
      (q : Option ℕ) (k : ℕ) (cur : Text) (ps : List Text) (c : ℕ) (rest : Text)
      → let s : Splitter = record { quote = q; skip = k; current = cur; parts = ps } in
        joined sep (split_step sep s c rest) ++ drop (split_step sep s c rest).skip rest
        ≡ joined sep s ++ drop k (c ∷ rest)
  unfolding split_step
  joined-step q (suc k) cur ps c rest = refl
  joined-step (some q) zero cur ps c rest = joined-push ps cur c rest
  joined-step none zero cur ps c rest = elim (Bool-cases (is_quote c)) [
    | inl e ↦ rw e (joined-push ps cur c rest)
    | inr e ↦ elim (Bool-cases (starts_with (c ∷ rest) sep)) [
      | inl m ↦ rw (e, m, suc_sub_one) (joined-cut ps cur c rest m)
      | inr m ↦ rw (e, m) (joined-push ps cur c rest)
    ]
  ]

  join-split_loop :
      (s : Splitter) (rest : Text)
      → join sep (split_loop sep s rest) ≡ joined sep s ++ drop s.skip rest
  unfolding split_loop
  join-split_loop s [] = rw drop-nil (sym (append-nil (joined sep s)))
  join-split_loop s (c ∷ rest) =
      join-split_loop (split_step sep s c rest) rest
      ∙ joined-step s.quote s.skip s.current s.parts c rest

  -- For a separator that is not empty, joining the pieces of `split_top` by it gives the text
  -- back: nothing is lost.
  pub join-split_top : (expr : Text) → join sep (split_top expr sep) ≡ expr
  unfolding split_top
  join-split_top expr =
      join-split_loop (record { quote = none; skip = 0; current = []; parts = [] }) expr

  record Inv (s : Splitter) (rest : Text) : Type 0 where
    parts_closed : All Closed s.parts
    open_quote : quote_after none s.current ≡ s.quote
    ends_closed : quote_after s.quote (drop s.skip rest) ≡ none

  All-snoc : (ps : List Text) (x : Text) → All Closed ps → Closed x → All Closed (ps ++ x ∷ [])
  All-snoc [] x h k = (k, tt)
  All-snoc (p ∷ ps) x h k = (h.0, All-snoc ps x h.1 k)

  push_open :
      (cur : Text) (c : ℕ) (q : Option ℕ)
      → quote_after none cur ≡ q
      → quote_after none (cur ++ c ∷ []) ≡ next_quote q c
  push_open cur c q h = quote_after-append none cur (c ∷ []) ∙ ap (λ r. next_quote r c) h

  -- The text behind a separator ends with its quotes closed, if the text with it does.
  behind_sep :
      (c : ℕ) (rest : Text)
      → Closed sep
      → starts_with (c ∷ rest) sep ≡ true
      → quote_after none (c ∷ rest) ≡ none
      → quote_after none (drop (length as') rest) ≡ none
  behind_sep c rest plain m h =
      sym (ap (λ q. quote_after q (drop (length as') rest)) plain)
      ∙ sym (quote_after-append none sep (drop (length as') rest))
      ∙ ap (λ r. quote_after none r) (starts_with-eq (c ∷ rest) sep m)
      ∙ h

  Inv-step :
      (q : Option ℕ) (k : ℕ) (cur : Text) (ps : List Text) (c : ℕ) (rest : Text)
      → Closed sep
      → Inv (record { quote = q; skip = k; current = cur; parts = ps }) (c ∷ rest)
      → Inv (split_step sep (record { quote = q; skip = k; current = cur; parts = ps }) c rest) rest
  unfolding split_step
  Inv-step q (suc k) cur ps c rest plain h = record {
    parts_closed = h.parts_closed;
    open_quote = h.open_quote;
    ends_closed = h.ends_closed;
  }
  Inv-step (some q) zero cur ps c rest plain h = record {
    parts_closed = h.parts_closed;
    open_quote = push_open cur c (some q) h.open_quote;
    ends_closed = h.ends_closed;
  }
  Inv-step none zero cur ps c rest plain h = elim (Bool-cases (is_quote c)) [
    | inl e ↦ rw e (record {
      parts_closed = h.parts_closed;
      open_quote = push_open cur c none h.open_quote ∙ next_quote-opens c e;
      ends_closed = ap (λ q. quote_after q rest) (sym (next_quote-opens c e)) ∙ h.ends_closed;
    })
    | inr e ↦ elim (Bool-cases (starts_with (c ∷ rest) sep)) [
      | inl m ↦
          rw (e, m)
            (record {
              parts_closed = All-snoc ps cur h.parts_closed h.open_quote;
              open_quote = refl;
              ends_closed = rw suc_sub_one (behind_sep c rest plain m h.ends_closed);
            })
      | inr m ↦
          rw (e, m)
            (record {
              parts_closed = h.parts_closed;
              open_quote = push_open cur c none h.open_quote ∙ next_quote-stays c e;
              ends_closed =
                  ap (λ q. quote_after q rest) (sym (next_quote-stays c e)) ∙ h.ends_closed;
            })
    ]
  ]

  split_loop-Closed :
      (s : Splitter) (rest : Text) → Closed sep → Inv s rest → All Closed (split_loop sep s rest)
  unfolding split_loop
  split_loop-Closed s [] plain h =
      All-snoc s.parts s.current h.parts_closed
        (h.open_quote ∙ ap (λ r. quote_after s.quote r) (sym (drop-nil s.skip)) ∙ h.ends_closed)
  split_loop-Closed s (c ∷ rest) plain h =
      split_loop-Closed (split_step sep s c rest) rest plain
        (Inv-step s.quote s.skip s.current s.parts c rest plain h)

  -- For a separator that does not begin with a quote and whose quotes are closed: a text whose
  -- quotes are closed is cut into pieces whose quotes are closed, so no separator inside quotes
  -- cuts.
  pub split_top-Closed : (expr : Text) → Closed sep → Closed expr → All Closed (split_top expr sep)
  unfolding split_top
  split_top-Closed expr plain h =
      split_loop-Closed (record { quote = none; skip = 0; current = []; parts = [] }) expr plain
        (record { parts_closed = tt; open_quote = refl; ends_closed = h })
