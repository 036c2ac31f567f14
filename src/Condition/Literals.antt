-- ===== src/Condition/Literals.antt =====
-- Literals panic exactly on a lone quote, so not where the quotes are closed.
use leafmask.Prelude.{
  ℕ, Text, codes, text_eq, Bool, true, false, not, ◌||◌, none, some, [], ◌∷◌, ◌++◌, ◌≡◌, refl, sym,
  ap, ◌∙◌, ◌↔◌, ◌⊎◌, inl, inr, arith, nat_eq, nat_eq_iff, length, take, trim, ends_with_char,
  if◌then◌else◌,
}
use leafmask.Prelude.Result.{returns, panics, then_run, map_run, Returns}
use leafmask.Bson.{StdApi}
use leafmask.Condition.Scan.{split_top}
use leafmask.Condition.Literal.{parse_trimmed, parse_literal, parse_bracketed, parse_list}
use leafmask.Condition.Quotes.{
  quote_after, quote_after-append, quote_after-trim, quote_after-append-Plain, Closed,
}
use leafmask.Condition.Split.{split_top-Closed}
use leafmask.Prelude.Runs.{Returns-then, Returns-map, Returns-of-ne, Returns-if_else}

pub Closed-trim : (s : Text) → Closed s → Closed (trim s)
Closed-trim s h = quote_after-trim s ∙ h

abbrev pub LoneQuote : Text → Type 0
LoneQuote s = (s ≡ b'\'' ∷ []) ⊎ (s ≡ b'"' ∷ [])

LoneQuote-open : (s : Text) → LoneQuote s → ¬ Closed s
LoneQuote-open s (inl e) h = cc (rw e at h)
LoneQuote-open s (inr e) h = cc (rw e at h)

module _ ⦃std : StdApi⦄ where
  parse_trimmed-panics : (s : Text) → parse_trimmed s ≡ panics → LoneQuote s
  unfolding parse_trimmed
  parse_trimmed-panics [] h = ground arith
  parse_trimmed-panics (c ∷ []) h = ground (arith, nat_eq_iff c b'\'', nat_eq_iff c b'"')
  parse_trimmed-panics (c ∷ d ∷ s) h = ground arith

  parse_trimmed-lone : (s : Text) → LoneQuote s → parse_trimmed s ≡ panics
  unfolding parse_trimmed
  parse_trimmed-lone s (inl e) = rw e
  parse_trimmed-lone s (inr e) = rw e

  -- `parse_literal` panics exactly on a text that is one quote character, once trimmed.
  pub parse_literal-panics : (s : Text) → (parse_literal s ≡ panics) ↔ LoneQuote (trim s)
  unfolding parse_literal
  parse_literal-panics s = (parse_trimmed-panics (trim s), parse_trimmed-lone (trim s))

  pub parse_literal-Returns : (s : Text) → Closed s → Returns (parse_literal s)
  parse_literal-Returns s closed =
      Returns-of-ne (parse_literal s)
        (λ e. LoneQuote-open (trim s) ((parse_literal-panics s).0 e) (Closed-trim s closed))

init-snoc :
    (x d : ℕ) (t : Text)
    → ends_with_char (d ∷ t) x ≡ true
    → take (length t) (d ∷ t) ++ x ∷ [] ≡ d ∷ t
init-snoc x d [] h = ground (arith, nat_eq_iff d x)
init-snoc x d (c ∷ t) h = ap (λ r. d ∷ r) (init-snoc x c t h)

-- The text between brackets has its quotes closed, if the whole has.
bracket-Closed :
    (c d : ℕ) (t : Text)
    → nat_eq c b'[' ≡ true
    → ends_with_char (d ∷ t) b']' ≡ true
    → Closed (c ∷ d ∷ t)
    → Closed (take (length t) (d ∷ t))
bracket-Closed c d t left right closed =
    sym (quote_after-append-Plain (take (length t) (d ∷ t)) (b']' ∷ []) (refl, tt))
    ∙ ap (λ r. quote_after none r) (init-snoc b']' d t right)
    ∙ sym (ap (λ x. quote_after none (x ∷ d ∷ t)) ((nat_eq_iff c b'[').0 left))
    ∙ closed

both_true : (a b : Bool) → (not a || not b) ≡ false → (a ≡ true) × (b ≡ true)
both_true a b h = ground arith

abbrev piece_sep : Text
piece_sep = codes ","

module _ ⦃std : StdApi⦄ where
  pieces-Return :
      (interior : Text)
      → Closed interior
      → Returns (map_run (λ piece. parse_literal (trim piece)) (split_top interior piece_sep))
  pieces-Return interior closed =
      Returns-map Closed (λ piece. parse_literal (trim piece)) (split_top interior piece_sep)
        (λ piece h. parse_literal-Returns (trim piece) (Closed-trim piece h))
        (split_top-Closed b',' [] interior refl closed)

  list_of_pieces :
      (interior : Text)
      → Closed interior
      → Returns (
          if text_eq (trim interior) []
          then returns (some [])
          else then_run
              (map_run (λ piece. parse_literal (trim piece)) (split_top interior (codes ",")))
              (λ list. returns (some list)))
  list_of_pieces interior closed =
      Returns-if_else (text_eq (trim interior) []) (returns (some [])) _ tt λ e.
        Returns-then (map_run (λ piece. parse_literal (trim piece)) (split_top interior piece_sep))
          (λ list. returns (some list)) (pieces-Return interior closed) (λ l e. tt)

  parse_bracketed-Returns : (s : Text) → Closed s → Returns (parse_bracketed s)
  unfolding parse_bracketed
  parse_bracketed-Returns [] closed = tt
  parse_bracketed-Returns (c ∷ []) closed =
      Returns-if_else (not (nat_eq c b'[') || not (nat_eq c b']')) (returns none) panics tt
        (λ e. ground (arith, nat_eq_iff c b'[', nat_eq_iff c b']'))
  parse_bracketed-Returns (c ∷ d ∷ t) closed =
      Returns-if_else (not (nat_eq c b'[') || not (ends_with_char (d ∷ t) b']')) (returns none) _ tt
        λ e. list_of_pieces (take (length t) (d ∷ t)) (
          bracket-Closed c d t (both_true (nat_eq c b'[') (ends_with_char (d ∷ t) b']') e).0
            (both_true (nat_eq c b'[') (ends_with_char (d ∷ t) b']') e).1 closed)

  pub parse_list-Returns : (s : Text) → Closed s → Returns (parse_list s)
  unfolding parse_list
  parse_list-Returns s closed = parse_bracketed-Returns (trim s) (Closed-trim s closed)

-- What stands behind an operator outside quotes is closed, if the whole is.
pub Closed-rhs :
    (a op b : Text) → Closed (a ++ (op ++ b)) → Closed op → quote_after none a ≡ none → Closed b
Closed-rhs a op b closed plain out =
    sym (ap (λ q. quote_after q b) plain)
    ∙ sym (quote_after-append none op b)
    ∙ sym (ap (λ q. quote_after q (op ++ b)) out)
    ∙ sym (quote_after-append none a (op ++ b))
    ∙ closed
