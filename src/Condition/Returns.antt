-- ===== src/Condition/Returns.antt =====
-- A condition whose quotes are closed is evaluated without a panic.
use leafmask.Prelude.{
  ℕ, ◌+◌, Text, codes, Bool, true, false, not, Option, none, some, List, [], ◌∷◌, ◌≡◌, refl, sym,
  ap, arith, length, take, drop, trim, starts_with, Option-cases, inl, inr, unwrap_or,
}
use leafmask.Prelude.Result.{Run, returns, panics, then_run, Returns}
use leafmask.Prelude.Runs.{Returns-then, Returns-any, Returns-All}
use mathlib.Core.List.{append_assoc}
use leafmask.Prelude.{take-append-drop, ◌++◌, ◌∙◌}
use leafmask.Prelude.Slices.{
  byte_len, str_to, str_from, byte_len-append, str_to-append, str_from-append,
}
use leafmask.Bson.{Bson, Document, BsonApi, StdApi, null}
use leafmask.FieldPath.{get_path}
use leafmask.Condition.Scan.{is_quote, split_top, find_op, find_word_op}
use leafmask.Condition.Literal.{parse_literal, parse_list, bson_eq}
use leafmask.Condition.Eval.{
  Condition, Op, op_text, eq, ne, ge, le, gt, lt, not_in, is_in, Cut, cut_at, first_cut, cut_term,
  or_else, eval_cut, in_list, eval_op, eval_compare, eval_term, eval_and, eval_or, eval,
  order_operands, order_test,
}
use leafmask.Condition.Quotes.{quote_after, Closed}
use leafmask.Condition.Split.{starts_with-eq, split_top-Closed}
use leafmask.Condition.Find.{Found, find_op-first, WordFound, find_word_op-WordFound}
use leafmask.Condition.Literals.{parse_literal-Returns, parse_list-Returns, Closed-rhs, Closed-trim}

op_text-Closed : (op : Op) → Closed (op_text op)
op_text-Closed eq = refl
op_text-Closed ne = refl
op_text-Closed ge = refl
op_text-Closed le = refl
op_text-Closed gt = refl
op_text-Closed lt = refl
op_text-Closed not_in = refl
op_text-Closed is_in = refl

-- A byte offset at which the operator stands outside quotes: the bytes before it are whole
-- characters.
record Stands (term : Text) (op : Op) (i : ℕ) : Type 0 where
  before : Text
  behind : Text
  reads : term ≡ before ++ (op_text op ++ behind)
  offset : i ≡ byte_len before
  outside : quote_after none before ≡ none

-- What a scanner gives.
abbrev Sound : Text → Op → Option ℕ → Type 0
Sound term op none = Unit
Sound term op (some i) = Stands term op i

Stands-of :
    (op : Op) (term : Text) (i k : ℕ)
    → i ≡ 0 + byte_len (take k term)
    → quote_after none (take k term) ≡ none
    → starts_with (drop k term) (op_text op) ≡ true
    → Stands term op i
Stands-of op term i k at out reads = record {
  before = take k term;
  behind = drop (length (op_text op)) (drop k term);
  reads = sym (
      ap (λ r. take k term ++ r) (starts_with-eq (drop k term) (op_text op) reads)
      ∙ take-append-drop k term);
  offset = omega arith;
  outside = out;
}

Found-Sound :
    (op : Op) (a : ℕ) (as' term : Text) (r : Option ℕ)
    → op_text op ≡ a ∷ as'
    → Found (a ∷ as') 0 none term r
    → Sound term op r
Found-Sound op a as' term none e h = tt
Found-Sound op a as' term (some j) e (k, at, occurs, first) =
    Stands-of op term j k at occurs.outside (rw e (occurs.reads))

Sound-of :
    (op : Op) (a : ℕ) (as' : Text)
    → is_quote a ≡ false
    → op_text op ≡ a ∷ as'
    → (term : Text) → Sound term op (find_op term (a ∷ as'))
Sound-of op a as' plain e term =
    Found-Sound op a as' term (find_op term (a ∷ as')) e (find_op-first a as' plain term)

find_op-Sound : (term : Text) (op : Op) → Sound term op (find_op term (op_text op))
find_op-Sound term eq = Sound-of eq b'=' (codes "=") refl refl term
find_op-Sound term ne = Sound-of ne b'!' (codes "=") refl refl term
find_op-Sound term ge = Sound-of ge b'>' (codes "=") refl refl term
find_op-Sound term le = Sound-of le b'<' (codes "=") refl refl term
find_op-Sound term gt = Sound-of gt b'>' [] refl refl term
find_op-Sound term lt = Sound-of lt b'<' [] refl refl term
find_op-Sound term not_in = Sound-of not_in b'n' (codes "ot in") refl refl term
find_op-Sound term is_in = Sound-of is_in b'i' (codes "n") refl refl term

find_word_op-Sound :
    ⦃std : StdApi⦄ (term : Text) (op : Op) → Sound term op (find_word_op term (op_text op))
find_word_op-Sound term op =
    go (find_word_op term (op_text op)) (find_word_op-WordFound (op_text op) term)
  where
    go : (r : Option ℕ) → WordFound (op_text op) 0 none term r → Sound term op r
    go none h = tt
    go (some j) (k, e, at) = Stands-of op term j k e at.outside at.reads

-- The slices of a cut are within the term and at character boundaries.
cut_at-eq :
    (op : Op) (term : Text) (i : ℕ) (h : Stands term op i)
    → cut_at op term i ≡ returns (record { lhs = trim h.before; op = op; rhs = trim h.behind })
unfolding cut_at
cut_at-eq op term i h =
    let left : str_to term i ≡ returns h.before =
      rw (h.reads, h.offset) (str_to-append h.before (op_text op ++ h.behind)) in
    let whole : term ≡ (h.before ++ op_text op) ++ h.behind =
      h.reads ∙ sym (append_assoc h.before (op_text op) h.behind) in
    let there : i + byte_len (op_text op) ≡ byte_len (h.before ++ op_text op) =
      omega (arith, byte_len-append h.before (op_text op), h.offset) in
    let right : str_from term (i + byte_len (op_text op)) ≡ returns h.behind =
      rw (there, whole) (str_from-append (h.before ++ op_text op) h.behind) in
    rw (left, right) refl

-- A call that returns, with a closed right side if it cuts.
abbrev CutClosed : Run (Option Cut) → Type 0
CutClosed panics = ⊥
CutClosed (returns none) = Unit
CutClosed (returns (some c)) = Closed c.rhs

cut_at-Closed :
    (op : Op) (term : Text) (i : ℕ)
    → Closed term
    → Stands term op i
    → CutClosed (then_run (cut_at op term i) (λ c. returns (some c)))
cut_at-Closed op term i closed h = rw (cut_at-eq op term i h) (
    Closed-trim h.behind (
      Closed-rhs h.before (op_text op) h.behind (rw h.reads at closed) (op_text-Closed op)
        h.outside))

first_cut-Closed :
    (scan : Text → Text → Option ℕ) (ops : List Op) (term : Text)
    → ((op : Op) → Sound term op (scan term (op_text op)))
    → Closed term
    → CutClosed (first_cut scan ops term)
unfolding first_cut
first_cut-Closed scan [] term sound closed = tt
first_cut-Closed scan (op ∷ ops) term sound closed =
    let later = first_cut-Closed scan ops term sound closed in
    elim (Option-cases (scan term (op_text op))) [
      | inl e ↦ rw (e, first_cut) later
      | inr (k, e) ↦ rw (e, first_cut) (cut_at-Closed op term k closed (rw e at (sound op)))
    ]

or_else-Closed :
    (first second : Run (Option Cut))
    → CutClosed first
    → CutClosed second
    → CutClosed (then_run first (λ found. or_else found second))
or_else-Closed (returns none) second h k = k
or_else-Closed (returns (some c)) second h k = h
or_else-Closed panics second h k = h

module _ ⦃std : StdApi⦄ where
  cut_term-Closed : (term : Text) → Closed term → CutClosed (cut_term term)
  unfolding cut_term
  cut_term-Closed term closed =
      let ops = eq ∷ ne ∷ ge ∷ le ∷ gt ∷ lt ∷ [] in
      let words = not_in ∷ is_in ∷ [] in
      or_else-Closed (first_cut find_op ops term) (first_cut find_word_op words term)
        (first_cut-Closed find_op ops term (find_op-Sound term) closed)
        (first_cut-Closed find_word_op words term (find_word_op-Sound term) closed)

module _ ⦃api : BsonApi⦄ ⦃std : StdApi⦄ where
  in_list-Returns : (left : Bson) (rhs : Text) → Closed rhs → Returns (in_list left rhs)
  unfolding in_list
  in_list-Returns left rhs closed =
      Returns-then (parse_list rhs) _ (parse_list-Returns rhs closed) (λ l e. tt)

  with_literal :
      (f : Bson → Bool) (rhs : Text)
      → Closed rhs
      → Returns (then_run (parse_literal rhs) (λ right. returns (f right)))
  with_literal f rhs closed =
      Returns-then (parse_literal rhs) (λ right. returns (f right))
        (parse_literal-Returns rhs closed) (λ v e. tt)

  eval_op-Returns :
      (left : Bson) (op : Op) (rhs : Text) → Closed rhs → Returns (eval_op left op rhs)
  unfolding eval_op
  eval_op-Returns left is_in rhs closed = in_list-Returns left rhs closed
  eval_op-Returns left not_in rhs closed =
      Returns-then (in_list left rhs) (λ found. returns (not found))
        (in_list-Returns left rhs closed) (λ b e. tt)
  eval_op-Returns left eq rhs closed = with_literal (bson_eq left) rhs closed
  eval_op-Returns left ne rhs closed = with_literal (λ r. not (bson_eq left r)) rhs closed
  eval_op-Returns left op rhs closed =
      with_literal (λ r. order_test op (order_operands left r)) rhs closed

  cut-Returns :
      (doc : Document) (term : Text) (m : Run (Option Cut))
      → CutClosed m
      → Returns (then_run m (eval_cut doc term))
  unfolding eval_compare
  cut-Returns doc term panics h = h
  cut-Returns doc term (returns none) h = tt
  cut-Returns doc term (returns (some c)) h =
      eval_op-Returns (unwrap_or (get_path doc c.lhs) null) c.op c.rhs h

  eval_term-Returns : (doc : Document) (term : Text) → Closed term → Returns (eval_term doc term)
  unfolding eval_term
  eval_term-Returns doc term closed =
      cut-Returns doc term (cut_term term) (cut_term-Closed term closed)

  eval_and-Returns : (doc : Document) (expr : Text) → Closed expr → Returns (eval_and doc expr)
  unfolding eval_and
  eval_and-Returns doc expr closed =
      Returns-All Closed (λ c. eval_term doc (trim c))
        (λ c h. eval_term-Returns doc (trim c) (Closed-trim c h)) (split_top expr (codes " and "))
        (split_top-Closed b' ' (codes "and ") expr refl closed)

  eval_or-Returns : (doc : Document) (expr : Text) → Closed expr → Returns (eval_or doc expr)
  unfolding eval_or
  eval_or-Returns doc expr closed =
      Returns-any Closed (eval_and doc) (eval_and-Returns doc) (split_top expr (codes " or "))
        (split_top-Closed b' ' (codes "or ") expr refl closed)

  -- A condition whose quotes are all closed is evaluated on every document without a panic.
  pub eval-returns :
      (c : Condition) (doc : Document) → Closed c.expr → (b : Bool) × (eval c doc ≡ returns b)
  unfolding eval
  eval-returns c doc closed = value (eval_or doc c.expr) (eval_or-Returns doc c.expr closed)
    where
      value : (m : Run Bool) → Returns m → (b : Bool) × (m ≡ returns b)
      value (returns b) h = (b, refl)
      value panics h = absurd h
