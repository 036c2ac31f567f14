-- ===== src/Condition/Find.antt =====
-- `find_op` finds the first occurrence outside quotes, and `find_word_op` an occurrence outside
-- quotes that stands alone as a word.
use leafmask.Prelude.{
  ℕ, zero, suc, ◌+◌, ◌<◌, Text, Bool, true, false, ◌&&◌, Option, none, some, [], ◌∷◌, ◌≡◌, refl,
  arith, nat_eq_iff, length, take, drop, starts_with, if◌then◌else◌,
}
use leafmask.Prelude.Slices.{len_utf8, byte_len}
use leafmask.Bson.{StdApi}
use leafmask.Condition.Scan.{
  is_quote, next_quote, find_op_from, find_op, free_before, free_after, find_word_op_from,
  find_word_op,
}
use leafmask.Condition.Quotes.{quote_after}

-- At position k of the text, `op` is read outside quotes, where `q` is open at its start.
pub record Occurs (op : Text) (q : Option ℕ) (s : Text) (k : ℕ) : Type 0 where
  pub outside : quote_after q (take k s) ≡ none
  pub reads : starts_with (drop k s) op ≡ true

shift :
    {op : Text} {q : Option ℕ} {s : Text} {k : ℕ} (c : ℕ)
    → Occurs op (next_quote q c) s k
    → Occurs op q (c ∷ s) (suc k)
shift c h = record { outside = h.outside; reads = h.reads }

unshift :
    {op : Text} {q : Option ℕ} {s : Text} {k : ℕ} (c : ℕ)
    → Occurs op q (c ∷ s) (suc k)
    → Occurs op (next_quote q c) s k
unshift c h = record { outside = h.outside; reads = h.reads }

-- The offset j is that of the first occurrence: behind the bytes of the k characters before it,
-- counted from i.
abbrev pub First : Text → ℕ → Option ℕ → Text → ℕ → Type 0
First op i q s j =
    (k : ℕ) × (j ≡ i + byte_len (take k s))
    × Occurs op q s k
    × ((m : ℕ) → m < k → ¬ Occurs op q s m)

abbrev pub Found : Text → ℕ → Option ℕ → Text → Option ℕ → Type 0
Found op i q s none = (m : ℕ) → ¬ Occurs op q s m
Found op i q s (some j) = First op i q s j

module _ (a : ℕ) (as' : Text) (plain : is_quote a ≡ false) where
  abbrev needle : Text
  needle = a ∷ as'

  Found-later :
      (i : ℕ) (q : Option ℕ) (c : ℕ) (s : Text) (r : Option ℕ)
      → ¬ Occurs needle q (c ∷ s) 0
      → Found needle (i + len_utf8 c) (next_quote q c) s r
      → Found needle i q (c ∷ s) r
  Found-later i q c s none here later = absent
    where
      absent : (m : ℕ) → ¬ Occurs needle q (c ∷ s) m
      absent zero o = here o
      absent (suc m) o = later m (unshift c o)
  Found-later i q c s (some j) here (k, e, at, before) = (suc k, omega arith, shift c at, earlier)
    where
      earlier : (m : ℕ) → m < suc k → ¬ Occurs needle q (c ∷ s) m
      earlier zero lt o = here o
      earlier (suc m) lt o = before m (omega arith) (unshift c o)

  no_op_in_nil : (q : Option ℕ) (m : ℕ) → ¬ Occurs needle q [] m
  no_op_in_nil q zero o = cc (o.reads)
  no_op_in_nil q (suc m) o = cc (o.reads)

  no_op_at_quote : (c : ℕ) (s : Text) → is_quote c ≡ true → ¬ Occurs needle none (c ∷ s) 0
  no_op_at_quote c s e o = ground (arith, nat_eq_iff c a, o.reads)

  no_op_at :
      (c : ℕ) (s : Text) → starts_with (c ∷ s) needle ≡ false → ¬ Occurs needle none (c ∷ s) 0
  no_op_at c s e o = cc (o.reads, e)

  Found-pick :
      (i c : ℕ) (s : Text) (later : Option ℕ) (b m : Bool)
      → is_quote c ≡ b
      → starts_with (c ∷ s) needle ≡ m
      → Found needle (i + len_utf8 c) (next_quote none c) s later
      → Found needle i none (c ∷ s) (if b then later else if m then some i else later)
  Found-pick i c s later true m e h ih = Found-later i none c s later (no_op_at_quote c s e) ih
  Found-pick i c s later false true e h ih =
      (0, omega arith, record { outside = refl; reads = h }, λ k lt. elim lt [ ])
  Found-pick i c s later false false e h ih = Found-later i none c s later (no_op_at c s h) ih

  find_op_from-Found :
      (i : ℕ) (q : Option ℕ) (s : Text) → Found needle i q s (find_op_from needle i q s)
  unfolding find_op_from
  find_op_from-Found i q [] = no_op_in_nil q
  find_op_from-Found i (some q) (c ∷ s) =
      Found-later i (some q) c s (find_op_from needle (i + len_utf8 c) (next_quote (some q) c) s)
        (λ o. cc (o.outside)) (find_op_from-Found (i + len_utf8 c) (next_quote (some q) c) s)
  find_op_from-Found i none (c ∷ s) =
      Found-pick i c s (find_op_from needle (i + len_utf8 c) (next_quote none c) s) (is_quote c)
        (starts_with (c ∷ s) needle) refl refl
        (find_op_from-Found (i + len_utf8 c) (next_quote none c) s)

  -- For an operator that is not empty and does not begin with a quote, `find_op` gives the offset in
  -- bytes of its first occurrence outside quotes, and nothing if there is none.
  pub find_op-first : (term : Text) → Found needle 0 none term (find_op term needle)
  unfolding find_op
  find_op-first term = find_op_from-Found 0 none term

-- An occurrence outside quotes with no word character right behind it.
pub record WordAt ⦃std : StdApi⦄ (op : Text) (q : Option ℕ) (s : Text) (k : ℕ) : Type 0 where
  pub outside : quote_after q (take k s) ≡ none
  pub reads : starts_with (drop k s) op ≡ true
  pub ends_word : free_after (drop (length op) (drop k s)) ≡ true

module _ ⦃std : StdApi⦄ where
  abbrev pub WordFound : Text → ℕ → Option ℕ → Text → Option ℕ → Type 0
  WordFound op i q s none = Unit
  WordFound op i q s (some j) = (k : ℕ) × (j ≡ i + byte_len (take k s)) × WordAt op q s k

  WordFound-later :
      (op : Text) (i : ℕ) (q : Option ℕ) (c : ℕ) (s : Text) (r : Option ℕ)
      → WordFound op (i + len_utf8 c) (next_quote q c) s r
      → WordFound op i q (c ∷ s) r
  WordFound-later op i q c s none h = tt
  WordFound-later op i q c s (some j) (k, e, at) = (
    suc k,
    omega arith,
    record { outside = at.outside; reads = at.reads; ends_word = at.ends_word },
  )

  WordFound-pick :
      (op : Text) (i c : ℕ) (s : Text) (later : Option ℕ) (b m f g : Bool)
      → starts_with (c ∷ s) op ≡ m
      → free_after (drop (length op) (c ∷ s)) ≡ g
      → WordFound op (i + len_utf8 c) (next_quote none c) s later
      → WordFound op i none (c ∷ s) (if b then later else if m && (f && g) then some i else later)
  WordFound-pick op i c s later true m f g h e ih = WordFound-later op i none c s later ih
  WordFound-pick op i c s later false true true true h e ih =
      (0, omega arith, record { outside = refl; reads = h; ends_word = e })
  WordFound-pick op i c s later false false f g h e ih = WordFound-later op i none c s later ih
  WordFound-pick op i c s later false true false g h e ih = WordFound-later op i none c s later ih
  WordFound-pick op i c s later false true true false h e ih =
      WordFound-later op i none c s later ih

  find_word_op_from-WordFound :
      (op : Text) (i : ℕ) (prev q : Option ℕ) (s : Text)
      → WordFound op i q s (find_word_op_from op i prev q s)
  unfolding find_word_op_from
  find_word_op_from-WordFound op i prev q [] = tt
  find_word_op_from-WordFound op i prev (some q) (c ∷ s) =
      WordFound-later op i (some q) c s
        (find_word_op_from op (i + len_utf8 c) (some c) (next_quote (some q) c) s)
        (find_word_op_from-WordFound op (i + len_utf8 c) (some c) (next_quote (some q) c) s)
  find_word_op_from-WordFound op i prev none (c ∷ s) =
      WordFound-pick op i c s (find_word_op_from op (i + len_utf8 c) (some c) (next_quote none c) s)
        (is_quote c) (starts_with (c ∷ s) op) (free_before prev)
        (free_after (drop (length op) (c ∷ s))) refl refl
        (find_word_op_from-WordFound op (i + len_utf8 c) (some c) (next_quote none c) s)

  -- A byte offset that `find_word_op` gives is one where the operator stands outside quotes and no
  -- word character follows it.
  pub find_word_op-WordFound : (op term : Text) → WordFound op 0 none term (find_word_op term op)
  unfolding find_word_op
  find_word_op-WordFound op term = find_word_op_from-WordFound op 0 none none term
