-- ===== src/Condition/Scan.antt =====
-- The scanners of transform/condition.rs: `split_top`, `find_op` and `find_word_op`.
use leafmask.Prelude.{
  ℕ, zero, suc, ◌+◌, ◌-◌, Text, Bool, true, not, ◌&&◌, ◌||◌, Option, none, some, List, [], ◌∷◌,
  ◌++◌, nat_eq, length, drop, starts_with, if◌then◌else◌,
}
use leafmask.Prelude.Slices.{len_utf8}
use leafmask.Bson.{StdApi}

abbrev pub is_quote : ℕ → Bool
is_quote c = nat_eq c b'\'' || nat_eq c b'"'

-- The open quote behind a character.
abbrev pub next_quote : Option ℕ → ℕ → Option ℕ
next_quote none c = if is_quote c then some c else none
next_quote (some q) c = if nat_eq c q then none else some q

pub record Splitter : Type 0 where
  pub quote : Option ℕ
  pub skip : ℕ
  pub current : Text
  pub parts : List Text

-- One round of the loop of `split_top` at the character `c`, where `rest` is left behind it.
-- `skip` counts the characters of a separator that are still to be passed over.
unfoldable pub split_step : Text → Splitter → ℕ → Text → Splitter
split_step sep s c rest = elim s.skip [
  | suc k ↦ record s { skip = k }
  | zero ↦ elim s.quote [
    | some q ↦ record s {
      quote = if nat_eq c q then none else some q;
      current = s.current ++ c ∷ [];
    }
    | none ↦
        if is_quote c
        then record s { quote = some c; current = s.current ++ c ∷ [] }
        else if starts_with (c ∷ rest) sep
        then record s { parts = s.parts ++ s.current ∷ []; current = []; skip = length sep - 1 }
        else record s { current = s.current ++ c ∷ [] }
  ]
]

unfoldable pub split_loop : Text → Splitter → Text → List Text
unfolding split_step
split_loop sep s [] = s.parts ++ s.current ∷ []
split_loop sep s (c ∷ rest) = split_loop sep (split_step sep s c rest) rest

unfoldable pub split_top : Text → Text → List Text
unfolding split_loop
split_top expr sep =
    split_loop sep (record { quote = none; skip = 0; current = []; parts = [] }) expr

-- The loop of `find_op` from the byte offset `i`, with the open quote there.
unfoldable pub find_op_from : Text → ℕ → Option ℕ → Text → Option ℕ
find_op_from op i quote [] = none
find_op_from op i quote (c ∷ rest) =
    let later = find_op_from op (i + len_utf8 c) (next_quote quote c) rest in
    elim quote [
      | some q ↦ later
      | none ↦ if is_quote c then later else if starts_with (c ∷ rest) op then some i else later
    ]

unfoldable pub find_op : Text → Text → Option ℕ
unfolding find_op_from
find_op term op = find_op_from op 0 none term

module _ ⦃std : StdApi⦄ where
  abbrev pub is_word_char : ℕ → Bool
  is_word_char c = std.is_alphanumeric c || nat_eq c b'_'

  -- No neighbour, or one that is not part of a word.
  abbrev pub free_before : Option ℕ → Bool
  free_before none = true
  free_before (some c) = not (is_word_char c)

  abbrev pub free_after : Text → Bool
  free_after [] = true
  free_after (c ∷ rest) = not (is_word_char c)

  -- The loop of `find_word_op` from the byte offset `i`; `prev` is the character before it.
  unfoldable pub find_word_op_from : Text → ℕ → Option ℕ → Option ℕ → Text → Option ℕ
  find_word_op_from op i prev quote [] = none
  find_word_op_from op i prev quote (c ∷ rest) =
      let later = find_word_op_from op (i + len_utf8 c) (some c) (next_quote quote c) rest in
      elim quote [
        | some q ↦ later
        | none ↦
            if is_quote c
            then later
            else if starts_with (c ∷ rest) op
                && (free_before prev && free_after (drop (length op) (c ∷ rest)))
            then some i
            else later
      ]

  unfoldable pub find_word_op : Text → Text → Option ℕ
  unfolding find_word_op_from
  find_word_op term op = find_word_op_from op 0 none none term
