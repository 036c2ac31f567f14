-- ===== src/Condition/Eval.antt =====
-- `Condition::parse` and `Condition::eval` of transform/condition.rs.
use leafmask.Prelude.{
  ℕ, ◌+◌, Text, codes, text_eq, Bool, false, not, Option, none, some, List, [], ◌∷◌, trim, any,
  if◌then◌else◌, unwrap_or,
}
use leafmask.Prelude.Result.{Result, ok, err, transform, Run, returns, then_run, any_run, all_run}
use leafmask.Prelude.Slices.{byte_len, str_to, str_from}
use leafmask.Bson.{Bson, Document, BsonApi, StdApi, F64, null}
use leafmask.FieldPath.{get_path}
use leafmask.Condition.Scan.{split_top, find_op, find_word_op}
use leafmask.Condition.Literal.{
  parse_literal, parse_list, as_f64, as_millis, bson_eq, truthy, zip_option,
}

pub record Condition : Type 0 where
  pub expr : Text

unfoldable pub parse : Text → Result Condition
parse expr = if text_eq (trim expr) [] then err transform else ok (record { expr = expr })

-- The operators, which the source names by their text.
pub data Op : Type 0 where
  eq ne ge le gt lt not_in is_in : Op

abbrev pub op_text : Op → Text
op_text eq = codes "=="
op_text ne = codes "!="
op_text ge = codes ">="
op_text le = codes "<="
op_text gt = codes ">"
op_text lt = codes "<"
op_text not_in = codes "not in"
op_text is_in = codes "in"

-- A term cut at an operator.
pub record Cut : Type 0 where
  pub lhs : Text
  pub op : Op
  pub rhs : Text

-- The slices `term[..idx]` and `term[idx + op.len()..]` panic off a character boundary.
unfoldable pub cut_at : Op → Text → ℕ → Run Cut
cut_at op term i = then_run (str_to term i) λ lhs.
    then_run (str_from term (i + byte_len (op_text op)))
      λ rhs. returns (record { lhs = trim lhs; op = op; rhs = trim rhs })

-- The loop over the operators, with the scanner that it calls.
unfoldable pub first_cut : (Text → Text → Option ℕ) → List Op → Text → Run (Option Cut)
unfolding cut_at
first_cut scan [] term = returns none
first_cut scan (op ∷ ops) term = elim (scan term (op_text op)) [
  | some i ↦ then_run (cut_at op term i) (λ c. returns (some c))
  | none ↦ first_cut scan ops term
]

abbrev pub or_else : Option Cut → Run (Option Cut) → Run (Option Cut)
or_else none next = next
or_else (some c) next = returns (some c)

module _ ⦃std : StdApi⦄ where
  -- The two loops at the top of `eval_term` and `filter_term`.
  unfoldable pub cut_term : Text → Run (Option Cut)
  unfolding first_cut
  cut_term term =
      then_run (first_cut find_op (eq ∷ ne ∷ ge ∷ le ∷ gt ∷ lt ∷ []) term)
        (λ found. or_else found (first_cut find_word_op (not_in ∷ is_in ∷ []) term))

  abbrev pub compare_f64 : Op → F64 → F64 → Bool
  compare_f64 gt a b = std.f64_lt b a
  compare_f64 lt a b = std.f64_lt a b
  compare_f64 ge a b = std.f64_le b a
  compare_f64 le a b = std.f64_le a b
  compare_f64 _ a b = false

module _ ⦃api : BsonApi⦄ ⦃std : StdApi⦄ where
  -- The numbers that an order is decided on: floats, or else milliseconds as floats.
  unfoldable pub order_operands : Bson → Bson → Option (F64 × F64)
  order_operands a b = elim (zip_option (as_f64 a) (as_f64 b)) [
    | some p ↦ some p
    | none ↦ elim (zip_option (as_millis a) (as_millis b)) [
      | some (x, y) ↦ some (std.f64_of_i64 x, std.f64_of_i64 y)
      | none ↦ none
    ]
  ]

  abbrev pub order_test : Op → Option (F64 × F64) → Bool
  order_test op none = false
  order_test op (some (a, b)) = compare_f64 op a b

  unfoldable pub in_list : Bson → Text → Run Bool
  in_list left rhs =
      then_run (parse_list rhs) (λ list. returns (any (λ v. bson_eq left v) (unwrap_or list [])))

  unfoldable pub eval_op : Bson → Op → Text → Run Bool
  unfolding in_list order_operands
  eval_op left is_in rhs = in_list left rhs
  eval_op left not_in rhs = then_run (in_list left rhs) (λ found. returns (not found))
  eval_op left eq rhs = then_run (parse_literal rhs) (λ right. returns (bson_eq left right))
  eval_op left ne rhs = then_run (parse_literal rhs) (λ right. returns (not (bson_eq left right)))
  eval_op left op rhs =
      then_run (parse_literal rhs) (λ right. returns (order_test op (order_operands left right)))

  unfoldable pub eval_compare : Cut → Document → Run Bool
  unfolding eval_op
  eval_compare c doc = eval_op (unwrap_or (get_path doc c.lhs) null) c.op c.rhs

  abbrev pub eval_cut : Document → Text → Option Cut → Run Bool
  eval_cut doc term none = returns (truthy (get_path doc (trim term)))
  eval_cut doc term (some c) = eval_compare c doc

  unfoldable pub eval_term : Document → Text → Run Bool
  unfolding eval_compare
  eval_term doc term = then_run (cut_term term) (eval_cut doc term)

  unfoldable pub eval_and : Document → Text → Run Bool
  unfolding eval_term
  eval_and doc expr = all_run (λ c. eval_term doc (trim c)) (split_top expr (codes " and "))

  unfoldable pub eval_or : Document → Text → Run Bool
  unfolding eval_and
  eval_or doc expr = any_run (eval_and doc) (split_top expr (codes " or "))

  unfoldable pub eval : Condition → Document → Run Bool
  unfolding eval_or
  eval c doc = eval_or doc c.expr
