-- ===== src/Condition/Filter.antt =====
-- `Condition::to_filter` of transform/condition.rs: the condition as a MongoDB filter document.
use leafmask.Prelude.{
  Text, codes, Option, true, false, none, some, List, [], ◌∷◌, ◌++◌, map, trim, unwrap_or,
}
use leafmask.Prelude.Int.{pos}
use leafmask.Prelude.Result.{Run, returns, then_run, map_run}
use leafmask.Bson.{
  Bson, Document, BsonApi, StdApi, null, boolean, int32, string, array, document, items_of,
}
use leafmask.Condition.Scan.{split_top}
use leafmask.Condition.Literal.{parse_list, literal_to_filter_bson}
use leafmask.Condition.Eval.{Condition, Cut, Op, eq, ne, ge, gt, lt, not_in, is_in, cut_term}

-- The operator's name in a filter.
abbrev pub mongo_op : Op → Text
mongo_op gt = codes "$gt"
mongo_op lt = codes "$lt"
mongo_op ge = codes "$gte"
mongo_op ne = codes "$ne"
mongo_op is_in = codes "$in"
mongo_op not_in = codes "$nin"
mongo_op _ = codes "$lte"

module _ ⦃api : BsonApi⦄ where
  -- A document of one field.
  abbrev pub single : Text → Bson → Document
  single k v = api.insert api.new k v

  -- One clause stands alone, several are joined under the operator.
  unfoldable pub combine : Text → List Document → Document
  combine op (d ∷ []) = d
  combine op ds = single op (array (items_of (map document ds)))

  abbrev pub bare_filter : Text → Document
  bare_filter name = single name (
      document (
        api.insert (single (codes "$exists") (boolean true)) (codes "$nin")
          (array (items_of (null ∷ boolean false ∷ int32 (pos 0) ∷ string [] ∷ [])))))

module _ ⦃api : BsonApi⦄ ⦃std : StdApi⦄ where
  -- An element of a list literal: a text is read once more, for a date.
  abbrev pub filter_element : Bson → Run Bson
  filter_element (string s) = literal_to_filter_bson (codes "'" ++ (s ++ codes "'"))
  filter_element v = returns v

  abbrev pub filter_list : Text → Run Bson
  filter_list rhs = then_run (parse_list rhs) λ list.
      then_run (map_run filter_element (unwrap_or list [])) (λ vs. returns (array (items_of vs)))

  unfoldable pub filter_op : Text → Op → Text → Run Document
  filter_op lhs is_in rhs =
      then_run (filter_list rhs) (λ v. returns (single lhs (document (single (mongo_op is_in) v))))
  filter_op lhs not_in rhs =
      then_run (filter_list rhs) (λ v. returns (single lhs (document (single (mongo_op not_in) v))))
  filter_op lhs eq rhs = then_run (literal_to_filter_bson rhs) (λ v. returns (single lhs v))
  filter_op lhs op rhs =
      then_run (literal_to_filter_bson rhs)
        (λ v. returns (single lhs (document (single (mongo_op op) v))))

  abbrev pub filter_cut : Text → Option Cut → Run Document
  filter_cut term none = returns (bare_filter (trim term))
  filter_cut term (some c) = filter_op c.lhs c.op c.rhs

  unfoldable pub filter_term : Text → Run Document
  unfolding filter_op
  filter_term term = then_run (cut_term term) (filter_cut term)

  unfoldable pub filter_and : Text → Run Document
  unfolding filter_term combine
  filter_and expr =
      then_run (map_run (λ c. filter_term (trim c)) (split_top expr (codes " and ")))
        (λ parts. returns (combine (codes "$and") parts))

  unfoldable pub filter_or : Text → Run Document
  unfolding filter_and combine
  filter_or expr =
      then_run (map_run filter_and (split_top expr (codes " or ")))
        (λ parts. returns (combine (codes "$or") parts))

  unfoldable pub to_filter : Condition → Run Document
  unfolding filter_or
  to_filter c = filter_or c.expr
