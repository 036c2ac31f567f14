-- ===== src/Condition/Tests.antt =====
-- Conditions with quoted literals, and with characters of more than one byte.
use leafmask.Prelude.{Text, codes, Bool, none, some, ◌≡◌, ◌↔◌, refl, join, trim, All}
use leafmask.Prelude.Int.{pos}
use leafmask.Prelude.Result.{returns, panics}
use leafmask.Bson.{int64, end, field}
use leafmask.Bson.Sample.{sample_bson, sample_std}
use leafmask.Condition.Scan.{split_top, find_op, find_op_from}
use leafmask.Condition.Literal.{parse_literal}
use leafmask.Condition.Eval.{eval}
use leafmask.Condition.Quotes.{Closed}
use leafmask.Condition.Split.{join-split_top, split_top-Closed}
use leafmask.Condition.Find.{Found, find_op-first}
use leafmask.Condition.Literals.{LoneQuote, parse_literal-panics}
use leafmask.Condition.Returns.{eval-returns}

abbrev quoted : Text
quoted = codes "name == 'é and b' and âge > 1"

join-split_top_example : join (codes " and ") (split_top quoted (codes " and ")) ≡ quoted
join-split_top_example = join-split_top b' ' (codes "and ") quoted

split_top-Closed_example : All Closed (split_top quoted (codes " and "))
split_top-Closed_example = split_top-Closed b' ' (codes "and ") quoted refl refl

find_op-first_example : Found (codes "==") 0 none quoted (find_op quoted (codes "=="))
find_op-first_example = find_op-first b'=' (codes "=") refl quoted

-- The offset is in bytes.
find_op-bytes : find_op (codes "'é' âge > 1") (codes ">") ≡ some 10
unfolding find_op find_op_from
find_op-bytes = refl

parse_literal-panics_example : (parse_literal (codes "'") ≡ panics) ↔ LoneQuote (codes "'")
unfolding trim
parse_literal-panics_example = parse_literal-panics (codes "'")

eval-returns_example :
    (b : Bool) × (eval (record { expr = quoted }) (field (codes "âge") (int64 (pos 2)) end)
      ≡ returns b)
eval-returns_example =
    eval-returns (record { expr = quoted }) (field (codes "âge") (int64 (pos 2)) end) refl
