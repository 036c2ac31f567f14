-- ===== src/FieldPath/Tests.antt =====
-- A document with an embedded one.
use leafmask.Prelude.{codes, some, [], ◌∷◌, ◌≡◌, refl, inl, inr, split_on}
use leafmask.Prelude.Int.{pos}
use leafmask.Bson.{Document, int64, document, end, field}
use leafmask.Bson.Sample.{sample_bson}
use leafmask.FieldPath.{dot, get_path, set_path, set_parts}
use leafmask.FieldPath.Laws.{
  Diverge, set_path-eq-set_parts, get_path-set_path_self, get_path-set_path-Diverge,
}

abbrev person : Document
person = field (codes "name") (document (field (codes "first") (int64 (pos 1)) end)) end

set_path-eq-set_parts_example :
    set_path person (codes "name.last") (int64 (pos 2))
    ≡ set_parts person (codes "name" ∷ codes "last" ∷ []) (int64 (pos 2))
set_path-eq-set_parts_example = set_path-eq-set_parts person (codes "name.last") (int64 (pos 2))

get_path-set_path_self_example :
    get_path (set_path person (codes "name.last") (int64 (pos 2))) (codes "name.last")
    ≡ some (int64 (pos 2))
get_path-set_path_self_example = get_path-set_path_self person (codes "name.last") (int64 (pos 2))

first_or_last : Diverge (split_on dot (codes "name.last")) (split_on dot (codes "name.first"))
first_or_last = inr (refl, inl (λ e. cc))

get_path-set_path-Diverge_example :
    get_path (set_path person (codes "name.last") (int64 (pos 2))) (codes "name.first")
    ≡ get_path person (codes "name.first")
get_path-set_path-Diverge_example =
    get_path-set_path-Diverge person (codes "name.last") (codes "name.first") (int64 (pos 2))
      first_or_last
