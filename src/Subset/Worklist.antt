-- ===== src/Subset/Worklist.antt =====
-- The traversal's state and `admit` of subset/database_subsetting.rs, over any kind of node.
use leafmask.Prelude.{
  ℕ, zero, suc, Text, Option, none, some, List, [], ◌∷◌, ◌++◌, contains, text_Eq, if◌then◌else◌,
}
use leafmask.Prelude.Result.{Result, ok, err}

-- `visited` and `work` are the locals of `traverse`; `admitted` lists the calls of `on_admit`.
pub record Traversal (N : Type 0) : Type 0 where
  pub visited : List Text
  pub work : List N
  pub admitted : List N

module _ {N : Type 0} where
  abbrev pub fresh : Traversal N
  fresh = record { visited = []; work = []; admitted = [] }

  -- A node whose key was visited is passed over.
  unfoldable pub admit : (N → Text) → N → Traversal N → Traversal N
  admit key n s = if contains s.visited (key n) then s else record {
    visited = key n ∷ s.visited;
    work = n ∷ s.work;
    admitted = s.admitted ++ n ∷ [];
  }

  unfoldable pub admit_all : (N → Text) → List N → Traversal N → Traversal N
  unfolding admit
  admit_all key [] s = s
  admit_all key (n ∷ ns) s = admit_all key ns (admit key n s)

  -- `while let Some(node) = work.pop()`: `none` is out of fuel.
  unfoldable pub walk :
      (N → Traversal N → Result (Traversal N)) → ℕ → Traversal N → Option (Result (Traversal N))
  walk follow zero s = elim s.work [ [] ↦ some (ok s) | _ ∷ _ ↦ none ]
  walk follow (suc fuel) s = elim s.work [
    | [] ↦ some (ok s)
    | n ∷ rest ↦ elim (follow n (record s { work = rest })) [
      | ok t ↦ walk follow fuel t
      | err e ↦ some (err e)
    ]
  ]
