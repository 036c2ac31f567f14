-- ===== src/Prelude/Maps.antt =====
-- `BTreeMap<String, V>` as the list of its entries in key order.
use mathlib.Core.Path.{◌≡◌, refl}
use mathlib.Core.Option.{Option, none, some}
use mathlib.Core.List.{List, [], ◌∷◌}
use native.Mathlib.Omega.{arith}
use leafmask.Prelude.Tests.{if◌then◌else◌}
use leafmask.Prelude.Chars.{Text, text_eq, text_eq_iff, text_leb}

abbrev pub Map {ℓ} : Type ℓ → Type ℓ
Map V = List (Text × V)

module _ {ℓ} {V : Type ℓ} where
  -- `get`
  abbrev pub at_key : Map V → Text → Option V
  at_key [] k = none
  at_key ((j, v) ∷ m) k = if text_eq j k then some v else at_key m k

  -- `insert`
  abbrev pub put_key : Map V → Text → V → Map V
  put_key [] k v = (k, v) ∷ []
  put_key ((j, w) ∷ m) k v =
      let rest = put_key m k v in
      if text_eq j k
      then (k, v) ∷ m
      else if text_leb k j
      then (k, v) ∷ (j, w) ∷ m
      else (j, w) ∷ rest

  pub at_key-put_key :
      (m : Map V) (k : Text) (v : V) (i : Text)
      → at_key (put_key m k v) i ≡ (if text_eq k i then some v else at_key m i)
  at_key-put_key [] k v i = refl
  at_key-put_key ((j, w) ∷ m) k v i =
      ground (arith, text_eq_iff j k, text_eq_iff k i, text_eq_iff j i, at_key-put_key m k v i)
