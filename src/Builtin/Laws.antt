-- ===== src/Builtin/Laws.antt =====
-- What the built-in transformers return.
use leafmask.Prelude.{ℕ, ◌+◌, ◌*◌, ◌/◌, ◌≤◌, Text, List, ◌≡◌, refl, length, take, arith}
use leafmask.Prelude.Int.{ℤ, pos, negsuc, ◌+ℤ◌, ◌-ℤ◌, ◌≤ℤ◌, InI64, mul_ℕ, saturate}
use leafmask.Prelude.Result.{ok, returns}
use leafmask.Bson.{Bson, Document, BsonApi, StdApi, string, date_time, object_id}
use leafmask.Toolkit.Cast.{to_hashable_bytes}
use leafmask.Hash.{Sha256, HashEngine}
use leafmask.Hash.Laws.{length-hash_bytes, length-take_of_le}
use leafmask.Hash.Ranged.{ranged_i64, ranged_i64-Within}
use leafmask.Builtin.Support.{HexApi, derived}
use leafmask.Builtin.Numbers.{day, shift_date, noise_date}
use leafmask.Builtin.Values.{hash, random_object_id}

-- A saturated number moves toward the range, so it stays between bounds that straddle it.
saturate-InI64 : (z : ℤ) → InI64 (saturate z)
saturate-InI64 z = ground arith

-- No further from 0 than the bound.
Within : ℕ → ℤ → Type 0
Within bound z = (pos 0 -ℤ pos bound ≤ℤ z) × (z ≤ℤ pos bound)

saturate-Within : (bound : ℕ) (z : ℤ) → Within bound z → Within bound (saturate z)
unfolding Within
saturate-Within bound (pos n) h = ground (arith, h)
saturate-Within bound (negsuc n) h = ground (arith, h)

mul_ℕ-Within : (bound : ℕ) (z : ℤ) → Within bound z → Within (bound * day) (mul_ℕ z day)
unfolding Within
mul_ℕ-Within bound (pos n) h = ground (arith, h)
mul_ℕ-Within bound (negsuc n) h = ground (arith, h)

saturate-Near :
    (bound : ℕ) (t m : ℤ)
    → InI64 t
    → Within bound m
    → (t -ℤ pos bound ≤ℤ saturate (t +ℤ m)) × (saturate (t +ℤ m) ≤ℤ t +ℤ pos bound)
unfolding Within
saturate-Near bound (pos a) (pos b) range h = ground (arith, h, range)
saturate-Near bound (pos a) (negsuc b) range h = ground (arith, h, range)
saturate-Near bound (negsuc a) (pos b) range h = ground (arith, h, range)
saturate-Near bound (negsuc a) (negsuc b) range h = ground (arith, h, range)

module _ ⦃api : BsonApi⦄ ⦃sha256 : Sha256⦄ (engine : HashEngine) where
  length-derived : (v : Bson) (n : ℕ) → length (derived engine v n) ≡ n
  length-derived v n =
      let (bytes, e, same) = length-hash_bytes engine (to_hashable_bytes v) n in rw e same

  -- A hash is a text of as many characters as were asked for: neither the slice nor the engine
  -- runs short.
  pub length-hash :
      ⦃hex : HexApi⦄ (len : ℕ) (v : Bson) (doc : Document)
      → (s : Text) × (hash engine len v doc ≡ returns (ok (string s))) × (length s ≡ len)
  unfolding hash
  length-hash ⦃hex⦄ len v doc =
      let text = hex.encode (derived engine v (len / 2 + 1)) in
      let enough : len ≤ length text = omega (
        arith,
        hex.length-encode (derived engine v (len / 2 + 1)),
        length-derived v (len / 2 + 1),
      ) in
      (take len text, ground (arith, enough), length-take_of_le len text enough)

  pub length-random_object_id :
      (v : Bson) (doc : Document)
      → (bytes : List ℕ) × (random_object_id engine v doc ≡ returns (ok (object_id bytes)))
        × (length bytes ≡ 12)
  unfolding random_object_id
  length-random_object_id v doc =
      let same = length-derived v 12 in (derived engine v 12, rw same refl, same)

module _ ⦃api : BsonApi⦄ ⦃std : StdApi⦄ ⦃sha256 : Sha256⦄ (engine : HashEngine) where
  -- A date is moved by at most as many days as were configured, either way, if their number is not
  -- negative; and what is returned is in the range of a date again.
  pub noise_date-Near :
      (days : ℕ) (t : ℤ) (doc : Document)
      → InI64 t
      → (u : ℤ) × (noise_date engine (pos days) (date_time t) doc ≡ returns (ok (date_time u)))
        × InI64 u
        × (t -ℤ pos (days * day) ≤ℤ u)
        × (u ≤ℤ t +ℤ pos (days * day))
  unfolding noise_date shift_date Within
  noise_date-Near days t doc range =
      let input = to_hashable_bytes (date_time t) in
      let shift = ranged_i64 engine input (pos 0 -ℤ pos days) (pos days) in
      let drawn : Within days shift =
        ranged_i64-Within engine input (pos 0 -ℤ pos days) (pos days) (ground arith) in
      let moved = saturate-Within (days * day) (mul_ℕ shift day) (mul_ℕ-Within days shift drawn) in
      let near = saturate-Near (days * day) t (saturate (mul_ℕ shift day)) range moved in
      (
        shift_date engine (pos days) t,
        refl,
        saturate-InI64 (t +ℤ saturate (mul_ℕ shift day)),
        near.0,
        near.1,
      )
