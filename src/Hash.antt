-- ===== src/Hash.antt =====
-- hash.rs: values derived from SHA-256(salt || input).
pub mod Ranged
pub mod Laws
pub mod Tests
use leafmask.Prelude.{
  ℕ, zero, suc, ◌+◌, ◌*◌, ◌/◌, ◌%◌, ◌^◌, ◌<◌, Bool, true, false, Option, none, some, List, [], ◌∷◌,
  ◌++◌, ◌≡◌, length, take, ltb, nat_eq, All, option_map, if◌then◌else◌,
}

-- The sha2 crate: the digest is 32 bytes long.
pub record Sha256 : Type 0 where
  pub sha : List ℕ → List ℕ
  pub length-sha : (message : List ℕ) → length (sha message) ≡ 32

pub record HashEngine : Type 0 where
  pub salt : List ℕ

-- u32::to_be_bytes
abbrev pub be_bytes : ℕ → List ℕ
be_bytes c = c / 16777216 % 256 ∷ c / 65536 % 256 ∷ c / 256 % 256 ∷ c % 256 ∷ []

-- u64::from_be_bytes, from the value of the bytes before
abbrev pub be_value : ℕ → List ℕ → ℕ
be_value v [] = v
be_value v (b ∷ bytes) = be_value (256 * v + b) bytes

module _ ⦃sha256 : Sha256⦄ (self : HashEngine) where
  unfoldable pub digest : List ℕ → List ℕ
  digest input = sha256.sha (self.salt ++ input)

  abbrev pub block : List ℕ → ℕ → List ℕ
  block input counter = sha256.sha (self.salt ++ (input ++ be_bytes counter))

  -- `none` is out of fuel; the counter wraps at 32 bits.
  unfoldable pub hash_loop : ℕ → List ℕ → ℕ → ℕ → List ℕ → Option (List ℕ)
  hash_loop zero input n counter out = if ltb (length out) n then none else some out
  hash_loop (suc fuel) input n counter out =
      let rest = hash_loop fuel input n ((counter + 1) % 2 ^ 32) (out ++ block input counter) in
      if ltb (length out) n then rest else some out

  unfoldable pub hash_bytes : List ℕ → ℕ → Option (List ℕ)
  hash_bytes input n = option_map (take n) (hash_loop n input n 0 [])

  unfoldable pub hash_u64 : List ℕ → ℕ
  hash_u64 input = be_value 0 (take 8 (digest input))

  -- `>> 1`
  unfoldable pub hash_i64 : List ℕ → ℕ
  hash_i64 input = hash_u64 input / 2

  unfoldable pub index : List ℕ → ℕ → ℕ
  index input len = if nat_eq len 0 then 0 else hash_u64 input % len
