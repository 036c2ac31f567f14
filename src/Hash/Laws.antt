-- ===== src/Hash/Laws.antt =====
-- Lengths and ranges of the derived values.
use leafmask.Prelude.{
  ℕ, zero, suc, ◌+◌, ◌%◌, ◌^◌, ◌≤◌, ◌<◌, some, List, [], ◌∷◌, ◌++◌, ◌≡◌, refl, inl, inr, arith,
  length, length-append, take, ltb, Bool-cases,
}
use leafmask.Hash.{Sha256, HashEngine, be_bytes, block, hash_loop, hash_bytes, index}

pub length-take_of_le : {A : Type 0} (n : ℕ) (xs : List A) → n ≤ length xs → length (take n xs) ≡ n
length-take_of_le zero xs h = omega arith
length-take_of_le (suc n) [] h = absurd (omega (arith, h))
length-take_of_le (suc n) (x ∷ xs) h = omega (arith, length-take_of_le n xs (omega (arith, h)))

module _ ⦃sha256 : Sha256⦄ (self : HashEngine) where
  hash_loop-long :
      (fuel : ℕ) (input : List ℕ) (n counter : ℕ) (out : List ℕ)
      → n ≤ length out + fuel
      → (bytes : List ℕ) × (hash_loop self fuel input n counter out ≡ some bytes)
        × (n ≤ length bytes)
  unfolding hash_loop
  hash_loop-long zero input n counter out h = elim (Bool-cases (ltb (length out) n)) [
    | inl short ↦ absurd (ground (arith, h, short))
    | inr done ↦ rw done (out, refl, ground arith)
  ]
  hash_loop-long (suc fuel) input n counter out h = elim (Bool-cases (ltb (length out) n)) [
    | inl short ↦ rw short (
        hash_loop-long fuel input n ((counter + 1) % 2 ^ 32) (out ++ block self input counter) (
          omega (
            arith,
            h,
            length-append out (block self input counter),
            sha256.length-sha (self.salt ++ (input ++ be_bytes counter)),
          )))
    | inr done ↦ rw done (out, refl, ground arith)
  ]

  -- `hash_bytes` ends and gives exactly as many bytes as it is asked for.
  pub length-hash_bytes :
      (input : List ℕ) (n : ℕ)
      → (bytes : List ℕ) × (hash_bytes self input n ≡ some bytes) × (length bytes ≡ n)
  unfolding hash_bytes
  length-hash_bytes input n =
      let (bytes, e, enough) = hash_loop-long n input n 0 [] (omega arith) in
      (take n bytes, rw e, length-take_of_le n bytes enough)

  -- An index into a slice that is not empty is within it.
  pub index_lt : (input : List ℕ) (len : ℕ) → 0 < len → index self input len < len
  unfolding index
  index_lt input len h = ground (arith, h)
