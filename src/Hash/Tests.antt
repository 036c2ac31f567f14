-- ===== src/Hash/Tests.antt =====
-- A digest of 32 sevens.
use leafmask.Prelude.{ℕ, zero, suc, some, List, [], ◌∷◌, ◌≡◌, refl, length}
use leafmask.Hash.{Sha256, HashEngine, hash_bytes}
use leafmask.Hash.Laws.{length-hash_bytes}

abbrev sevens : ℕ → List ℕ
sevens zero = []
sevens (suc n) = 7 ∷ sevens n

instance abbrev pub seven_sha : Sha256
seven_sha = record { sha = λ message. sevens 32; length-sha = λ message. refl }

abbrev pub salted : HashEngine
salted = record { salt = 1 ∷ [] }

length-hash_bytes_example :
    (bytes : List ℕ) × (hash_bytes salted (2 ∷ []) 40 ≡ some bytes) × (length bytes ≡ 40)
length-hash_bytes_example = length-hash_bytes salted (2 ∷ []) 40
