-- ===== src/Builtin/Tests.antt =====
-- The built-in transformers over concrete crates.
use leafmask.Prelude.{ℕ, ◌+◌, ◌*◌, Text, codes, some, List, [], ◌∷◌, ◌≡◌, refl, length, arith}
use leafmask.Prelude.Int.{ℤ, pos, ◌+ℤ◌, ◌-ℤ◌, ◌≤ℤ◌, InI64}
use leafmask.Prelude.Result.{ok, returns}
use leafmask.Bson.{end, date_time, string, int64}
use leafmask.Bson.Sample.{sample_bson, sample_std}
use leafmask.Toolkit.Sample.{sample_yaml, whole}
use leafmask.Hash.Tests.{seven_sha, salted}
use leafmask.Registry.{instantiate}
use leafmask.Builtin.Support.{FloatApi, HexApi, RegexApi}
use leafmask.Builtin.Numbers.{day, noise_date}
use leafmask.Builtin.Values.{hash}
use leafmask.Builtin.Register.{with_builtins}
use leafmask.Builtin.Laws.{noise_date-Near, length-hash}
use leafmask.Builtin.Each.{Safe}
use leafmask.Builtin.Total.{instantiate-Safe}

-- Whole numbers stand for floats, two digits for a byte, texts for patterns.
instance abbrev whole_floats : FloatApi
whole_floats = record {
  add = ◌+◌;
  sub = λ a b. a;
  mul = ◌*◌;
  div = λ a b. a;
  round = λ a. a;
  of_u64 = λ n. n;
  tenth = 0;
  one = 1;
  two = 2;
}

abbrev pairs : List ℕ → Text
pairs [] = []
pairs (b ∷ bs) = b'0' ∷ b'7' ∷ pairs bs

length-pairs : (bs : List ℕ) → length (pairs bs) ≡ length bs + length bs
length-pairs [] = refl
length-pairs (b ∷ bs) = omega (arith, length-pairs bs)

instance abbrev sample_hex : HexApi
sample_hex = record { encode = pairs; length-encode = length-pairs }

instance abbrev sample_regex : RegexApi
sample_regex = record {
  Regex = Text;
  new = λ s. some s;
  replace_all = λ re s t. s;
  replace_with = λ re s f. s;
  new-template_pattern = (_, refl);
}

instantiate-Safe_example : Safe (
    instantiate with_builtins
      (codes "random_int")
      ((codes "min", whole (pos 3) (codes "3")) ∷ (codes "max", whole (pos 9) (codes "9")) ∷ [])
      salted)
instantiate-Safe_example =
    instantiate-Safe (codes "random_int")
      ((codes "min", whole (pos 3) (codes "3")) ∷ (codes "max", whole (pos 9) (codes "9")) ∷ [])
      salted

noise_date-Near_example :
    (u : ℤ) × (noise_date salted (pos 2) (date_time (pos 5)) end ≡ returns (ok (date_time u)))
    × InI64 u
    × (pos 5 -ℤ pos (2 * day) ≤ℤ u)
    × (u ≤ℤ pos 5 +ℤ pos (2 * day))
noise_date-Near_example = noise_date-Near salted 2 (pos 5) end (omega arith, omega arith)

length-hash_example :
    (s : Text) × (hash salted 5 (int64 (pos 1)) end ≡ returns (ok (string s))) × (length s ≡ 5)
length-hash_example = length-hash salted 5 (int64 (pos 1)) end
