-- ===== src/Builtin/Numbers.antt =====
-- The transformers of numbers and dates.
use leafmask.Prelude.{ℕ, Text, codes, unwrap_or}
use leafmask.Prelude.Int.{ℤ, pos, ◌+ℤ◌, mul_ℕ, saturate, wrapping_neg}
use leafmask.Prelude.Result.{
  transform, Result, ok, err, ok_or, Run, returns, then_run, unwrap, ◌>>?◌,
}
use leafmask.Bson.{Bson, BsonApi, StdApi, F64, int64, double, date_time}
use leafmask.Toolkit.Values.{ParamValues, get_i64, get_f64, to_i64, to_f64}
use leafmask.Toolkit.Cast.{to_hashable_bytes}
use leafmask.Hash.{Sha256, HashEngine}
use leafmask.Hash.Ranged.{ranged_i64}
use leafmask.Apply.{Transformer}
use leafmask.Builtin.Support.{FloatApi, unit}

abbrev pub min_name : Text
min_name = codes "min"

abbrev pub max_name : Text
max_name = codes "max"

abbrev pub day : ℕ
day = 86400000

module _ ⦃api : BsonApi⦄ ⦃std : StdApi⦄ ⦃sha256 : Sha256⦄ where
  unfoldable pub random_int : HashEngine → ℤ → ℤ → Transformer
  random_int engine min max v doc =
      returns (ok (int64 (ranged_i64 engine (to_hashable_bytes v) min max)))

  unfoldable pub build_random_int : ParamValues → HashEngine → Run (Result Transformer)
  build_random_int p engine = then_run (unwrap (get_i64 p min_name)) (λ min.
      then_run (unwrap (get_i64 p max_name)) (λ max. returns (ok (random_int engine min max))))

  -- The date, moved by the hashed number of days. `-max_days` wraps as in a release build: with
  -- overflow checks the source panics at i64::MIN.
  unfoldable pub shift_date : HashEngine → ℤ → ℤ → ℤ
  shift_date engine max_days t =
      let shift =
        ranged_i64 engine (to_hashable_bytes (date_time t)) (wrapping_neg max_days) max_days in
      saturate (t +ℤ saturate (mul_ℕ shift day))

  unfoldable pub noise_date : HashEngine → ℤ → Transformer
  noise_date engine max_days (date_time t) doc =
      returns (ok (date_time (shift_date engine max_days t)))
  noise_date engine max_days _ doc = returns (err transform)

  unfoldable pub build_noise_date : ParamValues → HashEngine → Run (Result Transformer)
  build_noise_date p engine =
      returns (ok (noise_date engine (unwrap_or (get_i64 p (codes "max_days")) (pos 30))))

  module _ ⦃float : FloatApi⦄ where
    unfoldable pub random_float : HashEngine → F64 → F64 → Transformer
    random_float engine min max v doc =
        let u = unit engine (to_hashable_bytes v) in
        returns (ok (double (float.add min (float.mul u (float.sub max min)))))

    unfoldable pub build_random_float : ParamValues → HashEngine → Run (Result Transformer)
    build_random_float p engine = then_run (unwrap (get_f64 p min_name)) (λ min.
        then_run (unwrap (get_f64 p max_name)) (λ max. returns (ok (random_float engine min max))))

    -- A hashed float in [-1, 1).
    abbrev pub signed_unit : HashEngine → Bson → F64
    signed_unit engine v =
        float.sub (float.mul (unit engine (to_hashable_bytes v)) float.two) float.one

    abbrev pub noisy_int : HashEngine → F64 → Bson → ℤ → Bson
    noisy_int engine ratio v base = int64 (
        saturate (
          base
          +ℤ std.i64_of_f64 (
              float.round
                (float.mul (float.mul (std.f64_of_i64 base) ratio) (signed_unit engine v)))))

    unfoldable pub noise_int : HashEngine → F64 → Transformer
    noise_int engine ratio v doc = returns (ok_or (to_i64 v) transform) >>? λ base.
        returns (ok (noisy_int engine ratio v base))

    abbrev pub ratio_of : ParamValues → F64
    ratio_of p = unwrap_or (get_f64 p (codes "ratio")) float.tenth

    unfoldable pub build_noise_int : ParamValues → HashEngine → Run (Result Transformer)
    build_noise_int p engine = returns (ok (noise_int engine (ratio_of p)))

    unfoldable pub noise_float : HashEngine → F64 → Transformer
    noise_float engine ratio v doc = returns (ok_or (to_f64 v) transform) >>? λ base.
        returns
          (ok (double (float.add base (float.mul (float.mul base ratio) (signed_unit engine v)))))

    unfoldable pub build_noise_float : ParamValues → HashEngine → Run (Result Transformer)
    build_noise_float p engine = returns (ok (noise_float engine (ratio_of p)))
