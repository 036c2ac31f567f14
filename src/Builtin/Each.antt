-- ===== src/Builtin/Each.antt =====
-- No factory of a built-in transformer panics, nor does what it builds.
use leafmask.Prelude.{
  ℕ, zero, suc, ◌<◌, codes, Option, none, some, List, [], ◌∷◌, ◌++◌, All, ◌≡◌, refl, length, arith,
}
use leafmask.Prelude.Int.{ℤ}
use leafmask.Prelude.Result.{
  Result, ok, err, ok_or, transform, Run, returns, panics, then_run, Returns, ◌>>?◌,
}
use leafmask.Bson.{Bson, Document, BsonApi, StdApi, date_time}
use leafmask.Toolkit.Yaml.{YamlApi}
use leafmask.Toolkit.Values.{ParamValues, to_i64, to_f64}
use leafmask.Toolkit.Cast.{to_hashable_bytes}
use leafmask.Toolkit.Static.{validate_static}
use leafmask.Inheritance.{Params}
use leafmask.Hash.{Sha256, HashEngine, index}
use leafmask.Hash.Laws.{index_lt}
use leafmask.Apply.{Transformer}
use leafmask.Registry.{TransformerFactory}
use leafmask.Builtin.Support.{FloatApi, HexApi, RegexApi, at_index}
use leafmask.Builtin.Numbers.{
  min_name, max_name, random_int, build_random_int, random_float, build_random_float, noise_int,
  build_noise_int, noise_float, build_noise_float, noise_date, build_noise_date,
}
use leafmask.Builtin.Values.{
  hash, build_hash, masking, build_masking, build_regexp_replace, build_replace, build_set_null,
  random_email, build_random_email, random_person, build_random_person, random_company,
  build_random_company, random_object_id, build_random_object_id, random_bytes, build_random_bytes,
  build_template, at_least_one, length_of, first_names, last_names, companies,
}
use leafmask.Builtin.Register.{number_factories, text_factories, generator_factories, hash_factory}
use leafmask.Builtin.Required.{int_param, float_param, text_param, one_required, two_required}
use leafmask.Builtin.Laws.{length-hash, length-random_object_id}

-- Building does not panic, and neither does what is built, on any value.
abbrev pub Safe : Run (Result Transformer) → Type 0
Safe panics = ⊥
Safe (returns (err e)) = Unit
Safe (returns (ok t)) = (v : Bson) (doc : Document) → Returns (t v doc)

at_index-Returns :
    {A B : Type 0} (xs : List A) (i : ℕ) (f : A → Run B)
    → i < length xs
    → ((a : A) → Returns (f a))
    → Returns (then_run (at_index xs i) f)
at_index-Returns [] i f h g = absurd (omega (arith, h))
at_index-Returns (x ∷ xs) zero f h g = g x
at_index-Returns (x ∷ xs) (suc i) f h g = at_index-Returns xs i f (omega (arith, h)) g

module _ ⦃api : BsonApi⦄ ⦃std : StdApi⦄ ⦃yaml : YamlApi⦄ where
  -- What `validate_static` lets a factory build from.
  abbrev pub SafeFactory : TransformerFactory → Type 0
  SafeFactory f =
      (provided : Params) (values : ParamValues) (engine : HashEngine)
      → validate_static f.parameters provided ≡ ok values
      → Safe (f.build values engine)

  module _ ⦃sha256 : Sha256⦄ where
    random_person-Returns :
        (engine : HashEngine) (v : Bson) (doc : Document) → Returns (random_person engine v doc)
    unfolding random_person
    random_person-Returns engine v doc =
        let bytes = to_hashable_bytes v in
        at_index-Returns first_names (index engine bytes 10) _
          (index_lt engine bytes 10 (omega arith))
          (λ first.
            at_index-Returns last_names (index engine (bytes ++ codes "last") 10) _
              (index_lt engine (bytes ++ codes "last") 10 (omega arith)) (λ last. tt))

    random_company-Returns :
        (engine : HashEngine) (v : Bson) (doc : Document) → Returns (random_company engine v doc)
    unfolding random_company
    random_company-Returns engine v doc =
        at_index-Returns companies (index engine (to_hashable_bytes v) 6) _
          (index_lt engine (to_hashable_bytes v) 6 (omega arith)) (λ name. tt)

    noise_date-Returns :
        (engine : HashEngine) (days : ℤ) (v : Bson) (doc : Document)
        → Returns (noise_date engine days v doc)
    unfolding noise_date
    noise_date-Returns engine days (date_time t) doc = tt
    noise_date-Returns engine days _ doc = tt

    hash-Returns :
        ⦃hex : HexApi⦄ (engine : HashEngine) (len : ℕ) (v : Bson) (doc : Document)
        → Returns (hash engine len v doc)
    hash-Returns engine len v doc = let (s, e, _) = length-hash engine len v doc in rw e tt

    random_object_id-Returns :
        (engine : HashEngine) (v : Bson) (doc : Document) → Returns (random_object_id engine v doc)
    random_object_id-Returns engine v doc =
        let (bytes, e, _) = length-random_object_id engine v doc in rw e tt

ok_or-Returns :
    {A B : Type 0} (o : Option A) (f : A → B)
    → Returns (returns (ok_or o transform) >>? λ a. returns (ok (f a)))
ok_or-Returns none f = tt
ok_or-Returns (some a) f = tt

ok_or-Safe :
    {A : Type 0} (o : Option A) (f : A → Run (Result Transformer))
    → ((a : A) → Safe (f a))
    → Safe (returns (ok_or o transform) >>? f)
ok_or-Safe none f g = tt
ok_or-Safe (some a) f g = g a

module _ ⦃api : BsonApi⦄ ⦃std : StdApi⦄ ⦃yaml : YamlApi⦄ ⦃sha256 : Sha256⦄ ⦃float : FloatApi⦄
    ⦃hex : HexApi⦄ ⦃regex : RegexApi⦄ where
  pub number_factories-Safe : All SafeFactory number_factories
  unfolding number_factories build_random_int random_int build_random_float random_float
      build_noise_int noise_int build_noise_float noise_float build_noise_date
  number_factories-Safe = (
    λ provided values engine e.
        let (low, high) = two_required provided values min_name _ _ max_name _ _ refl e in
        rw
          (
            (int_param provided values min_name _ low).1,
            (int_param provided values max_name _ high).1,
          )
          (λ v doc. tt),
    (
      λ provided values engine e.
          let (low, high) = two_required provided values min_name _ _ max_name _ _ refl e in
          rw
            (
              (float_param provided values min_name _ low).1,
              (float_param provided values max_name _ high).1,
            )
            (λ v doc. tt),
      (
        λ provided values engine e v doc. ok_or-Returns (to_i64 v) _,
        (
          λ provided values engine e v doc. ok_or-Returns (to_f64 v) _,
          (λ provided values engine e. noise_date-Returns engine _, tt),
        ),
      ),
    ),
  )

  pub text_factories-Safe : All SafeFactory text_factories
  unfolding text_factories build_masking masking build_regexp_replace build_replace build_set_null
  text_factories-Safe = (
    λ provided values engine e v doc. tt,
    (
      λ provided values engine e.
          let (pattern, replace) =
            two_required provided values (codes "regexp") _ _ (codes "replace") _ _ refl e in
          rw (text_param provided values (codes "regexp") _ pattern).1 (
            ok_or-Safe (regex.new _) _
              (λ re. rw (text_param provided values (codes "replace") _ replace).1 (λ v doc. tt))),
      (λ provided values engine e v doc. tt, (λ provided values engine e v doc. tt, tt)),
    ),
  )

  pub generator_factories-Safe : All SafeFactory generator_factories
  unfolding generator_factories build_random_email random_email build_random_person
      build_random_company build_random_object_id build_random_bytes random_bytes build_template
  generator_factories-Safe = (
    λ provided values engine e v doc. tt,
    (
      λ provided values engine e. random_person-Returns engine,
      (
        λ provided values engine e. random_company-Returns engine,
        (
          λ provided values engine e. random_object_id-Returns engine,
          (
            λ provided values engine e v doc. tt,
            (
              λ provided values engine e.
                  rw
                    (
                      (text_param provided values (codes "template") _
                          (one_required provided values (codes "template") _ _ e)).1,
                      regex.new-template_pattern.1,
                    )
                    (λ v doc. tt),
              tt,
            ),
          ),
        ),
      ),
    ),
  )

  pub hash_factory-Safe : SafeFactory hash_factory
  unfolding build_hash
  hash_factory-Safe provided values engine e = hash-Returns engine (at_least_one (length_of values))
