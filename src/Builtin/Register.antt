-- ===== src/Builtin/Register.antt =====
-- `register_all` of transform/builtin.rs, and `Registry::with_builtins`.
use leafmask.Prelude.{Text, codes, List, [], ◌∷◌}
use leafmask.Prelude.Int.{pos}
use leafmask.Prelude.Result.{Result, Run}
use leafmask.Bson.{BsonApi, StdApi, int64, double, string}
use leafmask.Toolkit.Params.{ParamType, ParamDefinition, required, optional}
use leafmask.Toolkit.Values.{ParamValues}
use leafmask.Hash.{Sha256, HashEngine}
use leafmask.Apply.{Transformer}
use leafmask.Registry.{TransformerFactory, Registry, empty, register}
use leafmask.Builtin.Support.{FloatApi, HexApi, RegexApi}
use leafmask.Builtin.Numbers.{
  min_name, max_name, build_random_int, build_random_float, build_noise_int, build_noise_float,
  build_noise_date,
}
use leafmask.Builtin.Values.{
  length_name, build_hash, build_masking, build_regexp_replace, build_replace, build_set_null,
  build_random_email, build_random_person, build_random_company, build_random_object_id,
  build_random_bytes, build_template,
}

-- TransformerFactory::new
abbrev pub factory :
    Text
    → Text
    → List ParamDefinition
    → (ParamValues → HashEngine → Run (Result Transformer))
    → TransformerFactory
factory name description parameters build = record {
  name = name;
  description = description;
  parameters = parameters;
  build = build;
}

module _ ⦃api : BsonApi⦄ ⦃std : StdApi⦄ ⦃sha256 : Sha256⦄ ⦃float : FloatApi⦄ ⦃hex : HexApi⦄
    ⦃regex : RegexApi⦄ where
  -- The ratio of the noise transformers.
  abbrev pub ratio : ParamDefinition
  ratio =
      optional (codes "ratio") ParamType.float (double float.tenth)
        (codes "maximum fractional perturbation")

  unfoldable pub number_factories : List TransformerFactory
  number_factories =
      factory (codes "random_int")
        (codes "Deterministically generate an integer within [min, max].")
        (required min_name ParamType.int (codes "lower bound")
          ∷ required max_name ParamType.int (codes "upper bound")
          ∷ [])
        build_random_int
      ∷ factory (codes "random_float")
          (codes "Deterministically generate a float within [min, max].")
          (required min_name ParamType.float (codes "lower bound")
            ∷ required max_name ParamType.float (codes "upper bound")
            ∷ [])
          build_random_float
      ∷ factory (codes "noise_int")
          (codes "Perturb an integer by up to ±ratio of its magnitude, keeping the int type.")
          (ratio ∷ []) build_noise_int
      ∷ factory (codes "noise_float")
          (codes "Perturb a float by up to ±ratio of its magnitude, keeping the double type.")
          (ratio ∷ []) build_noise_float
      ∷ factory (codes "noise_date")
          (codes "Shift a date by up to ±max_days, keeping the datetime type.")
          (optional (codes "max_days") ParamType.int (int64 (pos 30))
              (codes "maximum absolute shift in days")
            ∷ [])
          build_noise_date
      ∷ []

  unfoldable pub text_factories : List TransformerFactory
  text_factories =
      factory (codes "masking")
        (codes "Replace every character of a string with a mask character, keeping length.")
        (optional (codes "char") ParamType.string (string (codes "*")) (codes "mask character")
          ∷ [])
        build_masking
      ∷ factory (codes "regexp_replace")
          (codes "Apply a regular-expression replacement to a string value.")
          (required (codes "regexp") ParamType.string (codes "pattern")
            ∷ required (codes "replace") ParamType.string (codes "replacement")
            ∷ [])
          build_regexp_replace
      ∷ factory (codes "replace") (codes "Replace the value with a fixed configured value.")
          (required (codes "value") ParamType.any (codes "replacement value") ∷ []) build_replace
      ∷ factory (codes "set_null") (codes "Set the value to null.") [] build_set_null
      ∷ []

  unfoldable pub generator_factories : List TransformerFactory
  generator_factories =
      factory (codes "random_email") (codes "Deterministically generate an email address.")
        (optional (codes "domain") ParamType.string (string (codes "example.com"))
            (codes "email domain")
          ∷ [])
        build_random_email
      ∷ factory (codes "random_person")
          (codes
            "Deterministically generate consistent person fields (first_name, last_name, email) into an embedded document.")
          [] build_random_person
      ∷ factory (codes "random_company") (codes "Deterministically generate a company name.") []
          build_random_company
      ∷ factory (codes "random_object_id")
          (codes "Deterministically transform an ObjectId while keeping it a valid ObjectId.") []
          build_random_object_id
      ∷ factory (codes "random_bytes")
          (codes "Deterministically generate binary data of a given length.")
          (optional length_name ParamType.int (int64 (pos 16)) (codes "number of bytes") ∷ [])
          build_random_bytes
      ∷ factory (codes "template")
          (codes "Render a template with {{ field }} placeholders substituted from the document.")
          (required (codes "template") ParamType.string (codes "template text") ∷ []) build_template
      ∷ []

  abbrev pub hash_factory : TransformerFactory
  hash_factory =
      factory (codes "hash")
        (codes "Replace the value with a deterministic hex hash of the original.")
        (optional length_name ParamType.int (int64 (pos 16))
            (codes "number of hex characters to keep")
          ∷ [])
        build_hash

  abbrev pub register_each : Registry → List TransformerFactory → Registry
  register_each r [] = r
  register_each r (f ∷ fs) = register_each (register r f) fs

  unfoldable pub register_all : Registry → Registry
  register_all r =
      register_each
        (register_each (register_each (register r hash_factory) number_factories) text_factories)
        generator_factories

  unfoldable pub with_builtins : Registry
  with_builtins = register_all empty
