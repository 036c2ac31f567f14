-- ===== src/Builtin/Total.antt =====
-- No built-in transformer panics.
use leafmask.Prelude.{
  Text, text_eq, some, List, [], ◌∷◌, All, ◌≡◌, refl, sym, ◌∙◌, inl, inr, Bool-cases, Option-cases,
  if◌then◌else◌,
}
use leafmask.Prelude.Result.{Result, ok, err, returns, ◌>>?◌}
use leafmask.Bson.{BsonApi, StdApi}
use leafmask.Toolkit.Yaml.{YamlApi}
use leafmask.Toolkit.Values.{ParamValues}
use leafmask.Toolkit.Static.{validate_static}
use leafmask.Inheritance.{Params}
use leafmask.Hash.{Sha256, HashEngine}
use leafmask.Registry.{TransformerFactory, Registry, empty, register, get, instantiate}
use leafmask.Registry.Laws.{get-register}
use leafmask.Builtin.Support.{FloatApi, HexApi, RegexApi}
use leafmask.Builtin.Register.{
  number_factories, text_factories, generator_factories, hash_factory, register_each, register_all,
  with_builtins,
}
use leafmask.Builtin.Each.{
  Safe, SafeFactory, number_factories-Safe, text_factories-Safe, generator_factories-Safe,
  hash_factory-Safe,
}

module _ ⦃api : BsonApi⦄ ⦃std : StdApi⦄ ⦃yaml : YamlApi⦄ ⦃sha256 : Sha256⦄ ⦃float : FloatApi⦄
    ⦃hex : HexApi⦄ ⦃regex : RegexApi⦄ where
  -- Every factory that a registry has is safe.
  AllSafe : Registry → Type 0
  AllSafe r = (name : Text) (f : TransformerFactory) → get r name ≡ some f → SafeFactory f

  empty-AllSafe : AllSafe empty
  unfolding AllSafe get
  empty-AllSafe name f e = cc

  register-AllSafe :
      (r : Registry) (f : TransformerFactory) → AllSafe r → SafeFactory f → AllSafe (register r f)
  unfolding AllSafe
  register-AllSafe r f all safe name g e =
      let found : (if text_eq f.name name then some f else get r name) ≡ some g =
        sym (get-register r f name) ∙ e in
      elim (Bool-cases (text_eq f.name name)) [
        | inl same ↦ let is : f ≡ g = cc (rw same at found) in rw (← is) safe
        | inr other ↦ all name g (rw other at found)
      ]

  register_each-AllSafe :
      (r : Registry) (fs : List TransformerFactory)
      → AllSafe r
      → All SafeFactory fs
      → AllSafe (register_each r fs)
  register_each-AllSafe r [] all safe = all
  register_each-AllSafe r (f ∷ fs) all (s, safe) =
      register_each-AllSafe (register r f) fs (register-AllSafe r f all s) safe

  with_builtins-AllSafe : AllSafe with_builtins
  unfolding with_builtins register_all
  with_builtins-AllSafe =
      register_each-AllSafe _ generator_factories
        (register_each-AllSafe _ text_factories
          (register_each-AllSafe _ number_factories
            (register-AllSafe empty hash_factory empty-AllSafe hash_factory-Safe)
            number_factories-Safe)
          text_factories-Safe)
        generator_factories-Safe

  -- No built-in transformer panics: whatever parameters are configured for whatever name, making
  -- the transformer returns one or an error, and one that is made returns for every value and
  -- document.
  pub instantiate-Safe :
      (name : Text) (raw : Params) (engine : HashEngine)
      → Safe (instantiate with_builtins name raw engine)
  unfolding instantiate AllSafe
  instantiate-Safe name raw engine = elim (Option-cases (get with_builtins name)) [
    | inl missing ↦ rw missing tt
    | inr (f, found) ↦ rw found (built f found (validate_static f.parameters raw) refl)
  ]
    where
      built :
          (f : TransformerFactory)
          → get with_builtins name ≡ some f
          → (r : Result ParamValues) → validate_static f.parameters raw ≡ r
          → Safe (returns r >>? λ values. f.build values engine)
      built f found (err x) e = tt
      built f found (ok values) e = with_builtins-AllSafe name f found raw values engine e
