-- ===== src/Toolkit/Declared.antt =====
-- What `validate_static` accepts, and the values that it returns.
use leafmask.Prelude.{
  Text, text_eq, text_eq_iff, text_eq_sym, false, Option, none, some, List, [], ◌∷◌, ◌≡◌, refl, ◌∙◌,
  ◌↔◌, inl, inr, All, Bool-cases, if◌then◌else◌, at_key-put_key, arith,
}
use leafmask.Prelude.Result.{ok, err, >>=-eq-ok, Result-cases, parameter}
use leafmask.Bson.{Bson, BsonApi, StdApi}
use leafmask.Toolkit.Yaml.{Yaml, YamlApi}
use leafmask.Toolkit.Params.{ParamDefinition, param_get}
use leafmask.Toolkit.Values.{ParamValues, no_values, get, insert}
use leafmask.Toolkit.Cast.{yaml_to_typed}
use leafmask.Toolkit.Static.{static_value, insert_some, validate_into, validate_static}

pub get-insert :
    (self : ParamValues) (k : Text) (v : Bson) (j : Text)
    → get (insert self k v) j ≡ (if text_eq k j then some v else get self j)
unfolding get insert
get-insert self k v j = at_key-put_key self.map k v j

-- No two definitions have the same name.
abbrev pub Distinct : List ParamDefinition → Type 0
Distinct [] = Unit
Distinct (def ∷ defs) = All (λ d. text_eq def.name d.name ≡ false) defs × Distinct defs

Fresh : ParamValues → List ParamDefinition → Type 0
Fresh out defs = All (λ d. get out d.name ≡ none) defs

get-insert_some :
    (out : ParamValues) (k : Text) (v : Option Bson)
    → get out k ≡ none
    → get (insert_some out k v) k ≡ v
get-insert_some out k none h = h
get-insert_some out k (some b) h = ground (arith, get-insert out k b k, text_eq_iff k k)

get-insert_some_other :
    (out : ParamValues) (k : Text) (v : Option Bson) (n : Text)
    → text_eq k n ≡ false
    → get (insert_some out k v) n ≡ get out n
get-insert_some_other out k none n h = refl
get-insert_some_other out k (some b) n h = ground (arith, get-insert out k b n)

Fresh-insert_some :
    (out : ParamValues) (k : Text) (v : Option Bson) (defs : List ParamDefinition)
    → All (λ d. text_eq k d.name ≡ false) defs
    → Fresh out defs
    → Fresh (insert_some out k v) defs
unfolding Fresh
Fresh-insert_some out k v [] apart fresh = tt
Fresh-insert_some out k v (def ∷ defs) (h, apart) (f, fresh) =
    (get-insert_some_other out k v def.name h ∙ f, Fresh-insert_some out k v defs apart fresh)

Fresh-no_values : (defs : List ParamDefinition) → Fresh no_values defs
unfolding Fresh get
Fresh-no_values [] = tt
Fresh-no_values (def ∷ defs) = (refl, Fresh-no_values defs)

module _ ⦃api : BsonApi⦄ ⦃std : StdApi⦄ ⦃yaml : YamlApi⦄ (provided : List (Text × Yaml)) where
  -- The value of a parameter: the one given, cast to its type, or else its default, or else none
  -- if it may be left out.
  pub data Given (def : ParamDefinition) : Option Bson → Type 0 where
    given :
        {raw : Yaml} {b : Bson}
        → param_get provided def.name ≡ some raw
        → yaml_to_typed raw def.kind ≡ ok b
        → Given def (some b)
    defaulted :
        {d : Bson} → param_get provided def.name ≡ none → def.default ≡ some d → Given def (some d)
    left_out :
        param_get provided def.name ≡ none
        → def.default ≡ none
        → def.required ≡ false
        → Given def none

  default_value-Given :
      (def : ParamDefinition) (default : Option Bson) (v : Option Bson)
      → param_get provided def.name ≡ none
      → def.default ≡ default
      → elim default [
        | some d ↦ ok (some d)
        | none ↦ if def.required then err parameter else ok none
      ]
        ≡ ok v
      → Given def v
  default_value-Given def (some d) v absent e f =
      let same : some d ≡ v = cc in rw (← same) (defaulted absent e)
  default_value-Given def none v absent e f = elim (Bool-cases def.required) [
    | inl t ↦ cc (rw t at f)
    | inr t ↦ let same : none ≡ v = cc (rw t at f) in rw (← same) (left_out absent e t)
  ]

  pub static_value-Given :
      (def : ParamDefinition) (value : Option Yaml) (v : Option Bson)
      → param_get provided def.name ≡ value
      → static_value def value ≡ ok v
      → Given def v
  unfolding static_value
  static_value-Given def none v e f = default_value-Given def def.default v e refl f
  static_value-Given def (some raw) v e f = elim (Result-cases (yaml_to_typed raw def.kind)) [
    | inl (b, g) ↦ let same : some b ≡ v = cc (rw g at f) in rw (← same) (given e g)
    | inr (x, g) ↦ cc (rw g at f)
  ]

  Given-static_value :
      (def : ParamDefinition) (v : Option Bson)
      → Given def v
      → static_value def (param_get provided def.name) ≡ ok v
  unfolding static_value
  Given-static_value def v (given e f) = rw (e, f)
  Given-static_value def v (defaulted e f) = rw (e, f)
  Given-static_value def v (left_out e f g) = rw (e, f, g)

  validate_into-other :
      (defs : List ParamDefinition) (out values : ParamValues) (n : Text)
      → validate_into defs provided out ≡ ok values
      → All (λ d. text_eq n d.name ≡ false) defs
      → get values n ≡ get out n
  unfolding validate_into
  validate_into-other [] out values n e apart = let same : out ≡ values = cc in rw (← same)
  validate_into-other (def ∷ defs) out values n e (h, apart) =
      let (v, _, f) = >>=-eq-ok (static_value def (param_get provided def.name)) _ e in
      validate_into-other defs _ values n f apart
      ∙ get-insert_some_other out def.name v n (text_eq_sym def.name n ∙ h)

  validate_into-Given :
      (defs : List ParamDefinition) (out values : ParamValues)
      → validate_into defs provided out ≡ ok values
      → Distinct defs
      → Fresh out defs
      → All (λ def. Given def (get values def.name)) defs
  unfolding validate_into Fresh
  validate_into-Given [] out values e distinct fresh = tt
  validate_into-Given (def ∷ defs) out values e (apart, distinct) fresh =
      let (v, f, g) = >>=-eq-ok (static_value def (param_get provided def.name)) _ e in
      let was : get out def.name ≡ none = fresh.0 in
      let next = insert_some out def.name v in
      let kept : get values def.name ≡ v =
        validate_into-other defs next values def.name g apart
        ∙ get-insert_some out def.name v was in
      (
        rw kept (static_value-Given def (param_get provided def.name) v refl f),
        validate_into-Given defs next values g distinct
            (Fresh-insert_some out def.name v defs apart fresh.1),
      )

  -- If no two definitions have the same name, the values that a validation returns are, for each
  -- definition, the given value cast to the declared type, or else the default, or else none where
  -- the parameter may be left out; and no other parameter has a value.
  pub validate_static-Given :
      (defs : List ParamDefinition) (values : ParamValues)
      → Distinct defs
      → validate_static defs provided ≡ ok values
      → All (λ def. Given def (get values def.name)) defs
        × ((n : Text) → All (λ d. text_eq n d.name ≡ false) defs → get values n ≡ none)
  unfolding validate_static get
  validate_static-Given defs values distinct e = (
    validate_into-Given defs no_values values e distinct (Fresh-no_values defs),
    λ n apart. validate_into-other defs no_values values n e apart,
  )

  validate_into-ok :
      (defs : List ParamDefinition) (out : ParamValues)
      → All (λ def. (v : Option Bson) × Given def v) defs
      → (values : ParamValues) × (validate_into defs provided out ≡ ok values)
  unfolding validate_into
  validate_into-ok [] out all = (out, refl)
  validate_into-ok (def ∷ defs) out ((v, g), rest) =
      let (values, e) = validate_into-ok defs (insert_some out def.name v) rest in
      (values, rw (Given-static_value def v g) e)

  validate_into-All :
      (defs : List ParamDefinition) (out values : ParamValues)
      → validate_into defs provided out ≡ ok values
      → All (λ def. (v : Option Bson) × Given def v) defs
  unfolding validate_into
  validate_into-All [] out values e = tt
  validate_into-All (def ∷ defs) out values e =
      let (v, f, g) = >>=-eq-ok (static_value def (param_get provided def.name)) _ e in
      (
        (v, static_value-Given def (param_get provided def.name) v refl f),
        validate_into-All defs (insert_some out def.name v) values g,
      )

  -- The configured parameters are accepted exactly if every declared one is given in its type, or
  -- is not given and has a default, or is not given and may be left out.
  pub validate_static_iff :
      (defs : List ParamDefinition)
      → ((values : ParamValues) × (validate_static defs provided ≡ ok values))
        ↔ All (λ def. (v : Option Bson) × Given def v) defs
  unfolding validate_static
  validate_static_iff defs =
      (λ h. validate_into-All defs no_values h.0 h.1, λ all. validate_into-ok defs no_values all)
