-- ===== src/Dynamic/Typed.antt =====
-- The types of the values that a transformer is built from.
use leafmask.Prelude.{
  Text, text_eq, text_eq_iff, text_eq_refl, text_Eq, true, Option, none, some, List, [], ◌∷◌, Map,
  ap, ◌≡◌, refl, sym, ap, inl, inr, In, All, Bool-cases, Map, arith,
}
use leafmask.Prelude.Result.{ok, >>=-eq-ok, parameter, ok_or}
use leafmask.Bson.{Bson, Document, BsonApi, StdApi}
use leafmask.Inheritance.Configs.{DynSource}
use leafmask.Toolkit.Yaml.{Yaml, YamlApi}
use leafmask.Toolkit.Params.{ParamDefinition, param_get}
use leafmask.Toolkit.Values.{ParamValues, no_values, get, insert}
use leafmask.Toolkit.Kinds.{has_kind, bson_to_typed-has_kind, yaml_to_typed-has_kind}
use leafmask.Toolkit.Static.{static_value, insert_some, validate_into, validate_static}
use leafmask.Toolkit.Declared.{get-insert, Given, given, defaulted, static_value-Given}
use leafmask.Dynamic.{
  DynamicBinding, DynamicParams, declared, bind_all, from_config, bound_value, layer, resolve,
}
use leafmask.Dynamic.Layers.{bound_value-eq-ok}

-- The default, if there is one, is of the declared type.
abbrev pub DefaultTyped : ParamDefinition → Type 0
DefaultTyped def = elim def.default [ none ↦ Unit | some d ↦ has_kind def.kind d ≡ true ]

-- A definition of the parameter, whose type the value has.
abbrev pub DeclaredAs : List ParamDefinition → Text → Bson → Type 0
DeclaredAs defs n v =
    (def : ParamDefinition) × In def defs
    × (text_eq def.name n ≡ true)
    × (has_kind def.kind v ≡ true)

abbrev pub Typed : List ParamDefinition → ParamValues → Type 0
Typed defs values = (n : Text) (v : Bson) → get values n ≡ some v → DeclaredAs defs n v

-- The parameter of the binding is declared with the binding's type.
BindingTyped : List ParamDefinition → DynamicBinding → Type 0
BindingTyped defs b =
    (def : ParamDefinition) × In def defs × (text_eq def.name b.param ≡ true) × (def.kind ≡ b.kind)

insert-Typed :
    (defs : List ParamDefinition) (values : ParamValues) (k : Text) (w : Bson)
    → Typed defs values
    → DeclaredAs defs k w
    → Typed defs (insert values k w)
insert-Typed defs values k w typed decl n v e = elim (Bool-cases (text_eq k n)) [
  | inl same ↦
      let key : k ≡ n = (text_eq_iff k n).0 same in
      let value : w ≡ v = ground (arith, get-insert values k w n) in rw (← key, ← value) decl
  | inr other ↦ typed n v (ground (arith, get-insert values k w n))
]

find-In :
    (defs : List ParamDefinition) (n : Text) (def : ParamDefinition)
    → declared defs n ≡ some def
    → In def defs × (text_eq def.name n ≡ true)
find-In [] n def e = cc
find-In (d ∷ defs) n def e = elim (Bool-cases (text_eq d.name n)) [
  | inl t ↦ let same : d ≡ def = cc (rw t at e) in (inl (sym same), rw (← same) t)
  | inr f ↦ let (m, t) = find-In defs n def (rw f at e) in (inr m, t)
]

bind_all-BindingTyped :
    (cfg : Map DynSource) (defs : List ParamDefinition) (bs : List DynamicBinding)
    → bind_all cfg defs ≡ ok bs
    → All (BindingTyped defs) bs
unfolding bind_all BindingTyped
bind_all-BindingTyped [] defs bs e = let same : [] ≡ bs = cc in rw (← same) tt
bind_all-BindingTyped ((param, source) ∷ cfg) defs bs e =
    let (def, f, g) = >>=-eq-ok (ok_or (declared defs param) parameter) _ e in
    let (rest, p, q) = >>=-eq-ok (bind_all cfg defs) _ g in
    let (m, t) = find-In defs param def (from_ok (declared defs param) f) in
    let same : record { param = param; field = source.field; kind = def.kind } ∷ rest ≡ bs = cc in
    rw (← same) ((def, m, t, refl), bind_all-BindingTyped cfg defs rest p)
  where
    from_ok :
        (o : Option ParamDefinition) {d : ParamDefinition} → ok_or o parameter ≡ ok d → o ≡ some d
    from_ok none h = cc
    from_ok (some x) h = cc

module _ ⦃api : BsonApi⦄ ⦃std : StdApi⦄ where
  layer-Typed :
      (defs : List ParamDefinition) (bs : List DynamicBinding) (doc : Document)
      (base values : ParamValues)
      → All (BindingTyped defs) bs
      → Typed defs base
      → layer bs doc base ≡ ok values
      → Typed defs values
  unfolding layer BindingTyped
  layer-Typed defs [] doc base values bound typed e =
      let same : base ≡ values = cc in rw (← same) typed
  layer-Typed defs (b ∷ bs) doc base values ((def, m, t, k), bound) typed e =
      let (v, f, g) = >>=-eq-ok (bound_value b doc) _ e in
      let (raw, found, cast) = bound_value-eq-ok b doc v f in
      let fits : has_kind def.kind v ≡ true = rw k (bson_to_typed-has_kind b.kind raw v cast) in
      layer-Typed defs bs doc (insert base b.param v) values bound
        (insert-Typed defs base b.param v typed (def, m, t, fits)) g

  module _ ⦃yaml : YamlApi⦄ (provided : List (Text × Yaml)) (all : List ParamDefinition) where
    Given-DeclaredAs :
        (def : ParamDefinition) (v : Bson)
        → In def all
        → DefaultTyped def
        → Given provided def (some v)
        → DeclaredAs all def.name v
    Given-DeclaredAs def v m default (given {raw} e f) =
        (def, m, text_eq_refl def.name, yaml_to_typed-has_kind def.kind raw v f)
    Given-DeclaredAs def v m default (defaulted e f) =
        (def, m, text_eq_refl def.name, rw f at default)

    validate_into-Typed :
        (defs : List ParamDefinition) (out values : ParamValues)
        → All (λ d. In d all × DefaultTyped d) defs
        → Typed all out
        → validate_into defs provided out ≡ ok values
        → Typed all values
    unfolding validate_into
    validate_into-Typed [] out values fine typed e =
        let same : out ≡ values = cc in rw (← same) typed
    validate_into-Typed (def ∷ defs) out values ((m, default), fine) typed e =
        let (v, f, g) = >>=-eq-ok (static_value def (param_get provided def.name)) _ e in
        validate_into-Typed defs (insert_some out def.name v) values fine
          (stays v (static_value-Given provided def (param_get provided def.name) v refl f)) g
      where
        stays : (v : Option Bson) → Given provided def v → Typed all (insert_some out def.name v)
        stays none g = typed
        stays (some b) g =
            insert-Typed all out def.name b typed (Given-DeclaredAs def b m default g)

    -- A transformer with dynamic parameters is built from values of the declared types only: each
    -- value that is there once the configured values are validated and the dynamic ones resolved
    -- is of the type of a definition with the parameter's name, if the defaults of the definitions
    -- are.
    pub resolve-Typed :
        (cfg : Map DynSource) (self : DynamicParams) (doc : Document) (base values : ParamValues)
        → All DefaultTyped all
        → validate_static all provided ≡ ok base
        → from_config cfg all ≡ ok self
        → resolve self doc base ≡ ok values
        → (n : Text) (v : Bson) → get values n ≡ some v
        → DeclaredAs all n v
    unfolding validate_static from_config resolve get
    resolve-Typed cfg self doc base values defaults e f g =
        let (bs, p, q) = >>=-eq-ok (bind_all cfg all) _ f in
        let same : bs ≡ self.bindings = cc (ap (λ r. r) q) in
        layer-Typed all self.bindings doc base values
          (rw (← same) (bind_all-BindingTyped cfg all bs p))
          (validate_into-Typed all no_values base (each all (λ d m. m) defaults) no_values-Typed e)
          g
      where
        each :
            (defs : List ParamDefinition)
            → ((d : ParamDefinition) → In d defs → In d all)
            → All DefaultTyped defs
            → All (λ d. In d all × DefaultTyped d) defs
        each [] sub fine = tt
        each (d ∷ defs) sub (h, fine) =
            ((sub d (inl refl), h), each defs (λ x m. sub x (inr m)) fine)

        no_values-Typed : Typed all no_values
        no_values-Typed n v h = cc
