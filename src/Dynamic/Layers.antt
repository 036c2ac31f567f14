-- ===== src/Dynamic/Layers.antt =====
-- The values that dynamic parameters are resolved to.
use leafmask.Prelude.{
  Text, text_eq, text_eq_iff, text_eq_sym, text_Eq, false, Option, none, some, List, [], ◌∷◌, ◌≡◌,
  refl, ◌∙◌, ◌↔◌, ◌⊎◌, inl, inr, In, All, split_on, contains_iff, arith,
}
use leafmask.Prelude.Result.{ok, ok_or, map_err, ◌>>=◌, >>=-eq-ok, Result-cases, parameter}
use leafmask.Bson.{Bson, Document, BsonApi, StdApi}
use leafmask.FieldPath.{dot, get_path}
use leafmask.Toolkit.Values.{ParamValues, get, insert}
use leafmask.Toolkit.Cast.{bson_to_typed}
use leafmask.Toolkit.Declared.{get-insert}
use leafmask.Dynamic.{
  DynamicBinding, DynamicParams, first_or, known_all, validate_fields, bound_value, layer, resolve,
}

known_all_iff :
    (bs : List DynamicBinding) (known : List Text)
    → (known_all bs known ≡ ok tt)
      ↔ All (λ b. In (first_or (split_on dot b.field) b.field) known ⊎ In b.field known) bs
unfolding known_all
known_all_iff [] known = (λ _. tt, λ _. refl)
known_all_iff (b ∷ bs) known = ground (
  arith,
  known_all_iff bs known,
  contains_iff known (first_or (split_on dot b.field) b.field),
  contains_iff known b.field,
)

-- The bindings of a transformer are accepted exactly if each one's field, or the first part of
-- its path, is a known field of the collection.
pub validate_fields_iff :
    (self : DynamicParams) (known : List Text)
    → (validate_fields self known ≡ ok tt)
      ↔ All
          (λ b. In (first_or (split_on dot b.field) b.field) known ⊎ In b.field known)
          self.bindings
unfolding validate_fields
validate_fields_iff self known = known_all_iff self.bindings known

-- No two bindings are of the same parameter.
abbrev pub Single : List DynamicBinding → Type 0
Single [] = Unit
Single (b ∷ bs) = All (λ c. text_eq b.param c.param ≡ false) bs × Single bs

module _ ⦃api : BsonApi⦄ ⦃std : StdApi⦄ where
  -- The parameter has the value of its field in the document, cast to its type.
  abbrev pub Bound : Document → ParamValues → DynamicBinding → Type 0
  Bound doc values b =
      (raw : Bson) × (v : Bson) × (get_path doc b.field ≡ some raw)
      × (bson_to_typed raw b.kind ≡ ok v)
      × (get values b.param ≡ some v)

  pub bound_value-eq-ok :
      (b : DynamicBinding) (doc : Document) (v : Bson)
      → bound_value b doc ≡ ok v
      → (raw : Bson) × (get_path doc b.field ≡ some raw) × (bson_to_typed raw b.kind ≡ ok v)
  unfolding bound_value
  bound_value-eq-ok b doc v e = found (get_path doc b.field) refl e
    where
      found :
          (o : Option Bson)
          → get_path doc b.field ≡ o
          → (ok_or o parameter >>= λ raw. map_err (bson_to_typed raw b.kind) parameter) ≡ ok v
          → (raw : Bson) × (get_path doc b.field ≡ some raw) × (bson_to_typed raw b.kind ≡ ok v)
      found none p h = cc
      found (some raw) p h = elim (Result-cases (bson_to_typed raw b.kind)) [
        | inl (w, f) ↦ (raw, p, f ∙ rw f at h)
        | inr (x, f) ↦ cc (rw f at h)
      ]

  layer-other :
      (bs : List DynamicBinding) (doc : Document) (base values : ParamValues) (n : Text)
      → layer bs doc base ≡ ok values
      → All (λ b. text_eq n b.param ≡ false) bs
      → get values n ≡ get base n
  unfolding layer
  layer-other [] doc base values n e apart = let same : base ≡ values = cc in rw (← same)
  layer-other (b ∷ bs) doc base values n e (h, apart) =
      let (v, _, f) = >>=-eq-ok (bound_value b doc) _ e in
      layer-other bs doc (insert base b.param v) values n f apart
      ∙ ground (arith, get-insert base b.param v n, text_eq_sym n b.param)

  layer-Bound :
      (bs : List DynamicBinding) (doc : Document) (base values : ParamValues)
      → Single bs
      → layer bs doc base ≡ ok values
      → All (Bound doc values) bs
  unfolding layer
  layer-Bound [] doc base values single e = tt
  layer-Bound (b ∷ bs) doc base values (apart, single) e =
      let (v, f, g) = >>=-eq-ok (bound_value b doc) _ e in
      let (raw, found, cast) = bound_value-eq-ok b doc v f in
      let kept = layer-other bs doc (insert base b.param v) values b.param g apart in
      (
        (
          raw,
          v,
          found,
          cast,
          ground (arith, get-insert base b.param v b.param, kept, text_eq_iff b.param b.param),
        ),
        layer-Bound bs doc (insert base b.param v) values single g,
      )

  -- Dynamic parameters of distinct names, once resolved, each have the value that the document
  -- has at their field, cast to the parameter's type; every other parameter keeps its static
  -- value.
  pub resolve-Bound :
      (self : DynamicParams) (doc : Document) (base values : ParamValues)
      → Single self.bindings
      → resolve self doc base ≡ ok values
      → All (Bound doc values) self.bindings
        × ((n : Text)
            → All (λ b. text_eq n b.param ≡ false) self.bindings
            → get values n ≡ get base n)
  unfolding resolve
  resolve-Bound self doc base values single e = (
    layer-Bound self.bindings doc base values single e,
    λ n apart. layer-other self.bindings doc base values n e apart,
  )
