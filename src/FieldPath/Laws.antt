-- ===== src/FieldPath/Laws.antt =====
-- What `get_path` reads after `set_path`, and that the re-joined path of the source loses nothing.
use leafmask.Prelude.{
  ℕ, zero, suc, ◌<◌, Text, text_eq_iff, Option, some, List, [], ◌∷◌, ◌≡◌, ◌≢◌, refl, sym, ap, ◌∙◌,
  ◌⊎◌, inl, inr, arith, length, split_on, join, unwrap_or, All, Free, Option-cases,
}
use leafmask.Prelude.Chars.Split.{
  split_on-Free, split_on-join, join-split_on, length-split_on, length-join-rest,
}
use leafmask.Bson.{Bson, Document, BsonApi, as_document, document}
use leafmask.FieldPath.{
  dot, set_at, descend, get_parts, get_path, child_of, set_path_fuel, set_path, set_parts,
}

-- Neither path is the beginning of the other.
abbrev pub Diverge : List Text → List Text → Type 0
Diverge (p ∷ ps) (q ∷ qs) = (p ≢ q) ⊎ ((p ≡ q) × Diverge ps qs)
Diverge _ _ = ⊥

module _ ⦃api : BsonApi⦄ where
  set_at-eq :
      (again : Document → Text → Option Document) (value : Bson) (doc : Document) (ps : List Text)
      → All (Free dot) ps
      → 0 < length ps
      → ((d : Document) (rest : Text)
          → length rest < length (join (dot ∷ []) ps)
          → again d rest ≡ some (set_parts d (split_on dot rest) value))
      → set_at again doc ps value ≡ some (set_parts doc ps value)
  unfolding set_at set_parts
  set_at-eq again value doc [] free h ih = absurd (omega arith)
  set_at-eq again value doc (p ∷ []) free h ih = refl
  set_at-eq again value doc (p ∷ q ∷ ps) free h ih =
      let child = child_of (api.get doc p) in
      rw (
        ih child (join (dot ∷ []) (q ∷ ps)) (length-join-rest dot p q ps),
        split_on-join dot q ps free.1,
      )

  set_path_fuel-eq :
      (fuel : ℕ) (doc : Document) (path : Text) (value : Bson)
      → length path < fuel
      → set_path_fuel fuel doc path value ≡ some (set_parts doc (split_on dot path) value)
  unfolding set_path_fuel
  set_path_fuel-eq zero doc path value h = elim h [ ]
  set_path_fuel-eq (suc fuel) doc path value h =
      set_at-eq (λ d rest. set_path_fuel fuel d rest value) value doc (split_on dot path)
        (split_on-Free dot path) (length-split_on dot path)
        (λ d rest short.
          set_path_fuel-eq fuel d rest value
            (omega (arith, ap (length {0}) (join-split_on dot path), h, short)))

  -- Joining and splitting the rest of the path at each level, as the source does, sets the field
  -- that the parts of the path name.
  pub set_path-eq-set_parts :
      (doc : Document) (path : Text) (value : Bson)
      → set_path doc path value ≡ set_parts doc (split_on dot path) value
  unfolding set_path
  set_path-eq-set_parts doc path value =
      ap (λ o. unwrap_or o doc) (set_path_fuel-eq (suc (length path)) doc path value (omega arith))

  get-set_parts_ne :
      (doc : Document) (ps : List Text) (value : Bson) (p q : Text)
      → p ≢ q
      → api.get (set_parts doc (p ∷ ps) value) q ≡ api.get doc q
  unfolding set_parts
  get-set_parts_ne doc [] value p q ne =
      ground (arith, api.get-insert doc p value q, text_eq_iff p q)
  get-set_parts_ne doc (r ∷ ps) value p q ne = ground (
    arith,
    api.get-insert doc p (document (set_parts (child_of (api.get doc p)) (r ∷ ps) value)) q,
    text_eq_iff p q,
  )

  descend-document :
      (d : Document) (q : Text) (qs : List Text)
      → descend (document d) (q ∷ qs) ≡ get_parts d (q ∷ qs)
  unfolding descend get_parts
  descend-document d q qs = ground arith

  get-set_parts_self :
      (doc : Document) (p : Text) (ps : List Text) (value : Bson)
      → get_parts (set_parts doc (p ∷ ps) value) (p ∷ ps) ≡ some value
  unfolding get_parts set_parts
  get-set_parts_self doc p [] value = ground (arith, api.get-insert doc p value p, text_eq_iff p p)
  get-set_parts_self doc p (q ∷ ps) value =
      let child = set_parts (child_of (api.get doc p)) (q ∷ ps) value in
      ground (
        arith,
        api.get-insert doc p (document child) p,
        text_eq_iff p p,
        descend-document child q ps,
        get-set_parts_self (child_of (api.get doc p)) q ps value,
      )

  descend-child :
      (v : Bson) (q : Text) (qs : List Text)
      → descend v (q ∷ qs) ≡ get_parts (child_of (some v)) (q ∷ qs)
  unfolding descend get_parts
  descend-child v q qs = elim (Option-cases (as_document v)) [
    | inl e ↦ rw (e, descend) (rw api.get-new)
    | inr (d, e) ↦ rw (e, descend) (ground arith)
  ]

  -- Reading below a field is reading the embedded document there, an empty one if there is none.
  get_parts-child :
      (doc : Document) (p q : Text) (qs : List Text)
      → get_parts doc (p ∷ q ∷ qs) ≡ get_parts (child_of (api.get doc p)) (q ∷ qs)
  unfolding get_parts
  get_parts-child doc p q qs = elim (Option-cases (api.get doc p)) [
    | inl e ↦ rw e (rw api.get-new)
    | inr (v, e) ↦ rw e (descend-child v q qs)
  ]

  get_parts-insert_self :
      (doc child : Document) (p q : Text) (qs : List Text)
      → get_parts (api.insert doc p (document child)) (p ∷ q ∷ qs) ≡ get_parts child (q ∷ qs)
  get_parts-insert_self doc child p q qs =
      get_parts-child (api.insert doc p (document child)) p q qs
      ∙ ground (arith, api.get-insert doc p (document child) p, text_eq_iff p p)

  diverge_below :
      (doc : Document) (q r : Text) (ps : List Text) (t : Text) (qs : List Text) (value : Bson)
      → get_parts (set_parts (child_of (api.get doc q)) (r ∷ ps) value) (t ∷ qs)
        ≡ get_parts (child_of (api.get doc q)) (t ∷ qs)
      → get_parts (set_parts doc (q ∷ r ∷ ps) value) (q ∷ t ∷ qs) ≡ get_parts doc (q ∷ t ∷ qs)
  unfolding set_parts
  diverge_below doc q r ps t qs value ih =
      get_parts-insert_self doc (set_parts (child_of (api.get doc q)) (r ∷ ps) value) q t qs
      ∙ ih
      ∙ sym (get_parts-child doc q t qs)

  get-set_parts-Diverge :
      (doc : Document) (ps qs : List Text) (value : Bson)
      → Diverge ps qs
      → get_parts (set_parts doc ps value) qs ≡ get_parts doc qs
  get-set_parts-Diverge doc [] qs value h = absurd h
  get-set_parts-Diverge doc (p ∷ ps) [] value h = absurd h
  get-set_parts-Diverge doc (p ∷ ps) (q ∷ qs) value (inl ne) =
      unfold get_parts in rw (get-set_parts_ne doc ps value p q ne)
  get-set_parts-Diverge doc (p ∷ []) (q ∷ qs) value (inr (e, h)) = absurd h
  get-set_parts-Diverge doc (p ∷ r ∷ ps) (q ∷ []) value (inr (e, h)) = absurd h
  get-set_parts-Diverge doc (p ∷ r ∷ ps) (q ∷ t ∷ qs) value (inr (e, h)) = rw e (
      diverge_below doc q r ps t qs value
        (get-set_parts-Diverge (child_of (api.get doc q)) (r ∷ ps) (t ∷ qs) value h))

  -- After `set_path` the path reads the new value.
  pub get_path-set_path_self :
      (doc : Document) (path : Text) (value : Bson)
      → get_path (set_path doc path value) path ≡ some value
  unfolding get_path
  get_path-set_path_self doc path value =
      rw set_path-eq-set_parts (self (split_on dot path) (length-split_on dot path))
    where
      self : (ps : List Text) → 0 < length ps → get_parts (set_parts doc ps value) ps ≡ some value
      self [] h = absurd (omega arith)
      self (p ∷ ps) h = get-set_parts_self doc p ps value

  -- `set_path` leaves the value at every other path, unless one path is the beginning of the
  -- other.
  pub get_path-set_path-Diverge :
      (doc : Document) (path other : Text) (value : Bson)
      → Diverge (split_on dot path) (split_on dot other)
      → get_path (set_path doc path value) other ≡ get_path doc other
  unfolding get_path
  get_path-set_path-Diverge doc path other value h =
      rw set_path-eq-set_parts
        (get-set_parts-Diverge doc (split_on dot path) (split_on dot other) value h)
