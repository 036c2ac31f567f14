-- ===== src/Restore/Exclusions.antt =====
-- restore/error_exclusions.rs: which failed inserts are tolerated.
use leafmask.Prelude.{
  Text, text_eq, text_eq_iff, text_Eq, Bool, true, false, ◌||◌, Option, none, some, List, [], ◌∷◌,
  ◌≡◌, sym, ap, ◌∙◌, ◌↔◌, ◌⊎◌, inl, inr, refl, arith, contains, contains_iff, In, if◌then◌else◌,
}
use leafmask.Prelude.Int.{ℤ, int_Eq}

pub record InsertError : Type 0 where
  pub code : Option ℤ
  pub index_name : Option Text

pub record CollectionExclusion : Type 0 where
  pub collection : Text
  pub error_codes : List ℤ
  pub index_names : List Text

pub record ErrorExclusions : Type 0 where
  pub global_error_codes : List ℤ
  pub global_index_names : List Text
  pub collections : List CollectionExclusion

abbrev pub lists_code : List ℤ → Option ℤ → Bool
lists_code codes none = false
lists_code codes (some c) = contains codes c

abbrev pub lists_index : List Text → Option Text → Bool
lists_index names none = false
lists_index names (some i) = contains names i

unfoldable pub matches_code_global : ErrorExclusions → InsertError → Bool
matches_code_global x e = lists_code x.global_error_codes e.code

unfoldable pub matches_index_global : ErrorExclusions → InsertError → Bool
matches_index_global x e = lists_index x.global_index_names e.index_name

-- The loop over the per-collection rules.
unfoldable pub excluded_in : Text → InsertError → List CollectionExclusion → Bool
excluded_in collection e [] = false
excluded_in collection e (c ∷ cs) =
    let rest = excluded_in collection e cs in
    if text_eq c.collection collection
    then if lists_code c.error_codes e.code
      then true
      else if lists_index c.index_names e.index_name
      then true
      else rest
    else rest

unfoldable pub is_excluded : ErrorExclusions → Text → InsertError → Bool
unfolding matches_code_global matches_index_global excluded_in
is_excluded x collection e =
    if matches_code_global x e || matches_index_global x e
    then true
    else excluded_in collection e x.collections

-- The code or the index of the error is listed.
abbrev pub Listed : List ℤ → List Text → InsertError → Type 0
Listed codes names e =
    ((c : ℤ) × (e.code ≡ some c) × In c codes) ⊎ ((i : Text) × (e.index_name ≡ some i) × In i names)

abbrev pub Rule : Text → InsertError → List CollectionExclusion → Type 0
Rule collection e cs =
    (c : CollectionExclusion) × In c cs
    × (c.collection ≡ collection)
    × Listed c.error_codes c.index_names e

lists_code_iff :
    (codes : List ℤ) (o : Option ℤ)
    → (lists_code codes o ≡ true) ↔ ((c : ℤ) × (o ≡ some c) × In c codes)
lists_code_iff codes none = (λ h. cc, λ (c, e, i). cc)
lists_code_iff codes (some c) = (
  λ h. (c, refl, (contains_iff codes c).0 h),
  λ (d, e, i). let same : c ≡ d = cc in (contains_iff codes c).1 (rw same i),
)

lists_index_iff :
    (names : List Text) (o : Option Text)
    → (lists_index names o ≡ true) ↔ ((i : Text) × (o ≡ some i) × In i names)
lists_index_iff names none = (λ h. cc, λ (c, e, i). cc)
lists_index_iff names (some c) = (
  λ h. (c, refl, (contains_iff names c).0 h),
  λ (d, e, i). let same : c ≡ d = cc in (contains_iff names c).1 (rw same i),
)

either_iff : (a b : Bool) → (a || b ≡ true) ↔ ((a ≡ true) ⊎ (b ≡ true))
either_iff a b = ground arith

lists_iff :
    (codes : List ℤ) (names : List Text) (e : InsertError)
    → (lists_code codes e.code || lists_index names e.index_name ≡ true) ↔ Listed codes names e
lists_iff codes names e =
    let (to, from) = either_iff (lists_code codes e.code) (lists_index names e.index_name) in
    let by_code = lists_code_iff codes e.code in
    let by_index = lists_index_iff names e.index_name in
    (
      λ h. elim (to h) [ inl a ↦ inl (by_code.0 a) | inr b ↦ inr (by_index.0 b) ],
      λ l. elim l [ inl a ↦ from (inl (by_code.1 a)) | inr b ↦ from (inr (by_index.1 b)) ],
    )

branches :
    (a b d r : Bool)
    → ((if a then (if b then true else if d then true else r) else r) ≡ true)
      ↔ (((a ≡ true) × (b || d ≡ true)) ⊎ (r ≡ true))
branches a b d r = ground arith

excluded_in_iff :
    (collection : Text) (e : InsertError) (cs : List CollectionExclusion)
    → (excluded_in collection e cs ≡ true) ↔ Rule collection e cs
unfolding excluded_in
excluded_in_iff collection e [] = (λ h. cc, λ (c, i, _, _). absurd i)
excluded_in_iff collection e (c ∷ cs) =
    let (to, from) =
      branches (text_eq c.collection collection) (lists_code c.error_codes e.code)
        (lists_index c.index_names e.index_name) (excluded_in collection e cs) in
    let below = excluded_in_iff collection e cs in
    let named = text_eq_iff c.collection collection in
    let lists = lists_iff c.error_codes c.index_names e in
    (
      λ h. elim (to h) [
        | inl (a, l) ↦ (c, inl refl, named.0 a, lists.0 l)
        | inr r ↦ let (d, i, at, l) = below.0 r in (d, inr i, at, l)
      ],
      λ (d, i, at, l). elim i [
        | inl same ↦
            from (inl (named.1 (ap (λ x. x.collection) (sym same) ∙ at), lists.1 (rw same at l)))
        | inr k ↦ from (inr (below.1 (d, k, at, l)))
      ],
    )

-- A failed insert is tolerated exactly if its code or its index is listed globally or by a rule
-- for the collection.
pub is_excluded_iff :
    (x : ErrorExclusions) (collection : Text) (e : InsertError)
    → (is_excluded x collection e ≡ true)
      ↔ (Listed x.global_error_codes x.global_index_names e ⊎ Rule collection e x.collections)
unfolding is_excluded matches_code_global matches_index_global
is_excluded_iff x collection e =
    let global = lists_iff x.global_error_codes x.global_index_names e in
    let local = excluded_in_iff collection e x.collections in
    let (to, from) =
      first_or
        (lists_code x.global_error_codes e.code || lists_index x.global_index_names e.index_name)
        (excluded_in collection e x.collections) in
    (
      λ h. elim (to h) [ inl a ↦ inl (global.0 a) | inr b ↦ inr (local.0 b) ],
      λ l. elim l [ inl a ↦ from (inl (global.1 a)) | inr b ↦ from (inr (local.1 b)) ],
    )
  where
    first_or : (a b : Bool) → ((if a then true else b) ≡ true) ↔ ((a ≡ true) ⊎ (b ≡ true))
    first_or a b = ground arith
