-- ===== src/Dump/Stored.antt =====
-- Where the data and the structure of a collection are stored.
use mathlib.Core.List.{reverse, reverse-append, reverse-reverse, append_assoc}
use leafmask.Prelude.{
  ℕ, Text, codes, Bool, true, false, [], ◌∷◌, ◌++◌, ◌≡◌, ◌↔◌, refl, sym, ap, ◌∙◌, arith,
}
use leafmask.Dump.Storage.{data_path, data_ext, meta_path}

append-cancel_left : (p s t : Text) → p ++ s ≡ p ++ t → s ≡ t
append-cancel_left [] s t e = e
append-cancel_left (c ∷ p) s t e = append-cancel_left p s t cc

append-cancel_right : (s t p : Text) → s ++ p ≡ t ++ p → s ≡ t
append-cancel_right s t p e =
    let back : reverse p ++ reverse s ≡ reverse p ++ reverse t =
      sym (reverse-append s p) ∙ (ap reverse e ∙ reverse-append t p) in
    let same : reverse s ≡ reverse t =
      append-cancel_left (reverse p) (reverse s) (reverse t) back in
    sym (reverse-reverse s) ∙ (ap reverse same ∙ reverse-reverse t)

abbrev head_of : Text → ℕ
head_of [] = 0
head_of (c ∷ s) = c

-- What two equal texts end in, read from behind.
behind : (s t p q : Text) → s ++ p ≡ t ++ q → reverse p ++ reverse s ≡ reverse q ++ reverse t
behind s t p q e = sym (reverse-append s p) ∙ (ap reverse e ∙ reverse-append t q)

-- The path of a collection's data is that of another collection's structure exactly if it is not
-- compressed and the first collection has the name of the second with `.meta` added.
pub data_path-eq-meta_path_iff :
    (db collection other : Text) (gzip : Bool)
    → (data_path db collection gzip ≡ meta_path db other)
      ↔ (gzip ≡ false) × (collection ≡ other ++ codes ".meta")
data_path-eq-meta_path_iff db collection other gzip = (
  λ e. names gzip (
      append-cancel_left (codes "/") _ _
        (append-cancel_left db _ _ (append-cancel_left (codes "data/") _ _ e))),
  λ (plain, name).
      rw (plain, name)
        (ap (λ r. codes "data/" ++ (db ++ (codes "/" ++ r)))
          (append_assoc other (codes ".meta") (codes ".bson"))),
)
  where
    names :
        (gz : Bool)
        → collection ++ data_ext gz ≡ other ++ codes ".meta.bson"
        → (gz ≡ false) × (collection ≡ other ++ codes ".meta")
    names true e = absurd (
        omega
          (arith, ap head_of (behind collection other (codes ".bson.gz") (codes ".meta.bson") e)))
    names false e = (
      refl,
      append-cancel_right collection (other ++ codes ".meta") (codes ".bson")
          (e ∙ sym (append_assoc other (codes ".meta") (codes ".bson"))),
    )
