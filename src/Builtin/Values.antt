-- ===== src/Builtin/Values.antt =====
-- The transformers of texts, and those that make a value of a kind of their own.
use leafmask.Prelude.{
  ℕ, zero, suc, ◌+◌, ◌/◌, Text, codes, Option, none, some, List, [], ◌∷◌, ◌++◌, length, unwrap_or,
}
use leafmask.Prelude.Int.{ℤ, pos, negsuc, pos_part}
use leafmask.Prelude.Result.{transform, Result, ok, ok_or, Run, returns, then_run, unwrap, ◌>>?◌}
use leafmask.Bson.{Bson, Document, BsonApi, StdApi, null, string, binary, object_id, document}
use leafmask.Toolkit.Values.{ParamValues, get, get_str, get_i64, as_str}
use leafmask.Toolkit.Cast.{to_hashable_bytes, generic}
use leafmask.Hash.{Sha256, HashEngine, hash_u64, index}
use leafmask.Apply.{Transformer}
use leafmask.Builtin.Support.{
  HexApi, RegexApi, template_pattern, slice_to, at_index, to_array, lowercase, repeat, hex_text,
  derived,
}

abbrev pub first_names : List Text
first_names =
    codes "Alex"
    ∷ codes "Blake"
    ∷ codes "Casey"
    ∷ codes "Devin"
    ∷ codes "Erin"
    ∷ codes "Frankie"
    ∷ codes "Gale"
    ∷ codes "Harper"
    ∷ codes "Ira"
    ∷ codes "Jamie"
    ∷ []

abbrev pub last_names : List Text
last_names =
    codes "Ash"
    ∷ codes "Brooks"
    ∷ codes "Cole"
    ∷ codes "Diaz"
    ∷ codes "Eng"
    ∷ codes "Ford"
    ∷ codes "Green"
    ∷ codes "Hale"
    ∷ codes "Ibarra"
    ∷ codes "Jones"
    ∷ []

abbrev pub companies : List Text
companies =
    codes "Acme"
    ∷ codes "Globex"
    ∷ codes "Initech"
    ∷ codes "Umbrella"
    ∷ codes "Hooli"
    ∷ codes "Soylent"
    ∷ []

-- `.max(1) as usize` and `.max(0) as usize`
abbrev pub at_least_one : ℤ → ℕ
at_least_one (pos zero) = 1
at_least_one (pos (suc n)) = suc n
at_least_one (negsuc n) = 1

abbrev pub length_name : Text
length_name = codes "length"

module _ ⦃std : StdApi⦄ where
  abbrev pub length_of : ParamValues → ℤ
  length_of p = unwrap_or (get_i64 p length_name) (pos 16)

-- The first character of the mask.
abbrev pub mask_char : Text → ℕ
mask_char [] = b'*'
mask_char (c ∷ s) = c

unfoldable pub masking : ℕ → Transformer
masking ch v doc = returns (ok (string (repeat ch (length (unwrap_or (as_str v) [])))))

unfoldable pub build_masking : ParamValues → HashEngine → Run (Result Transformer)
build_masking p engine =
    returns (ok (masking (mask_char (unwrap_or (get_str p (codes "char")) (codes "*")))))

unfoldable pub build_replace : ParamValues → HashEngine → Run (Result Transformer)
build_replace p engine =
    let value = unwrap_or (get p (codes "value")) null in returns (ok (λ v doc. returns (ok value)))

unfoldable pub build_set_null : ParamValues → HashEngine → Run (Result Transformer)
build_set_null p engine = returns (ok (λ v doc. returns (ok null)))

module _ ⦃api : BsonApi⦄ ⦃sha256 : Sha256⦄ where
  unfoldable pub hash : ⦃hex : HexApi⦄ → HashEngine → ℕ → Transformer
  hash ⦃hex⦄ engine len v doc =
      then_run (slice_to (hex.encode (derived engine v (len / 2 + 1))) len)
        (λ s. returns (ok (string s)))

  unfoldable pub build_hash :
      ⦃hex : HexApi⦄ → ⦃std : StdApi⦄ → ParamValues → HashEngine → Run (Result Transformer)
  build_hash p engine = returns (ok (hash engine (at_least_one (length_of p))))

  unfoldable pub random_email : HashEngine → Text → Transformer
  random_email engine domain v doc =
      let h = hash_u64 engine (to_hashable_bytes v) in
      returns (ok (string (codes "user" ++ (hex_text h ++ (codes "@" ++ domain)))))

  unfoldable pub build_random_email : ParamValues → HashEngine → Run (Result Transformer)
  build_random_email p engine =
      returns
        (ok (random_email engine (unwrap_or (get_str p (codes "domain")) (codes "example.com"))))

  abbrev pub person : Text → Text → Document
  person first last =
      let email = lowercase first ++ (codes "." ++ (lowercase last ++ codes "@example.com")) in
      api.insert
        (api.insert (api.insert api.new (codes "first_name") (string first)) (codes "last_name")
          (string last))
        (codes "email") (string email)

  unfoldable pub random_person : HashEngine → Transformer
  random_person engine v doc =
      let bytes = to_hashable_bytes v in
      then_run (at_index first_names (index engine bytes (length first_names))) (λ first.
        then_run (at_index last_names (index engine (bytes ++ codes "last") (length last_names)))
          (λ last. returns (ok (document (person first last)))))

  unfoldable pub build_random_person : ParamValues → HashEngine → Run (Result Transformer)
  build_random_person p engine = returns (ok (random_person engine))

  unfoldable pub random_company : HashEngine → Transformer
  random_company engine v doc =
      then_run (at_index companies (index engine (to_hashable_bytes v) (length companies)))
        (λ name. returns (ok (string name)))

  unfoldable pub build_random_company : ParamValues → HashEngine → Run (Result Transformer)
  build_random_company p engine = returns (ok (random_company engine))

  unfoldable pub random_object_id : HashEngine → Transformer
  random_object_id engine v doc =
      then_run (to_array 12 (derived engine v 12)) (λ arr. returns (ok (object_id arr)))

  unfoldable pub build_random_object_id : ParamValues → HashEngine → Run (Result Transformer)
  build_random_object_id p engine = returns (ok (random_object_id engine))

  unfoldable pub random_bytes : HashEngine → ℕ → Transformer
  random_bytes engine len v doc = returns (ok (binary generic (derived engine v len)))

  unfoldable pub build_random_bytes :
      ⦃std : StdApi⦄ → ParamValues → HashEngine → Run (Result Transformer)
  build_random_bytes p engine = returns (ok (random_bytes engine (pos_part (length_of p))))

module _ ⦃regex : RegexApi⦄ where
  unfoldable pub build_regexp_replace : ParamValues → HashEngine → Run (Result Transformer)
  build_regexp_replace p engine = then_run (unwrap (get_str p (codes "regexp"))) (λ pattern.
      returns (ok_or (regex.new pattern) transform) >>? λ re.
      then_run (unwrap (get_str p (codes "replace"))) (λ replace. returns (
        ok (λ v doc.
          returns (ok (string (regex.replace_all re (unwrap_or (as_str v) []) replace)))))))

  -- What is put in place of a field's name.
  abbrev pub field_text : ⦃api : BsonApi⦄ → Option Bson → Text
  field_text none = []
  field_text (some (string s)) = s
  field_text ⦃api⦄ (some b) = api.display b

  unfoldable pub build_template :
      ⦃api : BsonApi⦄ → ParamValues → HashEngine → Run (Result Transformer)
  build_template ⦃api⦄ p engine = then_run (unwrap (get_str p (codes "template"))) (λ template.
      then_run (unwrap (regex.new template_pattern)) (λ re. returns (
        ok (λ v doc.
          returns (
            ok
              (string (regex.replace_with re template (λ name. field_text (api.get doc name)))))))))
