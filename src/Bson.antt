-- ===== src/Bson.antt =====
-- The BSON values and documents that the program passes about, and what it takes from the crates
-- that own them. A document is the ordered list of its fields; how the `bson` crate reads and
-- writes it is an argument of the model, with the documented laws that the program relies on.
pub mod Sample
use leafmask.Prelude.{ℕ, Text, Bool, Option, none, some, List, ◌≡◌, text_eq, if◌then◌else◌}
use leafmask.Prelude.Int.{ℤ}

-- An f64 by its bit pattern.
abbrev pub F64 : Type 0
F64 = ℕ

-- bson::Bson. `date_time` holds milliseconds since the epoch; `other` stands for the variants
-- that the program never tells apart.
mutual
  pub data Bson : Type 0 where
    null : Bson
    boolean : Bool → Bson
    int32 : ℤ → Bson
    int64 : ℤ → Bson
    double : F64 → Bson
    string : Text → Bson
    object_id : List ℕ → Bson
    binary : ℕ → List ℕ → Bson
    date_time : ℤ → Bson
    decimal128 : List ℕ → Bson
    array : Items → Bson
    document : Document → Bson
    other : List ℕ → Bson

  pub data Items : Type 0 where
    nil : Items
    cons : Bson → Items → Items

  pub data Document : Type 0 where
    end : Document
    field : Text → Bson → Document → Document

-- The `bson` crate.
pub record BsonApi : Type 0 where
  -- Document::new, get, insert, keys
  pub new : Document
  pub get : Document → Text → Option Bson
  pub insert : Document → Text → Bson → Document
  pub keys : Document → List Text
  -- Bson: PartialEq and Display; Document: Debug
  pub eq : Bson → Bson → Bool
  pub display : Bson → Text
  pub debug : Document → Text
  -- DateTime::parse_rfc3339_str, in milliseconds; ObjectId::parse_str; Decimal128::from_str
  pub parse_rfc3339 : Text → Option ℤ
  pub parse_object_id : Text → Option (List ℕ)
  pub parse_decimal128 : Text → Option (List ℕ)
  pub get-new : (k : Text) → get new k ≡ none
  pub get-insert :
      (d : Document) (k : Text) (v : Bson) (j : Text)
      → get (insert d k v) j ≡ (if text_eq k j then some v else get d j)

-- Floating-point numbers, and the Unicode tables behind `char::is_alphanumeric`.
pub record StdApi : Type 0 where
  pub f64_of_i64 : ℤ → F64
  -- `as i64`
  pub i64_of_f64 : F64 → ℤ
  pub parse_f64 : Text → Option F64
  pub f64_eq : F64 → F64 → Bool
  pub f64_lt : F64 → F64 → Bool
  pub f64_le : F64 → F64 → Bool
  pub f64_is_zero : F64 → Bool
  pub is_alphanumeric : ℕ → Bool

-- `as_document`
abbrev pub as_document : Bson → Option Document
as_document (document d) = some d
as_document _ = none

-- `Vec<Bson>` as the content of an array.
abbrev pub items_of : List Bson → Items
items_of List.[] = nil
items_of (List.◌∷◌ v vs) = cons v (items_of vs)
