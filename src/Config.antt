-- ===== src/Config.antt =====
-- config.rs: where the configuration is found, the environment variables in it, and the keys of
-- its raw sections.
pub mod Interpolated
pub mod Tests
use leafmask.Prelude.{
  ℕ, zero, suc, ◌+◌, Text, Bool, true, false, not, ◌&&◌, ◌||◌, Option, none, some, List, [], ◌∷◌,
  ◌++◌, nat_eq, leb, length, drop, starts_with, codes, if◌then◌else◌, option_map, unwrap_or,
  contains, all, text_Eq,
}
use leafmask.Prelude.Result.{Result, Error, ok, err, ◌>>=◌}
use leafmask.Toolkit.Yaml.{Yaml, Mapping}

-- `locate`, with a path as its text.
unfoldable pub locate : Option Text → Option Text → Result Text
locate (some p) env_var = ok p
locate none none = err Error.config
locate none (some []) = err Error.config
locate none (some (c ∷ v)) = ok (c ∷ v)

-- A character beyond ASCII has only bytes that are not ASCII, so the test of the bytes is one of
-- the characters.
abbrev pub is_digit : ℕ → Bool
is_digit c = leb b'0' c && leb c b'9'

abbrev pub is_name_char : ℕ → Bool
is_name_char c = is_digit c || leb b'A' c && leb c b'Z' || leb b'a' c && leb c b'z' || nat_eq c b'_'

unfoldable pub is_valid_env_name : Text → Bool
is_valid_env_name [] = false
is_valid_env_name (c ∷ s) = all is_name_char (c ∷ s) && not (is_digit c)

-- What stands before the next closing brace.
unfoldable pub before_close : Text → Option Text
before_close [] = none
before_close (c ∷ s) = if nat_eq c b'}' then some [] else option_map (λ n. c ∷ n) (before_close s)

abbrev pub if_valid : Option Text → Option Text
if_valid none = none
if_valid (some name) = if is_valid_env_name name then some name else none

-- The variable that is referenced at the start of the text.
unfoldable pub reference : Text → Option Text
reference s = if starts_with s (b'$' ∷ b'{' ∷ []) then if_valid (before_close (drop 2 s)) else none

-- The loop, with the characters that are still to be passed over.
unfoldable pub interpolate_from : (Text → Option Text) → ℕ → Text → Text
interpolate_from lookup k [] = []
interpolate_from lookup (suc k) (c ∷ s) = interpolate_from lookup k s
interpolate_from lookup zero (c ∷ s) = elim (reference (c ∷ s)) [
  | none ↦ c ∷ interpolate_from lookup 0 s
  | some name ↦ unwrap_or (lookup name) [] ++ interpolate_from lookup (suc (suc (length name))) s
]

unfoldable pub interpolate_env : Text → (Text → Option Text) → Text
interpolate_env raw lookup = interpolate_from lookup 0 raw

-- `Value::as_mapping` and `Value::as_str`, which look behind a tag.
abbrev pub as_mapping : Yaml → Option Mapping
as_mapping (Yaml.mapping m) = some m
as_mapping (Yaml.tagged t v) = as_mapping v
as_mapping v = none

abbrev pub as_str : Yaml → Option Text
as_str (Yaml.string s) = some s
as_str (Yaml.tagged t v) = as_str v
as_str v = none

abbrev pub dump_keys : List Text
dump_keys =
    codes "transformation"
    ∷ codes "subset_conds"
    ∷ codes "include_databases"
    ∷ codes "exclude_databases"
    ∷ codes "include_collections"
    ∷ codes "exclude_collections"
    ∷ []

abbrev pub restore_keys : List Text
restore_keys =
    codes "insert_error_exclusions"
    ∷ codes "scripts"
    ∷ codes "clean"
    ∷ codes "include_collections"
    ∷ codes "exclude_collections"
    ∷ codes "include_indexes"
    ∷ codes "exclude_indexes"
    ∷ []

-- The loop of `check_section_keys`.
unfoldable pub check_keys : List Text → Mapping → Result {0} Unit
check_keys known Mapping.end = ok tt
check_keys known (Mapping.entry key value rest) =
    let later = check_keys known rest in
    elim (as_str key) [
      | none ↦ later
      | some name ↦ if contains known name then later else err Error.config
    ]

abbrev pub check_mapping : List Text → Option Mapping → Result {0} Unit
check_mapping known none = ok tt
check_mapping known (some m) = check_keys known m

unfoldable pub check_section_keys : Yaml → List Text → Result {0} Unit
check_section_keys value known = check_mapping known (as_mapping value)

-- What `parse_str` checks behind the decoding, of the sections `dump` and `restore`.
unfoldable pub check_sections : Yaml → Yaml → Result {0} Unit
check_sections dump restore =
    check_section_keys dump dump_keys >>= λ u. check_section_keys restore restore_keys
