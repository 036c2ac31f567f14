-- ===== src/Restore/Scripts.antt =====
-- restore/scripts.rs: the hook scripts of a restore and their stages. `S` is what scripts act on.
use leafmask.Prelude.{
  ℕ, ◌+◌, Text, text_eq, Bool, true, false, Option, none, some, List, [], ◌∷◌, ◌≡◌, nat_eq, is_some,
  if◌then◌else◌,
}
use leafmask.Prelude.Result.{restore, Result, ok, err}

pub record ScriptSpec : Type 0 where
  pub name : Option Text
  pub query : Option Text
  pub query_file : Option Text
  pub command : Option (List Text)

pub data ScriptKind : Type 0 where
  mongosh : Text → ScriptKind
  mongosh_file : Text → ScriptKind
  command_line : List Text → ScriptKind

abbrev pub has_words : Option (List Text) → Bool
has_words none = false
has_words (some []) = false
has_words (some (_ ∷ _)) = true

abbrev pub one_if : Bool → ℕ
one_if true = 1
one_if false = 0

-- how many drivers are set
abbrev pub drivers : Option Text → Option Text → Option (List Text) → ℕ
drivers query query_file command =
    one_if (is_some query) + (one_if (is_some query_file) + one_if (has_words command))

abbrev pub chosen_kind : Option Text → Option Text → Option (List Text) → ScriptKind
chosen_kind (some q) _ _ = mongosh q
chosen_kind none (some f) _ = mongosh_file f
chosen_kind none none (some argv) = command_line argv
chosen_kind none none none = command_line []

unfoldable pub kind : ScriptSpec → Result ScriptKind
kind spec =
    if nat_eq (drivers spec.query spec.query_file spec.command) 1
    then ok (chosen_kind spec.query spec.query_file spec.command)
    else err restore

-- The `ScriptRunner` trait.
pub record ScriptRunner (S : Type 0) : Type 0 where
  pub run_mongosh : Text → S → Result {0} Unit × S
  pub run_mongosh_file : Text → S → Result {0} Unit × S
  pub run_command : List Text → S → Result {0} Unit × S

module _ {S : Type 0} (runner : ScriptRunner S) where
  abbrev pub run_kind : Result ScriptKind → S → Result {0} Unit × S
  run_kind (err e) s = (err e, s)
  run_kind (ok (mongosh q)) s = runner.run_mongosh q s
  run_kind (ok (mongosh_file f)) s = runner.run_mongosh_file f s
  run_kind (ok (command_line argv)) s = runner.run_command argv s

  unfoldable pub run_script : ScriptSpec → S → Result {0} Unit × S
  run_script spec s = run_kind (kind spec) s

  abbrev pub continue_with : (S → Result {0} Unit × S) → Result {0} Unit × S → Result {0} Unit × S
  continue_with rest (err e, s) = (err e, s)
  continue_with rest (ok u, s) = rest s

  unfoldable pub run_all : List ScriptSpec → S → Result {0} Unit × S
  run_all [] s = (ok tt, s)
  run_all (spec ∷ specs) s = continue_with (run_all specs) (run_script spec s)

  -- The stages in the order of a BTreeMap; a stage without scripts does nothing.
  unfoldable pub run_stage : List (Text × List ScriptSpec) → Text → S → Result {0} Unit × S
  run_stage [] stage s = (ok tt, s)
  run_stage ((name, specs) ∷ stages) stage s =
      if text_eq name stage then run_all specs s else run_stage stages stage s

-- Exactly one driver is set, and it is the kind's.
abbrev pub OnlyDriver : ScriptSpec → ScriptKind → Type 0
OnlyDriver spec (mongosh q) =
    (spec.query ≡ some q) × (spec.query_file ≡ none) × (has_words spec.command ≡ false)
OnlyDriver spec (mongosh_file f) =
    (spec.query ≡ none) × (spec.query_file ≡ some f) × (has_words spec.command ≡ false)
OnlyDriver spec (command_line argv) =
    (spec.query ≡ none)
    × (spec.query_file ≡ none)
    × (spec.command ≡ some argv)
    × (has_words spec.command ≡ true)
