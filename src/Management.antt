-- ===== src/Management.antt =====
-- dump/management.rs: which dumps a retention policy deletes, and pruning
-- them. Times are integers.
pub mod Rules
pub mod Recent
pub mod Ranked
pub mod Retention
pub mod Tests
use leafmask.Prelude.{
  ℕ, Text, text_eq, text_Eq, text_leb, Bool, true, false, ◌||◌, ◌&&◌, Option, none, some, List, [],
  ◌∷◌, ◌++◌, map, filter, take, contains, if◌then◌else◌,
}
use leafmask.Prelude.Int.{ℤ, pos, ltb_ℤ, leb_ℤ, ◌-ℤ◌}
use leafmask.Dump.Metadata.{DumpStatus, done, failed, in_progress, unknown, DumpMetadata}
use leafmask.Prelude.Result.{Error, Result, ok, err}

pub record RetentionPolicy : Type 0 where
  pub retain_recent : Option ℕ
  pub retain_for : Option ℤ
  pub before_date : Option ℤ
  pub prune_failed : Bool
  pub prune_unsafe : Bool

-- The chrono crate: parse_from_rfc3339.
pub record Clock : Type 0 where
  pub parse_time : Text → Option ℤ

abbrev pub is_done : DumpStatus → Bool
is_done done = true
is_done _ = false

abbrev pub is_failed : DumpStatus → Bool
is_failed failed = true
is_failed _ = false

abbrev pub is_unsafe : DumpStatus → Bool
is_unsafe unknown = true
is_unsafe in_progress = true
is_unsafe _ = false

abbrev pub is_set : Option ℕ → Bool
is_set none = false
is_set (some _) = true

-- `sort` of texts, and the stable sort by descending time, as insertion sorts.
abbrev pub insert_text : Text → List Text → List Text
insert_text x [] = x ∷ []
insert_text x (y ∷ ys) =
    let rest = insert_text x ys in if text_leb x y then x ∷ y ∷ ys else y ∷ rest

unfoldable pub sort_texts : List Text → List Text
sort_texts [] = []
sort_texts (x ∷ xs) = insert_text x (sort_texts xs)

module _ ⦃clock : Clock⦄ where
  abbrev pub or_epoch : Option ℤ → ℤ
  or_epoch none = pos 0
  or_epoch (some t) = t

  unfoldable pub created_at : DumpMetadata → ℤ
  created_at m = or_epoch (clock.parse_time m.created_at)

  abbrev pub insert_recent : DumpMetadata → List DumpMetadata → List DumpMetadata
  insert_recent m [] = m ∷ []
  insert_recent m (x ∷ xs) =
      let rest = insert_recent m xs in
      if leb_ℤ (created_at x) (created_at m) then m ∷ x ∷ xs else x ∷ rest

  unfoldable pub sort_recent : List DumpMetadata → List DumpMetadata
  sort_recent [] = []
  sort_recent (m ∷ ms) = insert_recent m (sort_recent ms)

  abbrev pub recent : Option ℕ → List DumpMetadata → List Text
  recent none dumps = []
  recent (some n) dumps =
      map (λ m. m.id) (take n (sort_recent (filter (λ m. is_done m.status) dumps)))

  -- The ids that no rule may delete.
  unfoldable pub protected : RetentionPolicy → List DumpMetadata → List Text
  protected policy dumps = recent policy.retain_recent dumps

  abbrev pub older : Option ℤ → ℤ → Bool
  older none created = false
  older (some limit) created = ltb_ℤ created limit

  abbrev pub retained_since : Option ℤ → ℤ → Option ℤ
  retained_since none now = none
  retained_since (some dur) now = some (now -ℤ dur)

  unfoldable pub candidate : RetentionPolicy → ℤ → DumpMetadata → Bool
  candidate policy now m =
      (is_set policy.retain_recent && is_done m.status)
      || (older (retained_since policy.retain_for now) (created_at m)
          || (older policy.before_date (created_at m)
              || ((policy.prune_failed && is_failed m.status)
                  || (policy.prune_unsafe && is_unsafe m.status))))

  unfoldable pub select_ids : RetentionPolicy → ℤ → List Text → List DumpMetadata → List Text
  select_ids policy now kept [] = []
  select_ids policy now kept (m ∷ dumps) =
      let rest = select_ids policy now kept dumps in
      if contains kept m.id then rest else if candidate policy now m then m.id ∷ rest else rest

  unfoldable pub select_for_deletion : List DumpMetadata → RetentionPolicy → ℤ → List Text
  select_for_deletion dumps policy now =
      sort_texts (select_ids policy now (protected policy dumps) dumps)

-- The operations of storage that pruning uses; `S` is what storage holds.
pub record DumpStore (S : Type 0) : Type 0 where
  pub list_metadata : S → Result (List DumpMetadata)
  pub delete : Text → S → Result {0} Unit × S

abbrev pub deleted : {S : Type 0} → List Text → Result {0} Unit × S → Result (List Text) × S
deleted ids (ok u, s) = (ok ids, s)
deleted ids (err e, s) = (err e, s)

module _ {S : Type 0} (store : DumpStore S) where
  abbrev pub then_delete : (S → Result {0} Unit × S) → Result {0} Unit × S → Result {0} Unit × S
  then_delete rest (err e, s) = (err e, s)
  then_delete rest (ok u, s) = rest s

  unfoldable pub delete_all : List Text → S → Result {0} Unit × S
  delete_all [] s = (ok tt, s)
  delete_all (id ∷ ids) s = then_delete (delete_all ids) (store.delete id s)

  module _ ⦃clock : Clock⦄ where
    abbrev pub prune_listed :
        RetentionPolicy → ℤ → Bool → Result (List DumpMetadata) → S → Result (List Text) × S
    prune_listed policy now dry_run (err e) s = (err e, s)
    prune_listed policy now dry_run (ok dumps) s =
        let ids = select_for_deletion dumps policy now in
        if dry_run then (ok ids, s) else deleted ids (delete_all ids s)

    unfoldable pub prune : RetentionPolicy → ℤ → Bool → S → Result (List Text) × S
    prune policy now dry_run s = prune_listed policy now dry_run (store.list_metadata s) s
