-- ===== src/Management/Tests.antt =====
-- Two completed dumps and a failed one; times are the lengths of the texts.
use leafmask.Prelude.{
  ℕ, suc, codes, true, false, none, some, List, [], ◌∷◌, ◌≡◌, ◌↔◌, refl, In, length,
}
use leafmask.Prelude.Int.{pos}
use leafmask.Prelude.Result.{ok}
use leafmask.Dump.Metadata.{DumpMetadata, done, failed}
use leafmask.Management.{
  RetentionPolicy, Clock, DumpStore, protected, select_for_deletion, prune, select_ids, candidate,
  created_at, sort_recent, sort_texts, delete_all,
}
use leafmask.Management.Retention.{Applies, Protected, select_for_deletion_iff}

instance abbrev length_clock : Clock
length_clock = record { parse_time = λ t. some (pos (length t)) }

abbrev dumps : List DumpMetadata
dumps =
    record { id = codes "a"; status = done; created_at = codes "x"; databases = []; size = 1 }
    ∷ record { id = codes "b"; status = done; created_at = codes "xx"; databases = []; size = 1 }
    ∷ record { id = codes "c"; status = failed; created_at = codes "xxx"; databases = []; size = 1 }
    ∷ []

abbrev keep_one : RetentionPolicy
keep_one = record {
  retain_recent = some 1;
  retain_for = none;
  before_date = none;
  prune_failed = true;
  prune_unsafe = false;
}

select_for_deletion_iff_example :
    In (codes "a") (select_for_deletion dumps keep_one (pos 9))
    ↔ (¬ Protected keep_one dumps (codes "a") × Applies keep_one (pos 9) dumps (codes "a"))
select_for_deletion_iff_example = select_for_deletion_iff keep_one (pos 9) dumps (codes "a")

-- The store counts its deletions.
abbrev counting : DumpStore ℕ
counting = record { list_metadata = λ s. ok dumps; delete = λ id s. (ok tt, suc s) }

prune-deletes : prune counting keep_one (pos 9) false 0 ≡ (ok (codes "a" ∷ codes "c" ∷ []), 2)
unfolding prune select_for_deletion select_ids protected candidate created_at sort_recent sort_texts
    delete_all
prune-deletes = refl
