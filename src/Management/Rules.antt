-- ===== src/Management/Rules.antt =====
-- The rules of a retention policy, as dump/management.rs lists them.
use leafmask.Prelude.{
  ℕ, Bool, ◌&&◌, ◌||◌, true, Option, none, some, ◌≡◌, ◌↔◌, ◌⊎◌, inl, inr, refl, arith,
}
use leafmask.Prelude.Int.{ℤ, ltb_ℤ, ◌-ℤ◌}
use leafmask.Dump.Metadata.{DumpStatus, done, failed, in_progress, unknown, DumpMetadata}
use leafmask.Management.{
  RetentionPolicy, Clock, created_at, candidate, older, retained_since, is_done, is_failed,
  is_unsafe, is_set,
}

module _ ⦃clock : Clock⦄ where
  -- A rule of the policy that deletes the dump.
  pub data Rule (policy : RetentionPolicy) (now : ℤ) (m : DumpMetadata) : Type 0 where
    excess : (n : ℕ) → policy.retain_recent ≡ some n → m.status ≡ done → Rule policy now m
    expired :
        (duration : ℤ)
        → policy.retain_for ≡ some duration
        → ltb_ℤ (created_at m) (now -ℤ duration) ≡ true
        → Rule policy now m
    outdated :
        (date : ℤ)
        → policy.before_date ≡ some date
        → ltb_ℤ (created_at m) date ≡ true
        → Rule policy now m
    failure : policy.prune_failed ≡ true → m.status ≡ failed → Rule policy now m
    unknown_end : policy.prune_unsafe ≡ true → m.status ≡ unknown → Rule policy now m
    unfinished : policy.prune_unsafe ≡ true → m.status ≡ in_progress → Rule policy now m

pub is_done_iff : (s : DumpStatus) → (is_done s ≡ true) ↔ (s ≡ done)
is_done_iff done = ground arith
is_done_iff failed = ground arith
is_done_iff in_progress = ground arith
is_done_iff unknown = ground arith

is_failed_iff : (s : DumpStatus) → (is_failed s ≡ true) ↔ (s ≡ failed)
is_failed_iff done = ground arith
is_failed_iff failed = ground arith
is_failed_iff in_progress = ground arith
is_failed_iff unknown = ground arith

is_unsafe_iff : (s : DumpStatus) → (is_unsafe s ≡ true) ↔ ((s ≡ unknown) ⊎ (s ≡ in_progress))
is_unsafe_iff done = ground arith
is_unsafe_iff failed = ground arith
is_unsafe_iff in_progress = ground arith
is_unsafe_iff unknown = ground arith

is_set_iff : (o : Option ℕ) → (is_set o ≡ true) ↔ ((n : ℕ) × (o ≡ some n))
is_set_iff none = (λ h. cc, λ (n, h). cc)
is_set_iff (some n) = (λ h. (n, refl), λ h. refl)

or_iff : (a b : Bool) → (a || b ≡ true) ↔ ((a ≡ true) ⊎ (b ≡ true))
or_iff a b = ground arith

and_iff : (a b : Bool) → (a && b ≡ true) ↔ (a ≡ true) × (b ≡ true)
and_iff a b = ground arith

module _ ⦃clock : Clock⦄ where
  older_iff :
      (o : Option ℤ) (t : ℤ)
      → (older o t ≡ true) ↔ ((limit : ℤ) × (o ≡ some limit) × (ltb_ℤ t limit ≡ true))
  older_iff none t = (λ h. cc, λ (n, h, k). cc)
  older_iff (some limit) t =
      (λ h. (limit, refl, h), λ (n, e, k). let same : limit ≡ n = cc in rw same k)

  retained_since_iff :
      (o : Option ℤ) (now t : ℤ)
      → (older (retained_since o now) t ≡ true)
        ↔ ((duration : ℤ) × (o ≡ some duration) × (ltb_ℤ t (now -ℤ duration) ≡ true))
  retained_since_iff none now t = (λ h. cc, λ (n, h, k). cc)
  retained_since_iff (some duration) now t =
      (λ h. (duration, refl, h), λ (n, e, k). let same : duration ≡ n = cc in rw same k)

module _ ⦃clock : Clock⦄ (policy : RetentionPolicy) (now : ℤ) (m : DumpMetadata) where
  -- The tests of the loop, as they stand behind one another.
  abbrev Tests : Type 0
  Tests =
      ((is_set policy.retain_recent ≡ true) × (is_done m.status ≡ true))
      ⊎ ((older (retained_since policy.retain_for now) (created_at m) ≡ true)
          ⊎ ((older policy.before_date (created_at m) ≡ true)
              ⊎ (((policy.prune_failed ≡ true) × (is_failed m.status ≡ true))
                  ⊎ ((policy.prune_unsafe ≡ true) × (is_unsafe m.status ≡ true)))))

  candidate-Tests : (candidate policy now m ≡ true) ↔ Tests
  unfolding candidate
  candidate-Tests = ground arith

  Tests-Rule : Tests → Rule policy now m
  Tests-Rule (inl (h, d)) =
      let (n, e) = (is_set_iff policy.retain_recent).0 h in
      Rule.excess n e ((is_done_iff m.status).0 d)
  Tests-Rule (inr (inl h)) =
      let (n, e, k) = (retained_since_iff policy.retain_for now (created_at m)).0 h in
      Rule.expired n e k
  Tests-Rule (inr (inr (inl h))) =
      let (n, e, k) = (older_iff policy.before_date (created_at m)).0 h in Rule.outdated n e k
  Tests-Rule (inr (inr (inr (inl (h, d))))) = Rule.failure h ((is_failed_iff m.status).0 d)
  Tests-Rule (inr (inr (inr (inr (h, d))))) = elim ((is_unsafe_iff m.status).0 d) [
    | inl u ↦ Rule.unknown_end h u
    | inr u ↦ Rule.unfinished h u
  ]

  Rule-Tests : Rule policy now m → Tests
  Rule-Tests (Rule.excess n e d) =
      inl ((is_set_iff policy.retain_recent).1 (n, e), (is_done_iff m.status).1 d)
  Rule-Tests (Rule.expired n e k) =
      inr (inl ((retained_since_iff policy.retain_for now (created_at m)).1 (n, e, k)))
  Rule-Tests (Rule.outdated n e k) =
      inr (inr (inl ((older_iff policy.before_date (created_at m)).1 (n, e, k))))
  Rule-Tests (Rule.failure h d) = inr (inr (inr (inl (h, (is_failed_iff m.status).1 d))))
  Rule-Tests (Rule.unknown_end h u) = inr (inr (inr (inr (h, (is_unsafe_iff m.status).1 (inl u)))))
  Rule-Tests (Rule.unfinished h u) = inr (inr (inr (inr (h, (is_unsafe_iff m.status).1 (inr u)))))

  -- The loop deletes an unprotected dump exactly if a rule does.
  pub candidate_iff : (candidate policy now m ≡ true) ↔ Rule policy now m
  candidate_iff = (λ h. Tests-Rule (candidate-Tests.0 h), λ r. candidate-Tests.1 (Rule-Tests r))
