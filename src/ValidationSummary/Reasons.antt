-- ===== src/ValidationSummary/Reasons.antt =====
-- validation_summary.go: which reason goes with a missed reward.
use mathlib.Core.Option.{some-injective}
use idena_indexer.Base.{
  ℕ, ◌≡◌, ◌≢◌, ◌↔◌, refl, sym, ap, ◌∙◌, inl, inr, Bool, true, false, ◌&&◌, Option, none, some,
  arith, Bool-cases, Option-cases,
}
use idena_indexer.Base.Int.{ℤ}
use idena_indexer.ValidationSummary.{
  missed_reward_reason_penalty, ValidationRewardSummary, is_positive, not_validated_reason, summary,
  flips_reason, reports_reason, calculate_validation_reward_summary,
  calculate_candidate_reward_summary, calculate_staking_reward_summary,
  calculate_flips_reward_summary, calculate_extra_flips_reward_summary,
  calculate_invitations_reward_summary, calculate_invitee_reward_summary,
  calculate_reports_reward_summary, Calculator, Tables, Identity, ValidationRewardSummaries,
  is_penalized, summaries_of, init, calculate_validation_reward_summaries,
}

-- A reason is given exactly for a positive missed reward, and it is the penalty exactly if the
-- identity is penalized.
pub record IsExplained (penalized : Bool) (s : ValidationRewardSummary) : Type 0 where
  pub given : (s.missed_reason ≡ none) ↔ (is_positive s.missed ≡ false)
  pub penalty :
      (s.missed_reason ≡ some missed_reward_reason_penalty)
      ↔ ((is_positive s.missed && penalized) ≡ true)

summary-IsExplained :
    (p : Bool) (reward missed : Option ℤ) (reason : ℕ)
    → reason ≢ 0
    → (reason ≡ missed_reward_reason_penalty) ↔ (p ≡ true)
    → IsExplained p (summary reward missed reason)
unfolding summary
summary-IsExplained p reward missed reason nonzero iff = elim (Bool-cases (is_positive missed)) [
  | inl gain ↦ rw gain (record { given = ground arith; penalty = ground (arith, iff.0, iff.1) })
  | inr no_gain ↦ rw no_gain (record { given = ground arith; penalty = ground arith })
]

not_validated_reason_lem :
    (p : Bool)
    → (not_validated_reason p ≢ 0)
      × ((not_validated_reason p ≡ missed_reward_reason_penalty) ↔ (p ≡ true))
unfolding not_validated_reason
not_validated_reason_lem p = ground arith

flips_reason_lem :
    (p missed : Bool)
    → (flips_reason p missed ≢ 0)
      × ((flips_reason p missed ≡ missed_reward_reason_penalty) ↔ (p ≡ true))
unfolding flips_reason
flips_reason_lem p missed = ground arith

reports_reason_lem :
    (p ignored : Bool)
    → (reports_reason p ignored ≢ 0)
      × ((reports_reason p ignored ≡ missed_reward_reason_penalty) ↔ (p ≡ true))
unfolding reports_reason
reports_reason_lem p ignored = ground arith

-- The parts of one identity's summary: six have a missed reward, which is explained; invitations and
-- invitee never have one, and their reason is the penalty exactly if the identity is penalized, for
-- invitations with no other reason.
pub record AllExplained (penalized : Bool) (s : ValidationRewardSummaries) : Type 0 where
  pub validation : IsExplained penalized s.validation
  pub candidate : IsExplained penalized s.candidate
  pub staking : IsExplained penalized s.staking
  pub flips : IsExplained penalized s.flips
  pub extra_flips : IsExplained penalized s.extra_flips
  pub reports : IsExplained penalized s.reports
  pub invitations :
      (s.invitations.missed_reason ≡ some missed_reward_reason_penalty) ↔ (penalized ≡ true)
  pub invitations_missed : s.invitations.missed ≡ none
  pub invitations_given : (s.invitations.missed_reason ≡ none) ↔ (penalized ≡ false)
  pub invitee_missed : s.invitee.missed ≡ none
  pub invitee : (s.invitee.missed_reason ≡ some missed_reward_reason_penalty) ↔ (penalized ≡ true)

summaries_of-AllExplained :
    (c : Calculator) (t : Tables) (i : Identity)
    → AllExplained (is_penalized c.rewards_stats i.shard_id i.address) (summaries_of c t i)
unfolding summaries_of calculate_validation_reward_summary calculate_candidate_reward_summary
    calculate_staking_reward_summary calculate_flips_reward_summary
    calculate_extra_flips_reward_summary calculate_invitations_reward_summary
    calculate_invitee_reward_summary calculate_reports_reward_summary
summaries_of-AllExplained c t i =
    let p = is_penalized c.rewards_stats i.shard_id i.address in
    let (n0, n1) = not_validated_reason_lem p in
    record {
      validation = summary-IsExplained p _ _ _ n0 n1;
      candidate = summary-IsExplained p _ _ _ n0 n1;
      staking = summary-IsExplained p _ _ _ n0 n1;
      flips = summary-IsExplained p _ _ _ (flips_reason_lem p _).0 (flips_reason_lem p _).1;
      extra_flips = summary-IsExplained p _ _ _ (flips_reason_lem p _).0 (flips_reason_lem p _).1;
      reports = summary-IsExplained p _ _ _ (reports_reason_lem p _).0 (reports_reason_lem p _).1;
      invitations = ground arith;
      invitations_missed = refl;
      invitations_given = ground arith;
      invitee_missed = refl;
      invitee = ground arith;
    }

some_pair :
    (c : Calculator) (i : Identity) {s : ValidationRewardSummaries} {t u : Tables}
    → ◌≡◌ {A = Option (ValidationRewardSummaries × Tables)}
        (some (summaries_of c u i, u))
        (some (s, t))
    → s ≡ summaries_of c t i
some_pair c i {s} {t} {u} e =
    let p = some-injective (summaries_of c u i, u) (s, t) e in
    sym (ap (λ (q : ValidationRewardSummaries × Tables). q.0) p)
    ∙ ap (λ (q : ValidationRewardSummaries × Tables). summaries_of c q.1 i) p

calculate-eq-summaries_of :
    (c : Calculator) (kept : Option Tables) (i : Identity) {s : ValidationRewardSummaries}
    {t : Tables}
    → calculate_validation_reward_summaries c kept i ≡ some (s, t)
    → s ≡ summaries_of c t i
unfolding calculate_validation_reward_summaries
calculate-eq-summaries_of c (some t) i e = some_pair c i e
calculate-eq-summaries_of c none i e = elim (Option-cases (init c)) [
  | inl fault ↦ cc
  | inr (u, made) ↦ some_pair c i {u = u} (rw (made, calculate_validation_reward_summaries) at e)
]

-- Of whatever `calculateValidationRewardSummaries` returns: for validation, candidate, staking, flips,
-- extra flips and reports, a reason is given exactly for a positive missed reward, and it is the penalty
-- exactly if moreover the identity is a bad author of its shard. Invitations and invitee have no missed
-- reward; their reason is the penalty exactly if the identity is a bad author, and invitations have no
-- other reason. A second call, with the tables of the first, returns the same.
pub calculate-AllExplained :
    (c : Calculator) (kept : Option Tables) (i : Identity) {s : ValidationRewardSummaries}
    {t : Tables}
    → calculate_validation_reward_summaries c kept i ≡ some (s, t)
    → AllExplained (is_penalized c.rewards_stats i.shard_id i.address) s
      × (calculate_validation_reward_summaries c (some t) i ≡ some (s, t))
unfolding calculate_validation_reward_summaries
calculate-AllExplained c kept i {t} e =
    rw (calculate-eq-summaries_of c kept i e) (summaries_of-AllExplained c t i, refl)
