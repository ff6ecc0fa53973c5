-- ===== src/ValidationSummary/Reports.antt =====
-- The calculators of validation_summary.go for invitations, invitees and reports.
use Prim.Native.String.{String}
use idena_indexer.Base.{
  ℕ, ◌+◌, Bool, false, ◌&&◌, not, Option, none, some, List, [], ◌∷◌, ltb, if◌then◌else◌,
}
use idena_indexer.Base.Int.{ℤ, pos, ◌+ℤ◌, ◌*ℤ◌}
use idena_indexer.Base.Eq.{number_key}
use idena_indexer.Base.Map.{Map, lookup}
use idena_indexer.ValidationSummary.Parts.{
  missed_reward_reason_empty, missed_reward_reason_penalty, missed_reward_reason_not_validated,
  missed_reward_reason_ignored_grades, missed_reward_reason_not_all_reports,
  missed_reward_reason_or_nil, StringSet, contains, Rules, ValidationRewardSummary, summary,
}

-- `stats.RewardType`.
abbrev pub RewardType : Type 0
RewardType = ℕ

abbrev pub validation_type : RewardType
validation_type = 0

abbrev pub flips_type : RewardType
flips_type = 1

abbrev pub reported_flips_type : RewardType
reported_flips_type = 9

abbrev pub staking_type : RewardType
staking_type = 10

abbrev pub candidate_type : RewardType
candidate_type = 11

abbrev pub extra_flips_type : RewardType
extra_flips_type = 12

-- `Invitations`, `Invitations2`, `Invitations3`, `SavedInvite`, `SavedInviteWin`.
abbrev pub invitation_reward_types : List RewardType
invitation_reward_types = 2 ∷ 5 ∷ 6 ∷ 7 ∷ 8 ∷ []

-- `Invitee1`, `Invitee2`, `Invitee3`.
abbrev pub invitee_reward_types : List RewardType
invitee_reward_types = 13 ∷ 14 ∷ 15 ∷ []

-- The loop over reward types; `earned` stays nil until a type has a reward.
unfoldable pub add_rewards : Map RewardType ℤ → List RewardType → Option ℤ → Option ℤ
add_rewards rewards [] earned = earned
add_rewards rewards (t ∷ types) earned = add_rewards rewards types (elim (lookup t rewards) [
  | none ↦ earned
  | some reward ↦ some (elim earned [ none ↦ pos 0 | some e ↦ e ] +ℤ reward)
])

unfoldable pub calculate_invitations_reward_summary :
    Map RewardType ℤ → Bool → ValidationRewardSummary
unfolding add_rewards
calculate_invitations_reward_summary rewards penalized = record {
  earned = add_rewards rewards invitation_reward_types none;
  missed = none;
  missed_reason =
      missed_reward_reason_or_nil
        (if penalized then missed_reward_reason_penalty else missed_reward_reason_empty);
}

unfoldable pub calculate_invitee_reward_summary :
    Rules → Map RewardType ℤ → Bool → ℕ → ValidationRewardSummary
unfolding add_rewards
calculate_invitee_reward_summary r rewards penalized new_state = record {
  earned = add_rewards rewards invitee_reward_types none;
  missed = none;
  missed_reason = missed_reward_reason_or_nil (
      if penalized
      then missed_reward_reason_penalty
      else if not (r.newbie_or_better new_state)
      then missed_reward_reason_not_validated
      else missed_reward_reason_empty);
}

-- The loop over the flips with a consensus to report: how many have no reward, and whether a
-- successful report of the identity was ignored with its grades.
unfoldable pub count_reports : Bool → StringSet → StringSet → List String → ℕ × Bool → ℕ × Bool
count_reports ignored_grades reported rewarded [] acc = acc
count_reports ignored_grades reported rewarded (flip ∷ flips) (missed, ignored) =
    let ignored' = if ignored_grades && not ignored then contains flip reported else ignored in
    let missed' = if contains flip rewarded then missed else missed + 1 in
    count_reports ignored_grades reported rewarded flips (missed', ignored')

unfoldable pub reports_reason : Bool → Bool → ℕ
reports_reason penalized ignored =
    if penalized
    then missed_reward_reason_penalty
    else if ignored
    then missed_reward_reason_ignored_grades
    else missed_reward_reason_not_all_reports

unfoldable pub calculate_reports_reward_summary :
    Option ℤ → ℤ → Bool → Bool → StringSet → StringSet → List String → ValidationRewardSummary
unfolding summary
calculate_reports_reward_summary reward share penalized ignored_grades reported rewarded flips =
    let (missed_reports, ignored) =
      count_reports ignored_grades reported rewarded flips (0, false) in
    let missed : Option ℤ =
      if ltb 0 missed_reports then some (share *ℤ pos missed_reports) else none in
    summary reward missed (reports_reason penalized ignored)
