-- ===== src/ValidationSummary/Tests.antt =====
-- The validation summary on a small epoch.
use idena_indexer.Base.{
  ℕ, ◌+◌, ◌-◌, ◌≡◌, refl, true, false, ◌&&◌, not, none, some, List, [], ◌∷◌, arith, ltb,
  if◌then◌else◌,
}
use idena_indexer.Base.Int.{ℤ, pos, ◌*ℤ◌}
use idena_indexer.Base.Eq.{number_key}
use idena_indexer.Base.Map.{Map, lookup}
use idena_indexer.ValidationSummary.{
  required_flips, Rules, is_positive, calculate_flips_reward_summary,
  calculate_reports_reward_summary, calculate_invitations_reward_summary,
  calculate_invitee_reward_summary, invitation_reward_types, invitee_reward_types, RewardType,
  RewardStats, rewards_by_addr_and_type, RewardsStats, Calculator, Identity, is_penalized,
  summaries_of, calculate_validation_reward_summaries, Tables,
}
use idena_indexer.ValidationSummary.Reasons.{AllExplained, calculate-AllExplained}
use idena_indexer.ValidationSummary.Amounts.{
  rewarded_count, unrewarded_count, any_reported, any_of, sum_of, last_reward, reward_at,
  calculate_flips_amount, calculate_reports_amount, calculate_invites_amount, rewards_table,
}

-- Cids are one byte; states from 3 up are validated, 2 is a candidate.
abbrev rules : Rules
rules = record {
  candidate = 2;
  newbie_or_better = λ s. ltb 2 s;
  age_reward = λ share age. share *ℤ pos age;
  stake_reward = λ share stake. share *ℤ stake;
  cid_text = λ bytes. elim bytes [ [] ↦ none | b ∷ _ ↦ some (if ltb b 5 then "low" else "high") ];
}

abbrev stats : RewardsStats
stats = record {
  validation_results = (1, record { bad_authors = (7, tt) ∷ []; good_authors = [] }) ∷ [];
  validation_share = some (pos 10);
  candidate_share = some (pos 5);
  staking_share = none;
  flips_share = some (pos 100);
  flips_extra_share = none;
  reports_share = none;
  rewards = [];
  rewarded_flip_cids = "low" ∷ [];
  rewarded_extra_flip_cids = [];
  reported_flip_rewards = [];
}

abbrev calculator : Calculator
calculator = record {
  rules = rules;
  grade_reported = 1;
  convert_address = λ a. "0x07";
  rewards_stats = stats;
  shards = [];
  enable_upgrade10 = true;
  enable_upgrade11 = true;
}

abbrev author : Identity
author = record {
  address = 7;
  shard_id = 1;
  age = 2;
  identity_flips = (1 ∷ []) ∷ (9 ∷ []) ∷ [];
  prev_state = 3;
  new_state = 3;
  available_flips = 3;
  prev_stake = none;
  ignored_grades = false;
  reported_flips = [];
}

abbrev tables : Tables
tables = record {
  rewards_by_addr_and_type = [];
  rewarded_reported_flips_by_addr = [];
  flips_with_report_consensus_by_respondent = [];
  rewarded_flips = ("low", tt) ∷ [];
  rewarded_extra_flips = [];
}

calculate-AllExplained_example :
    AllExplained (is_penalized stats 1 7) (summaries_of calculator tables author)
    × (calculate_validation_reward_summaries calculator (some tables) author
        ≡ some (summaries_of calculator tables author, tables))
unfolding calculate_validation_reward_summaries
calculate-AllExplained_example = calculate-AllExplained calculator (some tables) author refl

abbrev own_flips : List (List ℕ)
own_flips = (1 ∷ []) ∷ (9 ∷ []) ∷ []

calculate_flips_amount_example :
    let s =
      calculate_flips_reward_summary rules none
        (some (pos 100))
        3
        own_flips
        (("low", tt) ∷ [])
        []
        false
        false
        true
        true in
    (s.earned ≡ none)
    × (s.missed
        ≡ some (
            pos 100
            *ℤ pos (
                if true && not true
                then required_flips - rewarded_count rules (("low", tt) ∷ []) own_flips
                else 3
                  - (rewarded_count rules (("low", tt) ∷ []) own_flips
                      + rewarded_count rules [] own_flips))))
unfolding lookup
calculate_flips_amount_example =
    calculate_flips_amount rules none (pos 100) 3 own_flips (("low", tt) ∷ []) [] false false true
      true (omega arith) (omega arith) (omega arith) (omega arith) (omega arith)

calculate_reports_amount_example :
    let s =
      calculate_reports_reward_summary none
        (pos 20)
        false
        true
        (("a", tt) ∷ [])
        (("b", tt) ∷ [])
        ("a" ∷ "b" ∷ []) in
    let n = unrewarded_count (("b", tt) ∷ []) ("a" ∷ "b" ∷ []) in
    (s.earned ≡ none)
    × (s.missed ≡ (if ltb 0 n then some (pos 20 *ℤ pos n) else none))
    × (s.missed_reason ≡ (
        if is_positive s.missed
        then some (
            if false
            then 1
            else if true && any_reported (("a", tt) ∷ []) ("a" ∷ "b" ∷ [])
            then 10
            else 5)
        else none))
calculate_reports_amount_example =
    calculate_reports_amount none (pos 20) false true (("a", tt) ∷ []) (("b", tt) ∷ [])
      ("a" ∷ "b" ∷ [])

abbrev invites : Map RewardType ℤ
invites = (2, pos 4) ∷ (7, pos 6) ∷ []

calculate_invites_amount_example :
    let by_invitations = calculate_invitations_reward_summary invites true in
    let as_invitee = calculate_invitee_reward_summary rules invites true 3 in
    (by_invitations.earned ≡ (
      if any_of invites invitation_reward_types
      then some (sum_of invites invitation_reward_types)
      else none))
    × (as_invitee.earned ≡ (
        if any_of invites invitee_reward_types
        then some (sum_of invites invitee_reward_types)
        else none))
    × (by_invitations.missed ≡ none)
    × (as_invitee.missed ≡ none)
calculate_invites_amount_example = calculate_invites_amount rules invites true 3

abbrev reward : ℕ → RewardStats
reward balance = record { address = 7; balance = some (pos balance); stake = none; reward_type = 2 }

rewards_table_example :
    reward_at 7 2 (rewards_by_addr_and_type (reward 4 ∷ reward 6 ∷ []) [])
    ≡ last_reward 7 2 (reward 4 ∷ reward 6 ∷ []) (reward_at 7 2 [])
rewards_table_example = rewards_table 7 2 (reward 4 ∷ reward 6 ∷ []) []
