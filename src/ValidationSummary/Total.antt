-- ===== src/ValidationSummary/Total.antt =====
-- `calculateValidationRewardSummaries`: the parts of one identity's summary together.
use Prim.Native.String.{String}
use idena_indexer.Base.{ℕ, ◌/◌, Bool, true, false, Option, none, some, List, []}
use idena_indexer.Base.Int.{ℤ, pos, negsuc}
use idena_indexer.Base.Eq.{number_key, string_key}
use idena_indexer.Base.Map.{Map, lookup}
use idena_indexer.Node.{Address}
use idena_indexer.ValidationSummary.Parts.{
  StringSet, Rules, ValidationRewardSummary, calculate_validation_reward_summary,
  calculate_candidate_reward_summary, calculate_staking_reward_summary,
  calculate_flips_reward_summary, calculate_extra_flips_reward_summary,
}
use idena_indexer.ValidationSummary.Reports.{
  RewardType, validation_type, flips_type, reported_flips_type, staking_type, candidate_type,
  extra_flips_type, calculate_invitations_reward_summary, calculate_invitee_reward_summary,
  calculate_reports_reward_summary,
}
use idena_indexer.ValidationSummary.Init.{
  RewardStats, ReportedFlipReward, ShardStats, rewards_by_addr_and_type,
  rewarded_reported_flips_by_addr, convert_rewarded_flips,
  flips_with_report_consensus_by_respondent,
}

-- `types.ValidationResults` of a shard: its bad authors, and whether each good author missed the
-- validation.
pub record ValidationResults : Type 0 where
  pub bad_authors : Map Address (Unit {0})
  pub good_authors : Map Address Bool

-- `stats.RewardsStats`, as far as the calculator reads it.
pub record RewardsStats : Type 0 where
  pub validation_results : Map ℕ ValidationResults
  pub validation_share : Option ℤ
  pub candidate_share : Option ℤ
  pub staking_share : Option ℤ
  pub flips_share : Option ℤ
  pub flips_extra_share : Option ℤ
  pub reports_share : Option ℤ
  pub rewards : List RewardStats
  pub rewarded_flip_cids : List String
  pub rewarded_extra_flip_cids : List String
  pub reported_flip_rewards : List ReportedFlipReward

-- What `init` fills.
pub record Tables : Type 0 where
  pub rewards_by_addr_and_type : Map Address (Map RewardType ℤ)
  pub rewarded_reported_flips_by_addr : Map String StringSet
  pub flips_with_report_consensus_by_respondent : Map Address (List String)
  pub rewarded_flips : StringSet
  pub rewarded_extra_flips : StringSet

-- The calculator's other fields. `shards` is empty where the validation statistics are nil.
pub record Calculator : Type 0 where
  pub rules : Rules
  pub grade_reported : ℕ
  pub convert_address : Address → String
  pub rewards_stats : RewardsStats
  pub shards : Map ℕ ShardStats
  pub enable_upgrade10 : Bool
  pub enable_upgrade11 : Bool

unfoldable pub init : Calculator → Option Tables
unfolding rewards_by_addr_and_type rewarded_reported_flips_by_addr convert_rewarded_flips
    flips_with_report_consensus_by_respondent
init c = elim (flips_with_report_consensus_by_respondent c.rules c.grade_reported c.shards []) [
  | none ↦ none
  | some consensus ↦ some (record {
    rewards_by_addr_and_type = rewards_by_addr_and_type c.rewards_stats.rewards [];
    rewarded_reported_flips_by_addr =
        rewarded_reported_flips_by_addr c.rewards_stats.reported_flip_rewards [];
    flips_with_report_consensus_by_respondent = consensus;
    rewarded_flips = convert_rewarded_flips c.rewards_stats.rewarded_flip_cids [];
    rewarded_extra_flips = convert_rewarded_flips c.rewards_stats.rewarded_extra_flip_cids [];
  })
]

-- The arguments of `calculateValidationRewardSummaries`.
pub record Identity : Type 0 where
  pub address : Address
  pub shard_id : ℕ
  pub age : ℕ
  pub identity_flips : List (List ℕ)
  pub prev_state : ℕ
  pub new_state : ℕ
  pub available_flips : ℕ
  pub prev_stake : Option ℤ
  pub ignored_grades : Bool
  pub reported_flips : StringSet

-- `db.ValidationRewardSummaries`.
pub record ValidationRewardSummaries : Type 0 where
  pub address : String
  pub prev_stake : Option ℤ
  pub validation : ValidationRewardSummary
  pub candidate : ValidationRewardSummary
  pub staking : ValidationRewardSummary
  pub flips : ValidationRewardSummary
  pub extra_flips : ValidationRewardSummary
  pub invitations : ValidationRewardSummary
  pub invitee : ValidationRewardSummary
  pub reports : ValidationRewardSummary

-- `big.Int.Div` by five: the quotient that leaves a remainder of zero or more.
unfoldable pub div_five : ℤ → ℤ
div_five (pos n) = pos (n / 5)
div_five (negsuc n) = negsuc (n / 5)

unfoldable pub reports_share_of : RewardsStats → ℤ
unfolding div_five
reports_share_of s = elim s.reports_share [
  | some share ↦ share
  | none ↦ div_five (elim s.flips_share [ some share ↦ share | none ↦ pos 0 ])
]

unfoldable pub is_penalized : RewardsStats → ℕ → Address → Bool
is_penalized s shard_id address = elim (lookup shard_id s.validation_results) [
  | none ↦ false
  | some results ↦ elim (lookup address results.bad_authors) [ none ↦ false | some _ ↦ true ]
]

unfoldable pub missed_validation_of : RewardsStats → ℕ → Address → Bool
missed_validation_of s shard_id address = elim (lookup shard_id s.validation_results) [
  | none ↦ false
  | some results ↦ elim (lookup address results.good_authors) [
    | none ↦ false
    | some missed ↦ missed
  ]
]

-- A lookup in a nil map, or of a missing key, gives an empty map.
unfoldable pub rewards_of : Tables → Address → Map RewardType ℤ
rewards_of t address = elim (lookup address t.rewards_by_addr_and_type) [ none ↦ [] | some m ↦ m ]

unfoldable pub summaries_of : Calculator → Tables → Identity → ValidationRewardSummaries
summaries_of c t i =
    let s = c.rewards_stats in
    let r = c.rules in
    let by_type = rewards_of t i.address in
    let penalized = is_penalized s i.shard_id i.address in
    let missed_validation = missed_validation_of s i.shard_id i.address in
    let address = c.convert_address i.address in
    let rewarded : StringSet = elim (lookup address t.rewarded_reported_flips_by_addr) [
      | none ↦ []
      | some m ↦ m
    ] in
    let consensus : List String =
      elim (lookup i.address t.flips_with_report_consensus_by_respondent) [
        | none ↦ []
        | some cids ↦ cids
      ] in
    record {
      address = address;
      prev_stake = i.prev_stake;
      validation =
          calculate_validation_reward_summary r (lookup validation_type by_type) i.new_state
            penalized i.age s.validation_share;
      candidate =
          calculate_candidate_reward_summary r (lookup candidate_type by_type) i.prev_state
            i.new_state penalized s.candidate_share;
      staking =
          calculate_staking_reward_summary r (lookup staking_type by_type) i.new_state penalized
            s.staking_share i.prev_stake;
      flips =
          calculate_flips_reward_summary r (lookup flips_type by_type) s.flips_share
            i.available_flips i.identity_flips t.rewarded_flips t.rewarded_extra_flips penalized
            missed_validation c.enable_upgrade10 c.enable_upgrade11;
      extra_flips =
          calculate_extra_flips_reward_summary r (lookup extra_flips_type by_type)
            s.flips_extra_share i.available_flips i.identity_flips t.rewarded_extra_flips penalized
            missed_validation i.prev_stake;
      invitations = calculate_invitations_reward_summary by_type penalized;
      invitee = calculate_invitee_reward_summary r by_type penalized i.new_state;
      reports =
          calculate_reports_reward_summary (lookup reported_flips_type by_type) (reports_share_of s)
            penalized i.ignored_grades i.reported_flips rewarded consensus;
    }

-- The tables are filled at the first call and kept; `none` is a fault of `init`.
unfoldable pub calculate_validation_reward_summaries :
    Calculator → Option Tables → Identity → Option (ValidationRewardSummaries × Tables)
calculate_validation_reward_summaries c (some t) i = some (summaries_of c t i, t)
calculate_validation_reward_summaries c none i = elim (init c) [
  | none ↦ none
  | some t ↦ some (summaries_of c t i, t)
]
