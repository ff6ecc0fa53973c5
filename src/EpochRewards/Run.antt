-- ===== src/EpochRewards/Run.antt =====
-- collector.go: the calls on the rewards of an epoch as a sequence, and whom each of them pays.
use idena_indexer.Base.{ℕ, Bool, true, false, Option, none, some, List, [], ◌∷◌}
use idena_indexer.Base.Int.{ℤ}
use idena_indexer.Node.{Address, Hash}
use idena_indexer.EpochRewards.{
  RewardsStats, validation_reward, flips_reward, extra_flips_reward, reported_flips_reward,
  candidate_reward, staking_reward, foundation_payouts, zero_wallet_fund,
}
use idena_indexer.EpochRewards.Calls.{
  Env, add_validation_reward, add_candidate_reward, add_staking_reward, add_flips_basic_reward,
  add_flips_extra_reward, add_reported_flips_reward, determine_invitee_reward_type,
  add_invitee_reward, determine_invitations_reward_type, add_invitations_reward,
  add_foundation_payout, add_zero_wallet_fund, add_non_validated_stake,
}

-- The methods of the collector that report the rewards, with their arguments.
pub data Call : Type 0 where
  validation : Address → Address → ℕ → Option ℤ → Option ℤ → Call
  candidate : Address → Address → Option ℤ → Option ℤ → Call
  staking : Address → Address → Option ℤ → Option ℤ → Option ℤ → Call
  flips_basic : Address → Address → Option ℤ → Option ℤ → List (List ℕ) → Call
  flips_extra : Address → Address → Option ℤ → Option ℤ → List (List ℕ) → Call
  reported_flips : Address → Address → ℕ → ℤ → Option ℤ → Option ℤ → Call
  invitee : Address → Option ℤ → ℕ → Hash → ℕ → Call
  invitations : Address → Address → Option ℤ → Option ℤ → ℕ → Option Hash → ℕ → Bool → Call
  foundation_payout : Address → Option ℤ → Call
  zero_wallet : Address → Option ℤ → Call
  non_validated_stake : Address → Option ℤ → Call

-- `none` is a panic.
abbrev pub apply : Env → Call → RewardsStats → Option RewardsStats
apply env (validation bd sd age b s) st = some (add_validation_reward env bd sd age b s st)
apply env (candidate bd sd b s) st = some (add_candidate_reward bd sd b s st)
apply env (staking bd sd staked b s) st = some (add_staking_reward env bd sd staked b s st)
apply env (flips_basic bd sd b s flips) st = some (add_flips_basic_reward env bd sd b s flips st)
apply env (flips_extra bd sd b s flips) st = some (add_flips_extra_reward env bd sd b s flips st)
apply env (reported_flips bd sd shard i b s) st = add_reported_flips_reward env bd sd shard i b s st
apply env (invitee a s age h height) st = add_invitee_reward env a s age h height st
apply env (invitations bd sd b s age h height winner) st =
    some (add_invitations_reward env bd sd b s age h height winner st)
apply env (foundation_payout a b) st = some (add_foundation_payout a b st)
apply env (zero_wallet a b) st = some (add_zero_wallet_fund a b st)
apply env (non_validated_stake a s) st = some (add_non_validated_stake env a s st)

unfoldable pub run : Env → List Call → RewardsStats → Option RewardsStats
run env [] st = some st
run env (c ∷ cs) st = elim (apply env c st) [ none ↦ none | some st' ↦ run env cs st' ]

-- Whom a call pays, by what type and how much; `counted` says whether it is one of the rewards that
-- `totalRewardsByAddr` is for.
pub record Transfer : Type 0 where
  pub balance_dest : Address
  pub stake_dest : Address
  pub reward_type : ℕ
  pub balance : Option ℤ
  pub stake : Option ℤ
  pub counted : Bool

abbrev transfer : Address → Address → ℕ → Option ℤ → Option ℤ → Bool → Transfer
transfer bd sd t b s counted = record {
  balance_dest = bd;
  stake_dest = sd;
  reward_type = t;
  balance = b;
  stake = s;
  counted = counted;
}

-- `none` where a call pays nobody: its type is not determined, or it is not about a reward.
abbrev pub transfer_of : Call → Option Transfer
transfer_of (validation bd sd age b s) = some (transfer bd sd validation_reward b s true)
transfer_of (candidate bd sd b s) = some (transfer bd sd candidate_reward b s true)
transfer_of (staking bd sd staked b s) = some (transfer bd sd staking_reward b s true)
transfer_of (flips_basic bd sd b s flips) = some (transfer bd sd flips_reward b s true)
transfer_of (flips_extra bd sd b s flips) = some (transfer bd sd extra_flips_reward b s true)
transfer_of (reported_flips bd sd shard i b s) =
    some (transfer bd sd reported_flips_reward b s true)
transfer_of (invitee a s age h height) = elim (determine_invitee_reward_type age) [
  | none ↦ none
  | some t ↦ some (transfer a a t none s true)
]
transfer_of (invitations bd sd b s age h height winner) =
    elim (determine_invitations_reward_type age winner) [
      | none ↦ none
      | some t ↦ some (transfer bd sd t b s true)
    ]
transfer_of (foundation_payout a b) = some (transfer a a foundation_payouts b none false)
transfer_of (zero_wallet a b) = some (transfer a a zero_wallet_fund b none false)
transfer_of (non_validated_stake a s) = none
