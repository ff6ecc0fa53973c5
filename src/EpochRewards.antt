-- ===== src/EpochRewards.antt =====
-- core/stats/collector.go: the rewards of an epoch, as idena-go reports them call by call.
pub mod Calls
pub mod Sums
mod Tests
mod Pointers
mod Put
mod Totals
mod DelegateeBooks
pub mod Run
mod Posted
mod Books
mod Apply
pub mod Paid
pub mod Collected
pub mod Summary
use Prim.Native.String.{String}
use idena_indexer.Base.{
  ℕ, ◌+◌, Bool, true, false, ◌&&◌, ◌||◌, not, Option, none, some, List, [], ◌∷◌, ◌++◌, ◌==◌,
  if◌then◌else◌, length, get_elem?, set,
}
use idena_indexer.Base.Int.{ℤ, pos, negsuc, ◌+ℤ◌}
use idena_indexer.Base.Eq.{number_key, string_key}
use idena_indexer.Base.Map.{Map, lookup, insert}
use idena_indexer.Node.{Address, Hash}
pub use idena_indexer.Base.Amounts.{zero_or_nil, or_zero}

pub record RewardStats : Type 0 where
  pub address : Address
  pub balance : ℤ
  pub stake : ℤ
  pub reward_type : ℕ

pub record EpochReward : Type 0 where
  pub balance : ℤ
  pub stake : ℤ

-- `DelegateeEpochRewards`; `DelegatorEpochRewards` is its one field.
pub record DelegateeEpochRewards : Type 0 where
  pub total_rewards : Map ℕ EpochReward
  pub delegators_epoch_rewards : Map Address (Map ℕ EpochReward)

pub record ReportedFlipReward : Type 0 where
  pub address : String
  pub balance : ℤ
  pub stake : ℤ
  pub cid : String

pub record RewardedInvite : Type 0 where
  pub tx_hash : String
  pub reward_type : ℕ
  pub epoch_height : ℕ

pub record RewardedInvitee : Type 0 where
  pub tx_hash : String
  pub epoch_height : ℕ

-- The part of `RewardsStats` that the calls fill, and `epochRewardsByTypeAndAddr` of `pending`. A pointer
-- of that map is to an entry of `rewards`, so it is the entry's position. A nil map is the empty one;
-- `exists` says whether `RewardsStats` is there. The collector writes into the numbers of the first call
-- for an address and type, so each call is taken to bring numbers of its own.
pub record RewardsStats : Type 0 where
  pub exists : Bool
  pub rewards : List RewardStats
  pub epoch_rewards_by_type_and_addr : Map ℕ (Map Address ℕ)
  pub total_rewards_by_addr : Map Address ℤ
  pub delegatees_epoch_rewards : Map Address DelegateeEpochRewards
  pub ages_by_address : Map String ℕ
  pub staked_amounts_by_address : Map String ℤ
  pub failed_staked_amounts_by_address : Map String ℤ
  pub rewarded_flip_cids : List String
  pub rewarded_extra_flip_cids : List String
  pub reported_flip_rewards : List ReportedFlipReward
  pub rewarded_invites : List RewardedInvite
  pub rewarded_invitees : List RewardedInvitee
  pub saved_invite_rewards_count : Map Address (Map ℕ ℕ)

abbrev pub validation_reward : ℕ
validation_reward = 0

abbrev pub flips_reward : ℕ
flips_reward = 1

abbrev pub invitations_reward : ℕ
invitations_reward = 2

abbrev pub foundation_payouts : ℕ
foundation_payouts = 3

abbrev pub zero_wallet_fund : ℕ
zero_wallet_fund = 4

abbrev pub invitations2_reward : ℕ
invitations2_reward = 5

abbrev pub invitations3_reward : ℕ
invitations3_reward = 6

abbrev pub saved_invite : ℕ
saved_invite = 7

abbrev pub saved_invite_win : ℕ
saved_invite_win = 8

abbrev pub reported_flips_reward : ℕ
reported_flips_reward = 9

abbrev pub staking_reward : ℕ
staking_reward = 10

abbrev pub candidate_reward : ℕ
candidate_reward = 11

abbrev pub extra_flips_reward : ℕ
extra_flips_reward = 12

unfoldable pub init_reward_stats : RewardsStats → RewardsStats
init_reward_stats st = record st { exists = true }

-- The types whose rewards to one address are put together.
unfoldable pub is_accumulated : ℕ → Bool
is_accumulated t =
    t == invitations_reward
    || t == invitations2_reward
    || t == invitations3_reward
    || t == saved_invite
    || t == saved_invite_win
    || t == reported_flips_reward
    || t == flips_reward
    || t == extra_flips_reward
    || t == validation_reward

abbrev pub pointer_at : ℕ → Address → Map ℕ (Map Address ℕ) → Option ℕ
pointer_at t a m = elim (lookup t m) [ none ↦ none | some by_addr ↦ lookup a by_addr ]

abbrev pub set_pointer : ℕ → Address → ℕ → Map ℕ (Map Address ℕ) → Map ℕ (Map Address ℕ)
set_pointer t a i m =
    insert t (insert a i (elim (lookup t m) [ none ↦ [] | some by_addr ↦ by_addr ])) m

-- `reward.Balance.Add`, `reward.Stake.Add` at a position of the list.
unfoldable pub increase_at : ℕ → ℤ → ℤ → List RewardStats → List RewardStats
increase_at i balance stake rewards = elim (get_elem? rewards i) [
  | none ↦ rewards
  | some r ↦ set rewards i (record r { balance = r.balance +ℤ balance; stake = r.stake +ℤ stake })
]

-- The new state, and whether the reward went into one that was there. Where not, the caller appends it,
-- and the pointer is to where.
unfoldable pub increase_epoch_reward_if_exists : RewardStats → RewardsStats → Bool × RewardsStats
unfolding is_accumulated increase_at
increase_epoch_reward_if_exists r st =
    if not (is_accumulated r.reward_type)
    then (false, st)
    else elim (pointer_at r.reward_type r.address st.epoch_rewards_by_type_and_addr) [
      | some i ↦ (true, record st { rewards = increase_at i r.balance r.stake st.rewards })
      | none ↦ (
        false,
        record st {
          epoch_rewards_by_type_and_addr =
              set_pointer r.reward_type r.address (length st.rewards)
                st.epoch_rewards_by_type_and_addr;
        },
      )
    ]

unfoldable pub put_reward : RewardStats → RewardsStats → RewardsStats
unfolding increase_epoch_reward_if_exists
put_reward r st =
    let (found, st') = increase_epoch_reward_if_exists r st in
    if found then st' else record st' { rewards = st'.rewards ++ r ∷ [] }

unfoldable pub add_reward : Address → Option ℤ → Option ℤ → ℕ → RewardsStats → RewardsStats
unfolding put_reward init_reward_stats
add_reward addr balance stake t st =
    if zero_or_nil balance && zero_or_nil stake
    then st
    else put_reward
        (record {
          address = addr;
          balance = or_zero balance;
          stake = or_zero stake;
          reward_type = t;
        })
        (init_reward_stats st)

unfoldable pub add_addr_total_reward : Address → Option ℤ → Option ℤ → RewardsStats → RewardsStats
unfolding init_reward_stats
add_addr_total_reward addr balance stake st =
    if zero_or_nil balance && zero_or_nil stake
    then st
    else (let reward = or_zero balance +ℤ or_zero stake in
        record (init_reward_stats st) {
          total_rewards_by_addr =
              insert addr
                (elim (lookup addr st.total_rewards_by_addr) [
                  | none ↦ reward
                  | some amount ↦ amount +ℤ reward
                ])
                st.total_rewards_by_addr;
        })

-- An entry by type, raised from what is there or from zero.
unfoldable pub add_epoch_reward : ℕ → ℤ → ℤ → Map ℕ EpochReward → Map ℕ EpochReward
add_epoch_reward t balance stake m =
    let r : EpochReward = elim (lookup t m) [
      | none ↦ record { balance = pos 0; stake = pos 0 }
      | some r ↦ r
    ] in
    insert t (record { balance = r.balance +ℤ balance; stake = r.stake +ℤ stake }) m

unfoldable pub add_to_delegatee :
    Address → ℤ → ℤ → ℕ → DelegateeEpochRewards → DelegateeEpochRewards
unfolding add_epoch_reward
add_to_delegatee delegator balance stake t d = record {
  total_rewards = add_epoch_reward t balance stake d.total_rewards;
  delegators_epoch_rewards =
      insert delegator
        (add_epoch_reward t balance stake
          (elim (lookup delegator d.delegators_epoch_rewards) [ none ↦ [] | some m ↦ m ]))
        d.delegators_epoch_rewards;
}

unfoldable pub add_delegatee_reward :
    Address → Address → Option ℤ → Option ℤ → ℕ → RewardsStats → RewardsStats
unfolding add_to_delegatee init_reward_stats
add_delegatee_reward delegator delegatee balance stake t st =
    if zero_or_nil balance && zero_or_nil stake
    then st
    else (let d : DelegateeEpochRewards = elim (lookup delegatee st.delegatees_epoch_rewards) [
      | none ↦ record { total_rewards = []; delegators_epoch_rewards = [] }
      | some d ↦ d
    ] in
        record (init_reward_stats st) {
          delegatees_epoch_rewards =
              insert delegatee (add_to_delegatee delegator (or_zero balance) (or_zero stake) t d)
                st.delegatees_epoch_rewards;
        })
