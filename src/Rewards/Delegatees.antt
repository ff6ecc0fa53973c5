-- ===== src/Rewards/Delegatees.antt =====
-- indexer/context.go and indexer/delegatee_epoch_rewards.go: the rewards of the delegatees of an epoch,
-- in a list with an index by address.
use idena_indexer.Base.{
  ℕ, ◌+◌, ◌%◌, ◌^◌, ◌≡◌, Option, none, some, List, [], ◌∷◌, ◌++◌, length, get_elem?, set,
}
use idena_indexer.Base.Int.{ℤ}
use idena_indexer.Base.Eq.{number_key}
use idena_indexer.Base.Map.{Map, lookup, insert}
use idena_indexer.Node.{Address}

pub record DelegationEpochReward : Type 0 where
  pub balance : ℤ
  pub reward_type : ℕ

pub record DelegatorEpochReward : Type 0 where
  pub address : Address
  pub total_rewards : List DelegationEpochReward

pub record DelegateeEpochRewards : Type 0 where
  pub address : Address
  pub total_rewards : List DelegationEpochReward
  pub delegator_rewards : List DelegatorEpochReward
  pub penalized_delegators : ℕ

-- `delegateeEpochRewardsWrapper`
pub record Wrapper : Type 0 where
  pub rewards : List DelegateeEpochRewards
  pub indexes_by_delegatee : Map Address ℕ

abbrev pub new_wrapper : Wrapper
new_wrapper = record { rewards = []; indexes_by_delegatee = [] }

unfoldable pub append : DelegateeEpochRewards → Wrapper → Wrapper
append item w = record {
  rewards = w.rewards ++ item ∷ [];
  indexes_by_delegatee = insert item.address (length w.rewards) w.indexes_by_delegatee;
}

-- The counter is a `uint32`.
abbrev pub penalized : DelegateeEpochRewards → DelegateeEpochRewards
penalized r = record r { penalized_delegators = (r.penalized_delegators + 1) % 2 ^ 32 }

-- An index out of range is a panic, which is `none`.
unfoldable pub inc_penalized_delegators : Address → Wrapper → Option Wrapper
unfolding append
inc_penalized_delegators delegatee w = elim (lookup delegatee w.indexes_by_delegatee) [
  | none ↦ some (
      append
        (record {
          address = delegatee;
          total_rewards = [];
          delegator_rewards = [];
          penalized_delegators = 1;
        })
        w)
  | some i ↦ elim (get_elem? w.rewards i) [
    | none ↦ none
    | some r ↦ some (record w { rewards = set w.rewards i (penalized r) })
  ]
]

-- What the statistics hold of a delegatee: its rewards by type, and those of its delegators.
abbrev pub RewardsByType : Type 0
RewardsByType = Map ℕ ℤ

unfoldable pub convert_total : RewardsByType → List DelegationEpochReward
convert_total [] = []
convert_total ((t, balance) ∷ m) =
    record { balance = balance; reward_type = t % 2 ^ 8 } ∷ convert_total m

unfoldable pub convert_delegators : Map Address RewardsByType → List DelegatorEpochReward
unfolding convert_total
convert_delegators [] = []
convert_delegators ((a, m) ∷ ms) =
    record { address = a; total_rewards = convert_total m } ∷ convert_delegators ms

unfoldable pub convert_into :
    Map Address (RewardsByType × Map Address RewardsByType) → Wrapper → Wrapper
unfolding append convert_delegators
convert_into [] w = w
convert_into ((a, (total, delegators)) ∷ ms) w = convert_into ms (
    append
      (record {
        address = a;
        total_rewards = convert_total total;
        delegator_rewards = convert_delegators delegators;
        penalized_delegators = 0;
      })
      w)

unfoldable pub convert_delegatees_epoch_rewards :
    Map Address (RewardsByType × Map Address RewardsByType) → Wrapper
unfolding convert_into
convert_delegatees_epoch_rewards m = convert_into m new_wrapper

-- The row of a delegatee, by the index.
abbrev pub row_at : Address → Wrapper → Option DelegateeEpochRewards
row_at a w = elim (lookup a w.indexes_by_delegatee) [ none ↦ none | some i ↦ get_elem? w.rewards i ]

-- Each index is that of a row, and the row is of the address.
abbrev pub IsIndexed : Wrapper → Type 0
IsIndexed w =
    (a : Address) (i : ℕ)
    → lookup a w.indexes_by_delegatee ≡ some i
    → (r : DelegateeEpochRewards) × (get_elem? w.rewards i ≡ some r) × (r.address ≡ a)
