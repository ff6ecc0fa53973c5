-- ===== src/Rewards.antt =====
-- indexer/rewards.go: `rewardsBounds`, the least and the greatest reward of each class of age.
pub mod Bounds
pub mod Calls
pub mod Delegatees
pub mod Penalties
mod Tests
use idena_indexer.Base.{
  ℕ, Bool, true, false, ◌&&◌, not, Option, none, some, List, [], ◌∷◌, leb, ◌==◌, if◌then◌else◌,
}
use idena_indexer.Base.Int.{ℤ, pos, negsuc, ltb_ℤ}
use idena_indexer.Base.Eq.{number_key}
use idena_indexer.Base.Map.{Map, lookup, insert}
use idena_indexer.Node.{Address}

pub record RewardBound : Type 0 where
  pub amount : ℤ
  pub address : Address

pub record RewardBounds : Type 0 where
  pub bound_type : ℕ
  pub min : RewardBound
  pub max : RewardBound

-- `rewardBoundsByType`, nil as the empty map. The code changes an entry in place, which nothing else
-- points to.
abbrev pub RewardsBounds : Type 0
RewardsBounds = Map ℕ RewardBounds

unfoldable pub determine_reward_bound_type : ℕ → ℕ
determine_reward_bound_type age = if leb age 5 then age else 6

-- `amount == nil || amount.Sign() == 0`
unfoldable pub is_nothing : Option ℤ → Bool
is_nothing none = true
is_nothing (some (pos n)) = n == 0
is_nothing (some (negsuc n)) = false

unfoldable pub widen : Address → ℤ → RewardBounds → RewardBounds
widen address amount b = record {
  bound_type = b.bound_type;
  min = if ltb_ℤ amount b.min.amount then record { amount = amount; address = address } else b.min;
  max = if ltb_ℤ b.max.amount amount then record { amount = amount; address = address } else b.max;
}

unfoldable pub add_amount : Address → ℕ → ℤ → RewardsBounds → RewardsBounds
unfolding determine_reward_bound_type widen
add_amount address age amount m =
    let bound_type = determine_reward_bound_type age in
    elim (lookup bound_type m) [
      | none ↦
          insert bound_type
            (record {
              bound_type = bound_type;
              min = record { amount = amount; address = address };
              max = record { amount = amount; address = address };
            })
            m
      | some b ↦ insert bound_type (widen address amount b) m
    ]

unfoldable pub add_if_bound : Address → ℕ → Option ℤ → RewardsBounds → RewardsBounds
unfolding is_nothing add_amount
add_if_bound address age none m = m
add_if_bound address age (some amount) m =
    if is_nothing (some amount) then m else add_amount address age amount m

unfoldable pub get_result : RewardsBounds → List RewardBounds
get_result [] = []
get_result ((t, b) ∷ m) = b ∷ get_result m
