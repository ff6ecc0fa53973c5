-- ===== src/ValidationSummary/Init.antt =====
-- `init` of validation_summary.go: the tables that the calculator looks things up in.
use Prim.Native.String.{String}
use idena_indexer.Base.{
  ℕ, Option, none, some, List, [], ◌∷◌, get_elem?, ◌==◌ as nat_beq, if◌then◌else◌,
}
use idena_indexer.Base.Int.{ℤ, pos, ◌+ℤ◌}
use idena_indexer.Base.Eq.{number_key, string_key}
use idena_indexer.Base.Map.{Map, lookup, insert}
use idena_indexer.Node.{Address}
use idena_indexer.ValidationSummary.Parts.{StringSet, Rules}
use idena_indexer.ValidationSummary.Reports.{RewardType}

-- `stats.RewardStats`.
pub record RewardStats : Type 0 where
  pub address : Address
  pub balance : Option ℤ
  pub stake : Option ℤ
  pub reward_type : RewardType

-- `db.ReportedFlipReward`, as far as the tables read it.
pub record ReportedFlipReward : Type 0 where
  pub address : String
  pub cid : String

-- `statsTypes.ValidationStats` of one shard, as far as the tables read it: the grade of each flip by
-- its index, the flips' cids, and the indexes of the long flips that each identity had to solve.
pub record ShardStats : Type 0 where
  pub grades : Map ℕ ℕ
  pub flip_cids : List (List ℕ)
  pub long_flips_to_solve : Map Address (List ℕ)

unfoldable pub zero_if_nil : Option ℤ → ℤ
zero_if_nil none = pos 0
zero_if_nil (some x) = x

-- A missing inner map is made; a later reward of the same address and type replaces an earlier one.
unfoldable pub add_reward :
    RewardStats → Map Address (Map RewardType ℤ) → Map Address (Map RewardType ℤ)
unfolding zero_if_nil
add_reward reward m =
    let by_type : Map RewardType ℤ = elim (lookup reward.address m) [ none ↦ [] | some t ↦ t ] in
    insert reward.address
      (insert reward.reward_type (zero_if_nil reward.balance +ℤ zero_if_nil reward.stake) by_type) m

unfoldable pub rewards_by_addr_and_type :
    List RewardStats → Map Address (Map RewardType ℤ) → Map Address (Map RewardType ℤ)
unfolding add_reward
rewards_by_addr_and_type [] m = m
rewards_by_addr_and_type (reward ∷ rewards) m =
    rewards_by_addr_and_type rewards (add_reward reward m)

unfoldable pub rewarded_reported_flips_by_addr :
    List ReportedFlipReward → Map String StringSet → Map String StringSet
rewarded_reported_flips_by_addr [] m = m
rewarded_reported_flips_by_addr (reward ∷ rewards) m =
    let flips : StringSet = elim (lookup reward.address m) [ none ↦ [] | some t ↦ t ] in
    rewarded_reported_flips_by_addr rewards (insert reward.address (insert reward.cid tt flips) m)

-- `convertRewardedFlips`
unfoldable pub convert_rewarded_flips : List String → StringSet → StringSet
convert_rewarded_flips [] res = res
convert_rewarded_flips (cid ∷ cids) res = convert_rewarded_flips cids (insert cid tt res)

-- The flips of one identity with a consensus to report. A cid that does not parse is skipped; an
-- index beyond the cids is a fault, `none`.
unfoldable pub flips_with_report_consensus : Rules → ℕ → ShardStats → List ℕ → Option (List String)
flips_with_report_consensus r grade_reported shard [] = some []
flips_with_report_consensus r grade_reported shard (flip ∷ flips) =
    let rest = flips_with_report_consensus r grade_reported shard flips in
    elim (lookup flip shard.grades) [
      | none ↦ rest
      | some grade ↦
          if nat_beq grade grade_reported
          then elim (get_elem? shard.flip_cids flip) [
            | none ↦ none
            | some bytes ↦ elim rest [
              | none ↦ none
              | some cids ↦ elim (r.cid_text bytes) [
                | none ↦ some cids
                | some cid ↦ some (cid ∷ cids)
              ]
            ]
          ]
          else rest
    ]

unfoldable pub shard_consensus :
    Rules
    → ℕ
    → ShardStats
    → Map Address (List ℕ)
    → Map Address (List String)
    → Option (Map Address (List String))
unfolding flips_with_report_consensus
shard_consensus r grade_reported shard [] m = some m
shard_consensus r grade_reported shard ((address, flips) ∷ identities) m =
    elim (flips_with_report_consensus r grade_reported shard flips) [
      | none ↦ none
      | some cids ↦ shard_consensus r grade_reported shard identities (insert address cids m)
    ]

unfoldable pub flips_with_report_consensus_by_respondent :
    Rules → ℕ → Map ℕ ShardStats → Map Address (List String) → Option (Map Address (List String))
unfolding shard_consensus
flips_with_report_consensus_by_respondent r grade_reported [] m = some m
flips_with_report_consensus_by_respondent r grade_reported ((_, shard) ∷ shards) m =
    elim (shard_consensus r grade_reported shard shard.long_flips_to_solve m) [
      | none ↦ none
      | some m' ↦ flips_with_report_consensus_by_respondent r grade_reported shards m'
    ]
