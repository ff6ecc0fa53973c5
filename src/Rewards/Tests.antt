-- ===== src/Rewards/Tests.antt =====
-- rewards.go: the bounds of the rewards of four identities.
use idena_indexer.Base.{length, if◌then◌else◌, ◌==◌, ◌≡◌, refl, none, some, List, [], ◌∷◌}
use idena_indexer.Base.Int.{pos}
use idena_indexer.Base.Eq.{number_key}
use idena_indexer.Base.Map.{Map, IsMap, lookup, insert, erase}
use idena_indexer.Rewards.{
  determine_reward_bound_type, is_nothing, widen, add_amount, add_if_bound, get_result,
}
use idena_indexer.Node.{Address}
use idena_indexer.Rewards.Delegatees.{
  Wrapper, RewardsByType, convert_delegatees_epoch_rewards, inc_penalized_delegators, row_at,
  IsIndexed,
}
use idena_indexer.Rewards.Penalties.{
  counted, row_of, convert_delegatees_epoch_rewards-IsIndexed, convert_delegatees_epoch_rewards_lem,
  inc_penalized_delegators_lem,
}
use idena_indexer.Rewards.Bounds.{Reward, AreBounds}
use idena_indexer.Rewards.Calls.{run, latest_first, bounds_of_rewards}

abbrev rewards : List Reward
rewards =
    record { address = 1; age = 9; amount = some (pos 40) }
    ∷ record { address = 2; age = 30; amount = some (pos 10) }
    ∷ record { address = 3; age = 2; amount = some (pos 0) }
    ∷ record { address = 4; age = 6; amount = some (pos 70) }
    ∷ []

oldest :
    get_result (run rewards [])
    ≡ record {
      bound_type = 6;
      min = record { amount = pos 10; address = 2 };
      max = record { amount = pos 70; address = 4 };
    }
      ∷ []
unfolding run add_if_bound is_nothing add_amount determine_reward_bound_type widen lookup insert
    erase get_result
oldest = refl

bounds_of_rewards_example : AreBounds 6 (latest_first rewards []) (lookup 6 (run rewards []))
bounds_of_rewards_example = bounds_of_rewards 6 rewards

-- Two delegatees, of whom the second has a reward of its own.
abbrev delegatees : Map Address (RewardsByType × Map Address RewardsByType)
delegatees = (8, ([], [])) ∷ (9, ((1, pos 5) ∷ [], [])) ∷ []

inc_penalized_delegators_lem_example :
    (w : Wrapper) × (inc_penalized_delegators 9 (convert_delegatees_epoch_rewards delegatees)
      ≡ some w)
    × IsIndexed w
    × ((a : Address)
        → row_at a w ≡ (
            if 9 == a
            then some (counted 9 (row_at 9 (convert_delegatees_epoch_rewards delegatees)))
            else row_at a (convert_delegatees_epoch_rewards delegatees)))
inc_penalized_delegators_lem_example =
    inc_penalized_delegators_lem 9 (convert_delegatees_epoch_rewards delegatees)
      (convert_delegatees_epoch_rewards-IsIndexed delegatees)

delegatees-IsMap : IsMap delegatees
unfolding lookup
delegatees-IsMap = (refl, (refl, tt))

convert_delegatees_epoch_rewards_lem_example :
    let w = convert_delegatees_epoch_rewards delegatees in
    IsIndexed w
    × (length w.rewards ≡ 2)
    × ((a : Address)
        → row_at a w ≡ (elim (lookup a delegatees) [ none ↦ none | some s ↦ some (row_of a s) ]))
convert_delegatees_epoch_rewards_lem_example =
    convert_delegatees_epoch_rewards_lem delegatees delegatees-IsMap
