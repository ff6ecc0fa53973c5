-- ===== src/EpochRewards/Tests.antt =====
-- The rewards of an epoch on concrete calls.
use idena_indexer.Base.{ℕ, zero, ◌≡◌, ◌↔◌, refl, true, false, none, some, List, [], ◌∷◌}
use idena_indexer.Base.Int.{pos, ◌+ℤ◌}
use idena_indexer.Base.Map.{lookup, insert, erase}
use idena_indexer.Node.{Address}
use idena_indexer.EpochRewards.{
  RewardsStats, increase_at, increase_epoch_reward_if_exists, put_reward, add_reward,
  init_reward_stats, is_accumulated, add_addr_total_reward,
}
use idena_indexer.EpochRewards.Calls.{
  Env, determine_invitee_reward_type, determine_invitations_reward_type, credit,
  add_flips_basic_reward, add_rewarded_flips, add_rewarded_extra_flips,
}
use idena_indexer.EpochRewards.Run.{
  Call, run, validation, flips_basic, reported_flips, invitee, invitations, foundation_payout,
}
use idena_indexer.EpochRewards.Sums.{Part, balances, stakes, sum_for}
use idena_indexer.EpochRewards.Totals.{total_in}
use idena_indexer.EpochRewards.DelegateeBooks.{received, delegated}
use idena_indexer.EpochRewards.Paid.{summed, paid, earned, collected, handed_over}
use idena_indexer.Base.{if◌then◌else◌}
use idena_indexer.ValidationSummary.{rewards_by_addr_and_type}
use idena_indexer.ValidationSummary.Amounts.{reward_at}
use idena_indexer.EpochRewards.Summary.{as_rows, has_reward, run-rewards_table}
use idena_indexer.EpochRewards.Collected.{
  empty_stats, any_panics, run-none_iff, run-pays, run-earns, run-hands_over, run-one_row,
}

abbrev env : Env
env = record {
  convert_address = λ a. "0x1";
  convert_hash = λ h. "0x2";
  cid_string = λ c. "cid";
  enable_upgrade11 = true;
  validation_stats = none;
}

-- Address 1 is delegated to pool 9; address 2 is on its own.
abbrev calls : List Call
calls =
    validation 9 1 3 (some (pos 10)) (some (pos 4))
    ∷ flips_basic 9 1 (some (pos 5)) (some (pos 2)) []
    ∷ flips_basic 9 1 (some (pos 6)) (some (pos 3)) []
    ∷ invitations 2 2 (some (pos 7)) none 1 none 0 false
    ∷ invitee 2 (some (pos 8)) 2 zero 0
    ∷ foundation_payout 2 (some (pos 100))
    ∷ []

calls-return : any_panics env calls ≡ false
unfolding any_panics
calls-return = refl

run-pays_example :
    (st : RewardsStats) × (run env calls empty_stats ≡ some st)
    × ((p : Part) (t : ℕ) (a : Address) → sum_for p t a st.rewards ≡ summed (paid p t a) calls)
run-pays_example = run-pays env calls calls-return

run-earns_example :
    (st : RewardsStats) × (run env calls empty_stats ≡ some st)
    × ((a : Address) → total_in a st.total_rewards_by_addr ≡ summed (earned a) calls)
run-earns_example = run-earns env calls calls-return

run-hands_over_example :
    (st : RewardsStats) × (run env calls empty_stats ≡ some st)
    × ((p : Part) (t : ℕ) (d : Address) → received p t d st ≡ summed (collected p t d) calls)
    × ((p : Part) (t : ℕ) (g d : Address)
        → delegated p t g d st ≡ summed (handed_over p t g d) calls)
run-hands_over_example = run-hands_over env calls calls-return

-- What the sums come to.
flips_paid : summed (paid stakes 1 1) calls ≡ pos 5
unfolding summed ◌+ℤ◌ determine_invitee_reward_type determine_invitations_reward_type
flips_paid = refl

earned_by_2 : summed (earned 2) calls ≡ pos 15
unfolding summed ◌+ℤ◌ determine_invitee_reward_type determine_invitations_reward_type
earned_by_2 = refl

collected_by_pool : summed (collected balances 1 9) calls ≡ pos 11
unfolding summed ◌+ℤ◌ determine_invitee_reward_type determine_invitations_reward_type
collected_by_pool = refl

abbrev odd_calls : List Call
odd_calls =
    foundation_payout 2 (some (pos 100)) ∷ reported_flips 1 1 1 (pos 0) (some (pos 8)) none ∷ []

run-none_iff_example : (run env odd_calls empty_stats ≡ none) ↔ (any_panics env odd_calls ≡ true)
run-none_iff_example = run-none_iff env odd_calls empty_stats

abbrev two_flips : List Call
two_flips =
    flips_basic 1 1 (some (pos 5)) (some (pos 2)) []
    ∷ flips_basic 1 1 (some (pos 6)) (some (pos 3)) []
    ∷ []

abbrev flips_stats : RewardsStats
flips_stats = record empty_stats {
  exists = true;
  rewards = record { address = 1; balance = pos 11; stake = pos 5; reward_type = 1 } ∷ [];
  epoch_rewards_by_type_and_addr = (1, (1, 0) ∷ []) ∷ [];
  total_rewards_by_addr = (1, pos 16) ∷ [];
}

two_flips-run : run env two_flips empty_stats ≡ some flips_stats
unfolding run add_flips_basic_reward credit add_reward init_reward_stats is_accumulated increase_at
    increase_epoch_reward_if_exists put_reward add_addr_total_reward add_rewarded_flips
    add_rewarded_extra_flips lookup insert erase ◌+ℤ◌
two_flips-run = refl

run-one_row_example : ◌≡◌ {A = ℕ} 0 0
unfolding is_accumulated
run-one_row_example = run-one_row env two_flips flips_stats two_flips-run 1 1 0 0 refl refl refl

run-rewards_table_example :
    reward_at 1 1 (rewards_by_addr_and_type (as_rows flips_stats.rewards) []) ≡ (
      if has_reward 1 1 flips_stats.rewards
      then some (summed (paid balances 1 1) two_flips +ℤ summed (paid stakes 1 1) two_flips)
      else none)
unfolding is_accumulated
run-rewards_table_example = run-rewards_table env two_flips flips_stats two_flips-run 1 1 refl

in_the_table :
    (if has_reward 1 1 flips_stats.rewards
      then some (summed (paid balances 1 1) two_flips +ℤ summed (paid stakes 1 1) two_flips)
      else none)
    ≡ some (pos 16)
unfolding has_reward summed ◌+ℤ◌
in_the_table = refl
