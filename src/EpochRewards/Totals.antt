-- ===== src/EpochRewards/Totals.antt =====
-- collector.go, `addReward`, `addAddrTotalReward` and `addDelegateeReward`: what each of them changes in
-- the books that the others keep, and what it adds in its own.
use idena_indexer.Base.{
  ℕ, ◌≡◌, refl, sym, true, ◌&&◌, Option, none, some, arith, Bool-cases, inl, inr, Option-cases,
}
use idena_indexer.Base.Int.{ℤ, pos, ◌+ℤ◌}
use idena_indexer.Base.Eq.{◌==◌, number_key}
use idena_indexer.Base.Map.{Map, lookup, insert, lookup-insert}
use idena_indexer.Node.{Address}
use idena_indexer.EpochRewards.{
  RewardStats, RewardsStats, init_reward_stats, zero_or_nil, or_zero, put_reward, add_reward,
  add_addr_total_reward,
}
use idena_indexer.EpochRewards.Sums.{balances, stakes, when, +ℤ_zero, zero_+ℤ}
pub use idena_indexer.EpochRewards.Sums.{amount_of_nothing, when_zero}
use idena_indexer.EpochRewards.Put.{put_reward-cases}

sum_of_nothing :
    (b s : Option ℤ) → (zero_or_nil b && zero_or_nil s) ≡ true → or_zero b +ℤ or_zero s ≡ pos 0
sum_of_nothing b s h =
    rw (amount_of_nothing balances b s h, amount_of_nothing stakes b s h) (+ℤ_zero (pos 0))

-- `totalRewardsByAddr`
abbrev pub total_in : Address → Map Address ℤ → ℤ
total_in a m = or_zero (lookup a m)

put_reward-totals :
    (r : RewardStats) (st : RewardsStats)
    → (put_reward r st).total_rewards_by_addr ≡ st.total_rewards_by_addr
put_reward-totals r st =
    put_reward-cases (λ st'. st'.total_rewards_by_addr ≡ st.total_rewards_by_addr) r st (λ e. refl)
      (λ i e q. refl) (λ e q. refl)

put_reward-delegatees :
    (r : RewardStats) (st : RewardsStats)
    → (put_reward r st).delegatees_epoch_rewards ≡ st.delegatees_epoch_rewards
put_reward-delegatees r st =
    put_reward-cases (λ st'. st'.delegatees_epoch_rewards ≡ st.delegatees_epoch_rewards) r st
      (λ e. refl) (λ i e q. refl) (λ e q. refl)

module _ (a : Address) (b s : Option ℤ) (t : ℕ) (st : RewardsStats) where
  pub add_reward-totals : (add_reward a b s t st).total_rewards_by_addr ≡ st.total_rewards_by_addr
  unfolding add_reward init_reward_stats
  add_reward-totals = elim (Bool-cases (zero_or_nil b && zero_or_nil s)) [
    | inl e ↦ rw e refl
    | inr e ↦ rw e (
        put_reward-totals
          (record { address = a; balance = or_zero b; stake = or_zero s; reward_type = t })
          (init_reward_stats st))
  ]

  pub add_reward-delegatees :
      (add_reward a b s t st).delegatees_epoch_rewards ≡ st.delegatees_epoch_rewards
  unfolding add_reward init_reward_stats
  add_reward-delegatees = elim (Bool-cases (zero_or_nil b && zero_or_nil s)) [
    | inl e ↦ rw e refl
    | inr e ↦ rw e (
        put_reward-delegatees
          (record { address = a; balance = or_zero b; stake = or_zero s; reward_type = t })
          (init_reward_stats st))
  ]

module _ (a : Address) (b s : Option ℤ) (st : RewardsStats) where
  total_in-added :
      (j : Address)
      → total_in j (
          insert a
            (elim (lookup a st.total_rewards_by_addr) [
              | none ↦ or_zero b +ℤ or_zero s
              | some x ↦ x +ℤ (or_zero b +ℤ or_zero s)
            ])
            st.total_rewards_by_addr)
        ≡ total_in j st.total_rewards_by_addr +ℤ when (a == j) (or_zero b +ℤ or_zero s)
  total_in-added j =
      let reward = or_zero b +ℤ or_zero s in
      let was = total_in j st.total_rewards_by_addr in
      elim (Option-cases (lookup a st.total_rewards_by_addr)) [
        | inl e ↦ ground (
          arith,
          lookup-insert a j reward st.total_rewards_by_addr,
          zero_+ℤ reward,
          +ℤ_zero was,
          e,
        )
        | inr (x, e) ↦
            ground (arith, lookup-insert a j (x +ℤ reward) st.total_rewards_by_addr, +ℤ_zero was, e)
      ]

  pub total_in-add_addr_total_reward :
      (j : Address)
      → total_in j (add_addr_total_reward a b s st).total_rewards_by_addr
        ≡ total_in j st.total_rewards_by_addr +ℤ when (a == j) (or_zero b +ℤ or_zero s)
  unfolding add_addr_total_reward init_reward_stats
  total_in-add_addr_total_reward j =
      let was = total_in j st.total_rewards_by_addr in
      elim (Bool-cases (zero_or_nil b && zero_or_nil s)) [
        | inl e ↦ rw (e, sum_of_nothing b s e, when_zero (a == j)) (sym (+ℤ_zero was))
        | inr e ↦ rw (e, add_addr_total_reward) (total_in-added j)
      ]
