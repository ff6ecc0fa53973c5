-- ===== src/EpochRewards/Put.antt =====
-- collector.go, `addReward` from the test of zero amounts on: the pointers stay right, and the entry's
-- amounts are added to those of its address and type.
use idena_indexer.Base.{
  ℕ, ◌≡◌, ap, ◌∙◌, sym, subst, true, false, ◌&&◌, none, some, [], ◌∷◌, ◌++◌, arith, length,
  get_elem?, Bool-cases, inl, inr, Option-cases,
}
use idena_indexer.Base.Int.{◌+ℤ◌}
use idena_indexer.Base.Eq.{◌==◌, number_key}
use idena_indexer.Node.{Address}
use idena_indexer.EpochRewards.{
  RewardStats, RewardsStats, increase_at, pointer_at, set_pointer, is_accumulated, put_reward,
  increase_epoch_reward_if_exists,
}
use idena_indexer.EpochRewards.Sums.{
  Part, part, is_for, sum_for, when, sum_for-append, sum_for-increase_at,
}
use idena_indexer.EpochRewards.Pointers.{
  IsIndexed, key_at, key_at-increase_at, key_at-append_end, key_at-append_some, key_at-append_one,
  pointer_at-set_pointer,
}

-- The three ways a reward is put down.
abbrev appended : RewardStats → RewardsStats → RewardsStats
appended r st = record st { rewards = st.rewards ++ r ∷ [] }

abbrev raised_at : ℕ → RewardStats → RewardsStats → RewardsStats
raised_at i r st = record st { rewards = increase_at i r.balance r.stake st.rewards }

abbrev registered : RewardStats → RewardsStats → RewardsStats
registered r st = record st {
  rewards = st.rewards ++ r ∷ [];
  epoch_rewards_by_type_and_addr =
      set_pointer r.reward_type r.address (length st.rewards) st.epoch_rewards_by_type_and_addr;
}

-- What holds of the three, each where it is taken, holds of the reward put down.
pub put_reward-cases :
    (P : RewardsStats → Type 0) (r : RewardStats) (st : RewardsStats)
    → (is_accumulated r.reward_type ≡ false → P (appended r st))
    → ((i : ℕ)
        → is_accumulated r.reward_type ≡ true
        → pointer_at r.reward_type r.address st.epoch_rewards_by_type_and_addr ≡ some i
        → P (raised_at i r st))
    → (is_accumulated r.reward_type ≡ true
        → pointer_at r.reward_type r.address st.epoch_rewards_by_type_and_addr ≡ none
        → P (registered r st))
    → P (put_reward r st)
unfolding put_reward increase_epoch_reward_if_exists
put_reward-cases P r st f g h = elim (Bool-cases (is_accumulated r.reward_type)) [
  | inr e ↦ rw e (f e)
  | inl e ↦
      elim (Option-cases (pointer_at r.reward_type r.address st.epoch_rewards_by_type_and_addr)) [
        | inl q ↦ rw (e, q) (h e q)
        | inr (i, q) ↦ rw (e, q) (g i e q)
      ]
]

appended-IsIndexed :
    (r : RewardStats) (st : RewardsStats)
    → is_accumulated r.reward_type ≡ false
    → IsIndexed st
    → IsIndexed (appended r st)
appended-IsIndexed r st e h = record {
  points = λ t a i p. key_at-append_some st.rewards r i (t, a) (h.points t a i p);
  pointed = λ t a i c k. elim (key_at-append_one st.rewards r i (t, a) k) [
    | inl old ↦ h.pointed t a i c old
    | inr (last, same) ↦ ground (arith)
  ];
}

raised_at-IsIndexed :
    (i : ℕ) (r : RewardStats) (st : RewardsStats) → IsIndexed st → IsIndexed (raised_at i r st)
raised_at-IsIndexed j r st h = record {
  points = λ t a i p. key_at-increase_at j r.balance r.stake st.rewards i ∙ h.points t a i p;
  pointed = λ t a i c k.
      h.pointed t a i c (sym (key_at-increase_at j r.balance r.stake st.rewards i) ∙ k);
}

registered-points :
    (r : RewardStats) (st : RewardsStats)
    → IsIndexed st
    → (t : ℕ) (a : Address) (i : ℕ)
    → pointer_at t a (registered r st).epoch_rewards_by_type_and_addr ≡ some i
    → key_at (registered r st).rewards i ≡ some (t, a)
registered-points r st h t a i p =
    let law =
      pointer_at-set_pointer r.reward_type r.address (length st.rewards) t a
        st.epoch_rewards_by_type_and_addr in
    elim (Bool-cases (r.reward_type == t && r.address == a)) [
      | inl e ↦
          let last : length st.rewards ≡ i = ground (arith, law) in
          let same : (r.reward_type, r.address) ≡ (t, a) = ground arith in
          subst (λ j. key_at (st.rewards ++ r ∷ []) j ≡ some (t, a)) last
            (key_at-append_end st.rewards r ∙ ap some same)
      | inr e ↦ key_at-append_some st.rewards r i (t, a) (h.points t a i (ground (arith, law)))
    ]

registered-IsIndexed :
    (r : RewardStats) (st : RewardsStats)
    → pointer_at r.reward_type r.address st.epoch_rewards_by_type_and_addr ≡ none
    → IsIndexed st
    → IsIndexed (registered r st)
registered-IsIndexed r st e h = record {
  points = λ t a i p. registered-points r st h t a i p;
  pointed = λ t a i c k. elim (key_at-append_one st.rewards r i (t, a) k) [
    | inl old ↦ ground (
      arith,
      pointer_at-set_pointer r.reward_type r.address (length st.rewards) t a
          st.epoch_rewards_by_type_and_addr,
      h.pointed t a i c old,
      e,
    )
    | inr (last, same) ↦ ground (
      arith,
      pointer_at-set_pointer r.reward_type r.address (length st.rewards) t a
          st.epoch_rewards_by_type_and_addr,
    )
  ];
}

pub put_reward-IsIndexed :
    (r : RewardStats) (st : RewardsStats) → IsIndexed st → IsIndexed (put_reward r st)
put_reward-IsIndexed r st h =
    put_reward-cases IsIndexed r st (λ e. appended-IsIndexed r st e h)
      (λ i e q. raised_at-IsIndexed i r st h) (λ e q. registered-IsIndexed r st q h)

sum_for-raised_at :
    (p : Part) (t : ℕ) (a : Address) (i : ℕ) (r : RewardStats) (st : RewardsStats)
    → key_at st.rewards i ≡ some (r.reward_type, r.address)
    → sum_for p t a (raised_at i r st).rewards
      ≡ sum_for p t a st.rewards +ℤ when (is_for t a r) (part p r)
sum_for-raised_at p t a i r st h = elim (Option-cases (get_elem? st.rewards i)) [
  | inl e ↦ ground arith
  | inr (x, e) ↦
      let same : ◌≡◌ {A = ℕ × Address} (x.reward_type, x.address) (r.reward_type, r.address) =
        ground arith in
      subst
        (λ k.
          sum_for p t a (increase_at i r.balance r.stake st.rewards)
          ≡ sum_for p t a st.rewards +ℤ when (k.0 == t && k.1 == a) (part p r))
        same (sum_for-increase_at p t a r.balance r.stake st.rewards i x e)
]

pub sum_for-put_reward :
    (p : Part) (t : ℕ) (a : Address) (r : RewardStats) (st : RewardsStats)
    → IsIndexed st
    → sum_for p t a (put_reward r st).rewards
      ≡ sum_for p t a st.rewards +ℤ when (is_for t a r) (part p r)
sum_for-put_reward p t a r st h =
    put_reward-cases
      (λ st'.
        sum_for p t a st'.rewards ≡ sum_for p t a st.rewards +ℤ when (is_for t a r) (part p r))
      r st (λ e. sum_for-append p t a st.rewards r)
      (λ i e q. sum_for-raised_at p t a i r st (h.points r.reward_type r.address i q))
      (λ e q. sum_for-append p t a st.rewards r)
