-- ===== src/EpochRewards/Posted.antt =====
-- collector.go: what each of the calls does to the books, told by whom it pays.
use idena_indexer.Base.{
  ℕ, ◌≡◌, refl, ap, ◌∙◌, sym, Bool, true, false, ◌&&◌, not, Option, none, arith, Bool-cases, inl,
  inr,
}
use idena_indexer.Base.Int.{ℤ, pos, ◌+ℤ◌}
use idena_indexer.Base.Eq.{◌==◌, number_key}
use idena_indexer.Node.{Address}
use idena_indexer.EpochRewards.{
  RewardsStats, init_reward_stats, zero_or_nil, or_zero, add_reward, add_addr_total_reward,
  add_delegatee_reward,
}
use idena_indexer.EpochRewards.Calls.{credit}
use idena_indexer.EpochRewards.Sums.{Part, amount, when, +ℤ_zero}
use idena_indexer.EpochRewards.Totals.{
  total_in, add_reward-totals, add_reward-delegatees, total_in-add_addr_total_reward,
}
use idena_indexer.EpochRewards.DelegateeBooks.{
  received, delegated, received-add_delegatee_reward, delegated-add_delegatee_reward, totals_in,
  delegator_in, epoch_amount,
}
use idena_indexer.EpochRewards.Run.{Transfer}

-- The four books are the same.
pub record SameBooks (st st' : RewardsStats) : Type 0 where
  pub rewards : st'.rewards ≡ st.rewards
  pub pointers : st'.epoch_rewards_by_type_and_addr ≡ st.epoch_rewards_by_type_and_addr
  pub totals : st'.total_rewards_by_addr ≡ st.total_rewards_by_addr
  pub delegatees : st'.delegatees_epoch_rewards ≡ st.delegatees_epoch_rewards

-- The reward goes to `rewards` as `addReward` puts it there, and its amounts are added to the other books.
pub record Posted (x : Transfer) (st st' : RewardsStats) : Type 0 where
  pub rewards : st'.rewards ≡ (add_reward x.stake_dest x.balance x.stake x.reward_type st).rewards
  pub pointers :
      st'.epoch_rewards_by_type_and_addr
      ≡ (add_reward x.stake_dest x.balance x.stake x.reward_type st).epoch_rewards_by_type_and_addr
  pub totals :
      (a : Address)
      → total_in a st'.total_rewards_by_addr
        ≡ total_in a st.total_rewards_by_addr
          +ℤ when (x.counted && x.stake_dest == a) (or_zero x.balance +ℤ or_zero x.stake)
  pub received_by :
      (p : Part) (t : ℕ) (d : Address)
      → received p t d st'
        ≡ received p t d st
          +ℤ when
              (not (x.balance_dest == x.stake_dest) && x.balance_dest == d && x.reward_type == t)
              (amount p (or_zero x.balance) (pos 0))
  pub delegated_by :
      (p : Part) (t : ℕ) (g d : Address)
      → delegated p t g d st'
        ≡ delegated p t g d st
          +ℤ when
              (not (x.balance_dest == x.stake_dest)
                && (x.balance_dest == d && x.stake_dest == g)
                && x.reward_type == t)
              (amount p (or_zero x.balance) (pos 0))

module _ (g d : Address) (b s : Option ℤ) (t : ℕ) (st : RewardsStats) where
  add_delegatee_reward-rewards : (add_delegatee_reward g d b s t st).rewards ≡ st.rewards
  unfolding add_delegatee_reward init_reward_stats
  add_delegatee_reward-rewards = elim (Bool-cases (zero_or_nil b && zero_or_nil s)) [
    | inl e ↦ rw e refl
    | inr e ↦ rw e refl
  ]

  add_delegatee_reward-pointers :
      (add_delegatee_reward g d b s t st).epoch_rewards_by_type_and_addr
      ≡ st.epoch_rewards_by_type_and_addr
  unfolding add_delegatee_reward init_reward_stats
  add_delegatee_reward-pointers = elim (Bool-cases (zero_or_nil b && zero_or_nil s)) [
    | inl e ↦ rw e refl
    | inr e ↦ rw e refl
  ]

  add_delegatee_reward-totals :
      (add_delegatee_reward g d b s t st).total_rewards_by_addr ≡ st.total_rewards_by_addr
  unfolding add_delegatee_reward init_reward_stats
  add_delegatee_reward-totals = elim (Bool-cases (zero_or_nil b && zero_or_nil s)) [
    | inl e ↦ rw e refl
    | inr e ↦ rw e refl
  ]

-- The books that `addAddrTotalReward` is not for.
record SameBut (st st' : RewardsStats) : Type 0 where
  rewards : st'.rewards ≡ st.rewards
  pointers : st'.epoch_rewards_by_type_and_addr ≡ st.epoch_rewards_by_type_and_addr
  delegatees : st'.delegatees_epoch_rewards ≡ st.delegatees_epoch_rewards

add_addr_total_reward-SameBut :
    (a : Address) (b s : Option ℤ) (st : RewardsStats) → SameBut st (add_addr_total_reward a b s st)
unfolding add_addr_total_reward init_reward_stats
add_addr_total_reward-SameBut a b s st = elim (Bool-cases (zero_or_nil b && zero_or_nil s)) [
  | inl e ↦
      rw (e, add_addr_total_reward) (record { rewards = refl; pointers = refl; delegatees = refl })
  | inr e ↦
      rw (e, add_addr_total_reward) (record { rewards = refl; pointers = refl; delegatees = refl })
]

-- Nothing is added under a condition that does not hold.
unadded : (c : Bool) (x y z : ℤ) → c ≡ false → y ≡ z → y ≡ z +ℤ when c x
unadded c x y z e h = rw (e, h) (sym (+ℤ_zero z))

-- A call that pays without a delegatee and without counting is `addReward` alone.
pub add_reward-Posted :
    (x : Transfer) (st : RewardsStats)
    → (x.balance_dest == x.stake_dest) ≡ true
    → x.counted ≡ false
    → Posted x st (add_reward x.stake_dest x.balance x.stake x.reward_type st)
add_reward-Posted x st same e =
    let st' = add_reward x.stake_dest x.balance x.stake x.reward_type st in
    let books = add_reward-delegatees x.stake_dest x.balance x.stake x.reward_type st in
    record {
      rewards = refl;
      pointers = refl;
      totals = λ a.
          unadded (x.counted && x.stake_dest == a) (or_zero x.balance +ℤ or_zero x.stake)
            (total_in a st'.total_rewards_by_addr) (total_in a st.total_rewards_by_addr)
            (ground (arith, e))
            (ap (total_in a) (add_reward-totals x.stake_dest x.balance x.stake x.reward_type st));
      received_by = λ p t d.
          unadded
            (not (x.balance_dest == x.stake_dest) && x.balance_dest == d && x.reward_type == t)
            (amount p (or_zero x.balance) (pos 0)) (received p t d st') (received p t d st)
            (ground (arith, same)) (ap (λ m. epoch_amount p t (totals_in d m)) books);
      delegated_by = λ p t g d.
          unadded
            (not (x.balance_dest == x.stake_dest)
              && (x.balance_dest == d && x.stake_dest == g)
              && x.reward_type == t)
            (amount p (or_zero x.balance) (pos 0)) (delegated p t g d st') (delegated p t g d st)
            (ground (arith, same)) (ap (λ m. epoch_amount p t (delegator_in g d m)) books);
    }

-- With a delegatee, the delegatee's books get the balance.
delegatee-Posted :
    (x : Transfer) (st : RewardsStats)
    → (x.balance_dest == x.stake_dest) ≡ false
    → x.counted ≡ false
    → Posted x st (
        add_delegatee_reward x.stake_dest x.balance_dest x.balance none x.reward_type
          (add_reward x.stake_dest x.balance x.stake x.reward_type st))
delegatee-Posted x st other e =
    let st' = add_reward x.stake_dest x.balance x.stake x.reward_type st in
    let st'' = add_delegatee_reward x.stake_dest x.balance_dest x.balance none x.reward_type st' in
    let books = add_reward-delegatees x.stake_dest x.balance x.stake x.reward_type st in
    record {
      rewards =
          add_delegatee_reward-rewards x.stake_dest x.balance_dest x.balance none x.reward_type st';
      pointers =
          add_delegatee_reward-pointers x.stake_dest x.balance_dest x.balance none x.reward_type
            st';
      totals = λ a.
          unadded (x.counted && x.stake_dest == a) (or_zero x.balance +ℤ or_zero x.stake)
            (total_in a st''.total_rewards_by_addr) (total_in a st.total_rewards_by_addr)
            (ground (arith, e))
            (ap (total_in a) (
              add_delegatee_reward-totals x.stake_dest x.balance_dest x.balance none x.reward_type
                st'
              ∙ add_reward-totals x.stake_dest x.balance x.stake x.reward_type st));
      received_by = λ p t d. rw other (
          received-add_delegatee_reward x.stake_dest x.balance_dest x.balance none x.reward_type st'
            p t d
          ∙ ap
              (λ m.
                epoch_amount p t (totals_in d m)
                +ℤ when (x.balance_dest == d && x.reward_type == t)
                    (amount p (or_zero x.balance) (pos 0)))
              books);
      delegated_by = λ p t g d. rw other (
          delegated-add_delegatee_reward x.stake_dest x.balance_dest x.balance none x.reward_type
            st' p t g d
          ∙ ap
              (λ m.
                epoch_amount p t (delegator_in g d m)
                +ℤ when ((x.balance_dest == d && x.stake_dest == g) && x.reward_type == t)
                    (amount p (or_zero x.balance) (pos 0)))
              books);
    }

pub credit-Posted :
    (x : Transfer) (st : RewardsStats)
    → x.counted ≡ false
    → Posted x st (credit x.reward_type x.balance_dest x.stake_dest x.balance x.stake st)
unfolding credit
credit-Posted x st e = elim (Bool-cases (x.balance_dest == x.stake_dest)) [
  | inl same ↦ rw (same, credit) (add_reward-Posted x st same e)
  | inr other ↦ rw (other, credit) (delegatee-Posted x st other e)
]

-- Calls end with `addAddrTotalReward`, and do nothing to the books in between.
pub counted-Posted :
    (x : Transfer) (st mid last : RewardsStats)
    → Posted (record x { counted = false }) st mid
    → SameBooks mid last
    → x.counted ≡ true
    → Posted x st (add_addr_total_reward x.stake_dest x.balance x.stake last)
counted-Posted x st mid last h same e =
    let frame = add_addr_total_reward-SameBut x.stake_dest x.balance x.stake last in
    record {
      rewards = frame.rewards ∙ same.rewards ∙ h.rewards;
      pointers = frame.pointers ∙ same.pointers ∙ h.pointers;
      totals = λ a. rw e (
          total_in-add_addr_total_reward x.stake_dest x.balance x.stake last a
          ∙ ap
              (λ m. total_in a m +ℤ when (x.stake_dest == a) (or_zero x.balance +ℤ or_zero x.stake))
              same.totals
          ∙ ap (λ y. y +ℤ when (x.stake_dest == a) (or_zero x.balance +ℤ or_zero x.stake))
              (h.totals a ∙ +ℤ_zero (total_in a st.total_rewards_by_addr)));
      received_by = λ p t d.
          ap (λ m. epoch_amount p t (totals_in d m)) (frame.delegatees ∙ same.delegatees)
          ∙ h.received_by p t d;
      delegated_by = λ p t g d.
          ap (λ m. epoch_amount p t (delegator_in g d m)) (frame.delegatees ∙ same.delegatees)
          ∙ h.delegated_by p t g d;
    }
