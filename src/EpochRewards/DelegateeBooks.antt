-- ===== src/EpochRewards/DelegateeBooks.antt =====
-- collector.go, `addDelegateeReward`: what it adds for a delegatee and for its delegator.
-- the books that the others keep, and what it adds in its own.
use idena_indexer.Base.{
  ℕ, ◌≡◌, refl, ap, ◌∙◌, sym, Bool, true, false, ◌&&◌, Option, none, some, [], arith, if◌then◌else◌,
  Bool-cases, inl, inr, Option-cases,
}
use idena_indexer.Base.Int.{ℤ, pos, ◌+ℤ◌}
use idena_indexer.Base.Eq.{◌==◌, number_key}
use idena_indexer.Base.Map.{Map, lookup, insert, lookup-insert}
use idena_indexer.Node.{Address}
use idena_indexer.EpochRewards.{
  RewardsStats, EpochReward, DelegateeEpochRewards, init_reward_stats, zero_or_nil, or_zero,
  add_epoch_reward, add_to_delegatee, add_delegatee_reward,
}
use idena_indexer.EpochRewards.Sums.{Part, balances, stakes, amount, when, +ℤ_zero, zero_+ℤ}
use idena_indexer.EpochRewards.Totals.{amount_of_nothing, when_zero}

-- `EpochRewards` of a delegatee or a delegator, by type.
abbrev pub epoch_amount : Part → ℕ → Map ℕ EpochReward → ℤ
epoch_amount p t m = elim (lookup t m) [ none ↦ pos 0 | some r ↦ amount p r.balance r.stake ]

amount-add :
    (p : Part) (b s b' s' : ℤ) → amount p (b +ℤ b') (s +ℤ s') ≡ amount p b s +ℤ amount p b' s'
amount-add balances b s b' s' = refl
amount-add stakes b s b' s' = refl

amount_zero : (p : Part) → amount p (pos 0) (pos 0) ≡ pos 0
amount_zero balances = refl
amount_zero stakes = refl

pub epoch_amount-add_epoch_reward :
    (p : Part) (t u : ℕ) (b s : ℤ) (m : Map ℕ EpochReward)
    → epoch_amount p u (add_epoch_reward t b s m)
      ≡ epoch_amount p u m +ℤ when (t == u) (amount p b s)
unfolding add_epoch_reward
epoch_amount-add_epoch_reward p t u b s m =
    let was = epoch_amount p u m in
    elim (Option-cases (lookup t m)) [
      | inl e ↦ ground (
        arith,
        lookup-insert t u (record { balance = pos 0 +ℤ b; stake = pos 0 +ℤ s }) m,
        e,
        amount_zero p,
        amount-add p (pos 0) (pos 0) b s,
        zero_+ℤ (amount p b s),
        +ℤ_zero was,
      )
      | inr (r, e) ↦ ground (
        arith,
        lookup-insert t u (record { balance = r.balance +ℤ b; stake = r.stake +ℤ s }) m,
        e,
        amount-add p r.balance r.stake b s,
        +ℤ_zero was,
      )
    ]

-- A delegatee's own books and those of one of its delegators.
abbrev pub totals_in : Address → Map Address DelegateeEpochRewards → Map ℕ EpochReward
totals_in d m = elim (lookup d m) [ none ↦ [] | some w ↦ w.total_rewards ]

abbrev pub delegator_in : Address → Address → Map Address DelegateeEpochRewards → Map ℕ EpochReward
delegator_in g d m = elim (lookup d m) [
  | none ↦ []
  | some w ↦ elim (lookup g w.delegators_epoch_rewards) [ none ↦ [] | some by_type ↦ by_type ]
]

abbrev pub received : Part → ℕ → Address → RewardsStats → ℤ
received p t d st = epoch_amount p t (totals_in d st.delegatees_epoch_rewards)

abbrev pub delegated : Part → ℕ → Address → Address → RewardsStats → ℤ
delegated p t g d st = epoch_amount p t (delegator_in g d st.delegatees_epoch_rewards)

abbrev delegatee_in : Address → Map Address DelegateeEpochRewards → DelegateeEpochRewards
delegatee_in d m = elim (lookup d m) [
  | none ↦ record { total_rewards = []; delegators_epoch_rewards = [] }
  | some w ↦ w
]

abbrev credited :
    Address
    → Address
    → ℤ
    → ℤ
    → ℕ
    → Map Address DelegateeEpochRewards
    → Map Address DelegateeEpochRewards
credited g d b s t m = insert d (add_to_delegatee g b s t (delegatee_in d m)) m

module _ (g d : Address) (b s : ℤ) (t : ℕ) (m : Map Address DelegateeEpochRewards) where
  totals_in-credited :
      (j : Address)
      → totals_in j (credited g d b s t m)
        ≡ (if d == j then add_epoch_reward t b s (totals_in j m) else totals_in j m)
  unfolding add_to_delegatee lookup
  totals_in-credited j =
      let law = lookup-insert d j (add_to_delegatee g b s t (delegatee_in d m)) m in
      elim (Option-cases (lookup d m)) [
        | inl e ↦ ground (arith, law, e)
        | inr (w, e) ↦ ground (arith, law, e)
      ]

  delegator_in-credited :
      (i j : Address)
      → delegator_in i j (credited g d b s t m) ≡ (
          if d == j && g == i
          then add_epoch_reward t b s (delegator_in i j m)
          else delegator_in i j m)
  unfolding add_to_delegatee lookup
  delegator_in-credited i j =
      let law = lookup-insert d j (add_to_delegatee g b s t (delegatee_in d m)) m in
      elim (Option-cases (lookup d m)) [
        | inl e ↦ ground (arith, law, e, lookup-insert g i (add_epoch_reward t b s []) [])
        | inr (w, e) ↦ elim (Option-cases (lookup g w.delegators_epoch_rewards)) [
          | inl q ↦ ground (
            arith,
            law,
            e,
            q,
            lookup-insert g i (add_epoch_reward t b s []) w.delegators_epoch_rewards,
          )
          | inr (by_type, q) ↦ ground (
            arith,
            law,
            e,
            q,
            lookup-insert g i (add_epoch_reward t b s by_type) w.delegators_epoch_rewards,
          )
        ]
      ]

-- `x` under two conditions, given what one of them does.
epoch_amount-under :
    (p : Part) (c : Bool) (t u : ℕ) (b s : ℤ) (m : Map ℕ EpochReward)
    → epoch_amount p u (if c then add_epoch_reward t b s m else m)
      ≡ epoch_amount p u m +ℤ when (c && t == u) (amount p b s)
epoch_amount-under p true t u b s m = epoch_amount-add_epoch_reward p t u b s m
epoch_amount-under p false t u b s m = sym (+ℤ_zero (epoch_amount p u m))

module _ (g d : Address) (b s : Option ℤ) (t : ℕ) (st : RewardsStats) where
  pub received-add_delegatee_reward :
      (p : Part) (u : ℕ) (j : Address)
      → received p u j (add_delegatee_reward g d b s t st)
        ≡ received p u j st +ℤ when (d == j && t == u) (amount p (or_zero b) (or_zero s))
  unfolding add_delegatee_reward init_reward_stats
  received-add_delegatee_reward p u j = elim (Bool-cases (zero_or_nil b && zero_or_nil s)) [
    | inl e ↦
        rw (e, amount_of_nothing p b s e, when_zero (d == j && t == u))
          (sym (+ℤ_zero (received p u j st)))
    | inr e ↦
        rw (e, add_delegatee_reward)
          (ap (epoch_amount p u)
              (totals_in-credited g d (or_zero b) (or_zero s) t st.delegatees_epoch_rewards j)
            ∙ epoch_amount-under p (d == j) t u (or_zero b) (or_zero s)
                (totals_in j st.delegatees_epoch_rewards))
  ]

  pub delegated-add_delegatee_reward :
      (p : Part) (u : ℕ) (i j : Address)
      → delegated p u i j (add_delegatee_reward g d b s t st)
        ≡ delegated p u i j st
          +ℤ when ((d == j && g == i) && t == u) (amount p (or_zero b) (or_zero s))
  unfolding add_delegatee_reward init_reward_stats
  delegated-add_delegatee_reward p u i j = elim (Bool-cases (zero_or_nil b && zero_or_nil s)) [
    | inl e ↦
        rw (e, amount_of_nothing p b s e, when_zero ((d == j && g == i) && t == u))
          (sym (+ℤ_zero (delegated p u i j st)))
    | inr e ↦
        rw (e, add_delegatee_reward)
          (ap (epoch_amount p u)
              (delegator_in-credited g d (or_zero b) (or_zero s) t st.delegatees_epoch_rewards i j)
            ∙ epoch_amount-under p (d == j && g == i) t u (or_zero b) (or_zero s)
                (delegator_in i j st.delegatees_epoch_rewards))
  ]
