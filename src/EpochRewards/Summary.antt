-- ===== src/EpochRewards/Summary.antt =====
-- From the collector's rewards to the table that indexer/validation_summary.go makes of them.
use idena_indexer.Base.{
  ℕ, suc, ◌≡◌, ◌≢◌, refl, ap, ◌∙◌, sym, Bool, true, false, ◌&&◌, ◌||◌, Option, none, some, List, [],
  ◌∷◌, arith, if◌then◌else◌, Bool-cases, inl, inr,
}
use idena_indexer.Base.Int.{ℤ, pos, ◌+ℤ◌}
use idena_indexer.Base.Eq.{◌==◌, number_key}
use idena_indexer.Base.Map.{lookup}
use idena_indexer.Node.{Address}
use idena_indexer.ValidationSummary.{rewards_by_addr_and_type, zero_if_nil}
use idena_indexer.ValidationSummary.Amounts.{rewards_table, last_reward, reward_at}
use idena_indexer.ValidationSummary.{RewardStats as TableRow}
use idena_indexer.EpochRewards.{RewardStats, RewardsStats, is_accumulated}
use idena_indexer.EpochRewards.Calls.{Env}
use idena_indexer.EpochRewards.Run.{Call, run}
use idena_indexer.EpochRewards.Sums.{balances, stakes, sum_for, is_for, +ℤ_zero}
use idena_indexer.EpochRewards.Pointers.{key_at}
use idena_indexer.EpochRewards.Paid.{summed, paid}
use idena_indexer.EpochRewards.Collected.{empty_stats, run-one_row, run-sums}

-- A reward of the collector, as the table reads it: its amounts are not nil.
abbrev pub as_row : RewardStats → TableRow
as_row r = record {
  address = r.address;
  balance = some r.balance;
  stake = some r.stake;
  reward_type = r.reward_type;
}

abbrev pub as_rows : List RewardStats → List TableRow
as_rows [] = []
as_rows (r ∷ rs) = as_row r ∷ as_rows rs

unfoldable pub has_reward : ℕ → Address → List RewardStats → Bool
has_reward t a [] = false
has_reward t a (r ∷ rs) = is_for t a r || has_reward t a rs

IsOneRow : ℕ → Address → List RewardStats → Type 0
IsOneRow t a rs = (i j : ℕ) → key_at rs i ≡ some (t, a) → key_at rs j ≡ some (t, a) → i ≡ j

-- Where there is no reward of the type to the address.
without :
    (t : ℕ) (a : Address) (rs : List RewardStats)
    → has_reward t a rs ≡ false
    → (earlier : Option ℤ)
    → (last_reward a t (as_rows rs) earlier ≡ earlier)
      × (sum_for balances t a rs ≡ pos 0)
      × (sum_for stakes t a rs ≡ pos 0)
unfolding has_reward sum_for
without t a [] h earlier = (refl, refl, refl)
without t a (r ∷ rs) h earlier =
    let off : is_for t a r ≡ false = ground (arith, h) in
    let other : (r.address == a && r.reward_type == t) ≡ false = ground (arith, off) in
    let rest : has_reward t a rs ≡ false = ground (arith, h) in
    rw (off, other, last_reward) (without t a rs rest earlier)

has_none :
    (t : ℕ) (a : Address) (rs : List RewardStats)
    → ((i : ℕ) → key_at rs i ≢ some (t, a))
    → has_reward t a rs ≡ false
unfolding has_reward
has_none t a [] h = refl
has_none t a (r ∷ rs) h = elim (Bool-cases (is_for t a r)) [
  | inr off ↦ rw off (has_none t a rs (λ i. h (suc i)))
  | inl on ↦ absurd (h 0 (ground (arith, on)))
]

-- The table's entry and the sums, where there is at most one reward of the type to the address.
one_row :
    (t : ℕ) (a : Address) (rs : List RewardStats) (earlier : Option ℤ)
    → IsOneRow t a rs
    → last_reward a t (as_rows rs) earlier ≡ (
        if has_reward t a rs
        then some (sum_for balances t a rs +ℤ sum_for stakes t a rs)
        else earlier)
unfolding has_reward sum_for IsOneRow zero_if_nil
one_row t a [] earlier one = refl
one_row t a (r ∷ rs) earlier one = elim (Bool-cases (is_for t a r)) [
  | inr off ↦
      let other : (r.address == a && r.reward_type == t) ≡ false = ground (arith, off) in
      rw (off, other, last_reward)
        (one_row t a rs earlier (λ i j k l. ground (arith, one (suc i) (suc j) k l)))
  | inl on ↦
      let this : (r.address == a && r.reward_type == t) ≡ true = ground (arith, on) in
      let here : key_at (r ∷ rs) 0 ≡ some (t, a) = ground (arith, on) in
      let none_after = has_none t a rs (λ i k. ground (arith, one 0 (suc i) here k)) in
      let (same, no_balance, no_stake) = without t a rs none_after (some (r.balance +ℤ r.stake)) in
      rw (on, this, last_reward)
        (same ∙ ap some (sym (rw (no_balance, no_stake, +ℤ_zero r.balance, +ℤ_zero r.stake) refl)))
]

-- After any calls from no statistics, the table of the summaries has, for an address and a type whose
-- rewards are put together, the sum of all balances and stakes that the calls paid to the address by that
-- type, if there is a reward of it.
pub run-rewards_table :
    (env : Env) (cs : List Call) (st : RewardsStats)
    → run env cs empty_stats ≡ some st
    → (t : ℕ) (a : Address) → is_accumulated t ≡ true
    → reward_at a t (rewards_by_addr_and_type (as_rows st.rewards) []) ≡ (
        if has_reward t a st.rewards
        then some (summed (paid balances t a) cs +ℤ summed (paid stakes t a) cs)
        else none)
unfolding lookup IsOneRow
run-rewards_table env cs st ran t a c =
    rewards_table a t (as_rows st.rewards) []
    ∙ one_row t a st.rewards none (λ i j k l. run-one_row env cs st ran t a i j c k l)
    ∙ ap (λ x. if has_reward t a st.rewards then some x else none)
        (ap (λ x. x +ℤ sum_for stakes t a st.rewards) (run-sums env cs st ran balances t a)
          ∙ ap (λ x. summed (paid balances t a) cs +ℤ x) (run-sums env cs st ran stakes t a))
