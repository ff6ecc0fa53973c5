-- ===== src/EpochRewards/Paid.antt =====
-- collector.go: what the books hold after any sequence of calls.
use idena_indexer.Base.{
  ℕ, ◌≡◌, refl, ap, ◌∙◌, sym, subst, ◌&&◌, not, Option, none, some, List, [], ◌∷◌, arith,
  Bool-cases, inl, inr, Option-cases,
}
use idena_indexer.Base.Int.{ℤ, pos, ◌+ℤ◌, +ℤ_assoc}
use idena_indexer.Base.Eq.{◌==◌, number_key}
use idena_indexer.Node.{Address}
use idena_indexer.EpochRewards.{
  RewardsStats, init_reward_stats, zero_or_nil, or_zero, add_reward, pointer_at,
}
use idena_indexer.EpochRewards.Calls.{Env}
use idena_indexer.EpochRewards.Run.{Transfer, Call, apply, run, transfer_of}
use idena_indexer.EpochRewards.Sums.{Part, amount, sum_for, when, +ℤ_zero}
use idena_indexer.EpochRewards.Pointers.{IsIndexed, key_at}
use idena_indexer.EpochRewards.Put.{put_reward-IsIndexed, sum_for-put_reward}
use idena_indexer.EpochRewards.Totals.{total_in, amount_of_nothing, when_zero}
use idena_indexer.EpochRewards.DelegateeBooks.{
  received, delegated, totals_in, delegator_in, epoch_amount,
}
use idena_indexer.EpochRewards.Books.{Follows}
use idena_indexer.EpochRewards.Apply.{apply-Follows}

-- What the transfers of the calls come to, by a weight.
abbrev pub weight_of : (Transfer → ℤ) → Option Transfer → ℤ
weight_of w none = pos 0
weight_of w (some x) = w x

unfoldable pub summed : (Transfer → ℤ) → List Call → ℤ
summed w [] = pos 0
summed w (c ∷ cs) = weight_of w (transfer_of c) +ℤ summed w cs

-- The weights: what a transfer pays to an address by a type, what of it counts for the address's total,
-- and what goes to a delegatee for a delegator.
abbrev pub paid : Part → ℕ → Address → Transfer → ℤ
paid p t a x =
    when (x.reward_type == t && x.stake_dest == a) (amount p (or_zero x.balance) (or_zero x.stake))

abbrev pub earned : Address → Transfer → ℤ
earned a x = when (x.counted && x.stake_dest == a) (or_zero x.balance +ℤ or_zero x.stake)

abbrev pub collected : Part → ℕ → Address → Transfer → ℤ
collected p t d x =
    when (not (x.balance_dest == x.stake_dest) && x.balance_dest == d && x.reward_type == t)
      (amount p (or_zero x.balance) (pos 0))

abbrev pub handed_over : Part → ℕ → Address → Address → Transfer → ℤ
handed_over p t g d x =
    when
      (not (x.balance_dest == x.stake_dest)
        && (x.balance_dest == d && x.stake_dest == g)
        && x.reward_type == t)
      (amount p (or_zero x.balance) (pos 0))

add_reward-IsIndexed :
    (a : Address) (b s : Option ℤ) (t : ℕ) (st : RewardsStats)
    → IsIndexed st
    → IsIndexed (add_reward a b s t st)
unfolding add_reward init_reward_stats
add_reward-IsIndexed a b s t st h = elim (Bool-cases (zero_or_nil b && zero_or_nil s)) [
  | inl e ↦ rw (e, add_reward) h
  | inr e ↦
      rw (e, add_reward)
        (put_reward-IsIndexed
          (record { address = a; balance = or_zero b; stake = or_zero s; reward_type = t })
          (init_reward_stats st) (record { points = h.points; pointed = h.pointed }))
]

sum_for-add_reward :
    (p : Part) (t : ℕ) (a : Address) (x : Transfer) (st : RewardsStats)
    → IsIndexed st
    → sum_for p t a (add_reward x.stake_dest x.balance x.stake x.reward_type st).rewards
      ≡ sum_for p t a st.rewards +ℤ paid p t a x
unfolding add_reward init_reward_stats
sum_for-add_reward p t a x st h = elim (Bool-cases (zero_or_nil x.balance && zero_or_nil x.stake)) [
  | inl e ↦
      rw
        (
          e,
          add_reward,
          amount_of_nothing p x.balance x.stake e,
          when_zero (x.reward_type == t && x.stake_dest == a),
        )
        (sym (+ℤ_zero (sum_for p t a st.rewards)))
  | inr e ↦
      rw (e, add_reward)
        (sum_for-put_reward p t a
          (record {
            address = x.stake_dest;
            balance = or_zero x.balance;
            stake = or_zero x.stake;
            reward_type = x.reward_type;
          })
          (init_reward_stats st) (record { points = h.points; pointed = h.pointed }))
]

-- A book, as a number read off the state, to which a call adds a weight of its transfer.
abbrev pub Adds : (RewardsStats → ℤ) → (Transfer → ℤ) → Type 0
Adds book w =
    (o : Option Transfer) (st st' : RewardsStats)
    → IsIndexed st
    → Follows o st st'
    → book st' ≡ book st +ℤ weight_of w o

same_index :
    (a b : RewardsStats)
    → b.rewards ≡ a.rewards
    → b.epoch_rewards_by_type_and_addr ≡ a.epoch_rewards_by_type_and_addr
    → IsIndexed a
    → IsIndexed b
same_index a b e f h = record {
  points = λ t x i k.
      subst (λ r. key_at r i ≡ some (t, x)) (sym e)
        (h.points t x i (subst (λ m. pointer_at t x m ≡ some i) f k));
  pointed = λ t x i c k.
      subst (λ m. pointer_at t x m ≡ some i) (sym f)
        (h.pointed t x i c (subst (λ r. key_at r i ≡ some (t, x)) e k));
}

Follows-IsIndexed :
    (o : Option Transfer) (st st' : RewardsStats) → IsIndexed st → Follows o st st' → IsIndexed st'
Follows-IsIndexed none st st' h k = same_index st st' k.rewards k.pointers h
Follows-IsIndexed (some x) st st' h k =
    same_index (add_reward x.stake_dest x.balance x.stake x.reward_type st) st' k.rewards k.pointers
      (add_reward-IsIndexed x.stake_dest x.balance x.stake x.reward_type st h)

-- The four books, each with its weight.
pub sum_for-Adds :
    (p : Part) (t : ℕ) (a : Address) → Adds (λ st. sum_for p t a st.rewards) (paid p t a)
sum_for-Adds p t a none st st' h k =
    ap (sum_for p t a) k.rewards ∙ sym (+ℤ_zero (sum_for p t a st.rewards))
sum_for-Adds p t a (some x) st st' h k =
    ap (sum_for p t a) k.rewards ∙ sum_for-add_reward p t a x st h

pub total_in-Adds : (a : Address) → Adds (λ st. total_in a st.total_rewards_by_addr) (earned a)
total_in-Adds a none st st' h k =
    ap (total_in a) k.totals ∙ sym (+ℤ_zero (total_in a st.total_rewards_by_addr))
total_in-Adds a (some x) st st' h k = k.totals a

pub received-Adds : (p : Part) (t : ℕ) (d : Address) → Adds (received p t d) (collected p t d)
received-Adds p t d none st st' h k =
    ap (λ m. epoch_amount p t (totals_in d m)) k.delegatees ∙ sym (+ℤ_zero (received p t d st))
received-Adds p t d (some x) st st' h k = k.received_by p t d

pub delegated-Adds :
    (p : Part) (t : ℕ) (g d : Address) → Adds (delegated p t g d) (handed_over p t g d)
delegated-Adds p t g d none st st' h k =
    ap (λ m. epoch_amount p t (delegator_in g d m)) k.delegatees
    ∙ sym (+ℤ_zero (delegated p t g d st))
delegated-Adds p t g d (some x) st st' h k = k.delegated_by p t g d

run-cons :
    (env : Env) (c : Call) (cs : List Call) (st st' : RewardsStats)
    → run env (c ∷ cs) st ≡ some st'
    → (mid : RewardsStats) × (apply env c st ≡ some mid) × (run env cs mid ≡ some st')
unfolding run
run-cons env c cs st st' ran = elim (Option-cases (apply env c st)) [
  | inl e ↦ ground (arith, e, ran)
  | inr (mid, e) ↦ (mid, e, sym (rw (e, run) refl) ∙ ran)
]

pub run-Adds :
    (book : RewardsStats → ℤ) (w : Transfer → ℤ)
    → Adds book w
    → (env : Env) (cs : List Call) (st st' : RewardsStats) → IsIndexed st
    → run env cs st ≡ some st'
    → book st' ≡ book st +ℤ summed w cs
unfolding run summed
run-Adds book w step env [] st st' h ran =
    let same : st ≡ st' = ground (arith, ran) in ap book (sym same) ∙ sym (+ℤ_zero (book st))
run-Adds book w step env (c ∷ cs) st st' h ran =
    let (mid, first, rest) = run-cons env c cs st st' ran in
    let posted = apply-Follows env c st mid first in
    let indexed = Follows-IsIndexed (transfer_of c) st mid h posted in
    run-Adds book w step env cs mid st' indexed rest
    ∙ ap (λ y. y +ℤ summed w cs) (step (transfer_of c) st mid h posted)
    ∙ +ℤ_assoc (book st) (weight_of w (transfer_of c)) (summed w cs)

pub run-IsIndexed :
    (env : Env) (cs : List Call) (st st' : RewardsStats)
    → IsIndexed st
    → run env cs st ≡ some st'
    → IsIndexed st'
unfolding run
run-IsIndexed env [] st st' h ran = subst IsIndexed (ground (arith, ran)) h
run-IsIndexed env (c ∷ cs) st st' h ran =
    let (mid, first, rest) = run-cons env c cs st st' ran in
    run-IsIndexed env cs mid st'
      (Follows-IsIndexed (transfer_of c) st mid h (apply-Follows env c st mid first)) rest
