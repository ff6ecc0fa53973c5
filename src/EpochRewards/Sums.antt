-- ===== src/EpochRewards/Sums.antt =====
-- collector.go, `rewards` of `RewardsStats`: what its entries add up to for an address and a type.
use idena_indexer.Base.{
  true, ℕ, zero, suc, ◌≡◌, refl, subst, sym, Bool, ◌&&◌, some, List, [], ◌∷◌, ◌++◌, arith,
  if◌then◌else◌, get_elem?, set, Bool-cases, inl, inr, Option, none,
}
use idena_indexer.Base.Int.{ℤ, pos, ◌+ℤ◌, +ℤ_assoc, int_laws}
use idena_indexer.Base.Eq.{◌==◌, number_key}
use idena_indexer.Node.{Address}
pub use idena_indexer.Base.SumBy.{when, when_zero, +ℤ_zero, zero_+ℤ}
use idena_indexer.Base.Amounts.{zero_or_nil, or_zero}
use idena_indexer.EpochRewards.{RewardStats, increase_at}

-- An entry has two amounts.
pub data Part : Type 0 where
  balances : Part
  stakes : Part

abbrev pub amount : Part → ℤ → ℤ → ℤ
amount balances b s = b
amount stakes b s = s

abbrev pub part : Part → RewardStats → ℤ
part p r = amount p r.balance r.stake

abbrev pub is_for : ℕ → Address → RewardStats → Bool
is_for t a r = r.reward_type == t && r.address == a

unfoldable pub sum_for : Part → ℕ → Address → List RewardStats → ℤ
sum_for p t a [] = pos 0
sum_for p t a (r ∷ rs) =
    let rest = sum_for p t a rs in if is_for t a r then part p r +ℤ rest else rest

swap_last : (x y z : ℤ) → x +ℤ y +ℤ z ≡ x +ℤ z +ℤ y
swap_last x y z = omega int_laws

pub sum_for-append :
    (p : Part) (t : ℕ) (a : Address) (xs : List RewardStats) (r : RewardStats)
    → sum_for p t a (xs ++ r ∷ []) ≡ sum_for p t a xs +ℤ when (is_for t a r) (part p r)
unfolding sum_for
sum_for-append p t a [] r = elim (Bool-cases (is_for t a r)) [
  | inl e ↦ rw e (omega int_laws)
  | inr e ↦ rw e (omega int_laws)
]
sum_for-append p t a (x ∷ xs) r = elim (Bool-cases (is_for t a x)) [
  | inl e ↦
      rw (e, sum_for-append p t a xs r)
        (sym (+ℤ_assoc (part p x) (sum_for p t a xs) (when (is_for t a r) (part p r))))
  | inr e ↦ rw (e, sum_for-append p t a xs r) refl
]

abbrev pub raised : ℤ → ℤ → RewardStats → RewardStats
raised b s r = record r { balance = r.balance +ℤ b; stake = r.stake +ℤ s }

part-raised :
    (p : Part) (b s : ℤ) (r : RewardStats) → part p (raised b s r) ≡ part p r +ℤ amount p b s
part-raised balances b s r = refl
part-raised stakes b s r = refl

sum_for-head :
    (p : Part) (t : ℕ) (a : Address) (b s : ℤ) (x : RewardStats) (xs : List RewardStats)
    → sum_for p t a (raised b s x ∷ xs)
      ≡ sum_for p t a (x ∷ xs) +ℤ when (is_for t a x) (amount p b s)
unfolding sum_for
sum_for-head p t a b s x xs = elim (Bool-cases (is_for t a x)) [
  | inl e ↦ rw (e, part-raised p b s x) (swap_last (part p x) (amount p b s) (sum_for p t a xs))
  | inr e ↦ rw e (sym (+ℤ_zero (sum_for p t a xs)))
]

sum_for-set :
    (p : Part) (t : ℕ) (a : Address) (b s : ℤ) (xs : List RewardStats) (i : ℕ) (r : RewardStats)
    → get_elem? xs i ≡ some r
    → sum_for p t a (set xs i (raised b s r))
      ≡ sum_for p t a xs +ℤ when (is_for t a r) (amount p b s)
unfolding sum_for
sum_for-set p t a b s [] i r h = ground arith
sum_for-set p t a b s (x ∷ xs) zero r h =
    let same : x ≡ r = ground arith in
    subst
      (λ r'.
        sum_for p t a (raised b s r' ∷ xs)
        ≡ sum_for p t a (x ∷ xs) +ℤ when (is_for t a r') (amount p b s))
      same (sum_for-head p t a b s x xs)
sum_for-set p t a b s (x ∷ xs) (suc i) r h = elim (Bool-cases (is_for t a x)) [
  | inl e ↦
      rw (e, sum_for-set p t a b s xs i r h)
        (sym (+ℤ_assoc (part p x) (sum_for p t a xs) (when (is_for t a r) (amount p b s))))
  | inr e ↦ rw (e, sum_for-set p t a b s xs i r h) refl
]

-- `increaseEpochRewardIfExists` raises the sums of its entry's address and type, and no others.
pub sum_for-increase_at :
    (p : Part) (t : ℕ) (a : Address) (b s : ℤ) (xs : List RewardStats) (i : ℕ) (r : RewardStats)
    → get_elem? xs i ≡ some r
    → sum_for p t a (increase_at i b s xs) ≡ sum_for p t a xs +ℤ when (is_for t a r) (amount p b s)
unfolding increase_at
sum_for-increase_at p t a b s xs i r h = rw (h, increase_at) (sum_for-set p t a b s xs i r h)

-- Where both amounts are nil or zero, there is nothing to add.
pub amount_of_nothing :
    (p : Part) (b s : Option ℤ)
    → (zero_or_nil b && zero_or_nil s) ≡ true
    → amount p (or_zero b) (or_zero s) ≡ pos 0
amount_of_nothing balances none s h = refl
amount_of_nothing balances (some b) s h = ground arith
amount_of_nothing stakes b none h = refl
amount_of_nothing stakes b (some s) h = ground arith
