-- ===== src/Coins/Mining.antt =====
-- collector.go: the rewards for mining a block. The balance of a reward goes to one address and its stake
-- to another, which may be the same.
use idena_indexer.Base.{
  ℕ, ◌≡◌, refl, ap, ◌∙◌, sym, subst, Bool, true, false, ◌&&◌, not, Option, none, some, List, [],
  ◌∷◌, ◌++◌, arith, if◌then◌else◌, length, get_elem?, get_elem?-set_self, get_elem?-set_ne,
  Bool-cases, Option-cases, inl, inr,
}
use idena_indexer.Base.Int.{ℤ, pos, ◌+ℤ◌}
use idena_indexer.Base.Eq.{◌==◌, number_key}
use idena_indexer.Base.Map.{lookup, insert, lookup-insert}
use idena_indexer.Base.Positions.{get_elem?-append_end, get_elem?-append_some, get_elem?-bound}
use idena_indexer.Base.SumBy.{when, sum_by, sum_by-append, sum_by-set, when_zero, +ℤ_zero}
use idena_indexer.Node.{Address}
use idena_indexer.Coins.{
  MiningReward, BlockStats, is_zero, zero_or_nil, or_zero, add_mining_reward, increase_reward,
  add_to_committee,
}
use idena_indexer.EpochRewards.Sums.{amount_of_nothing, Part, balances, stakes, amount}

-- Rewards of a proposer, or of the final committee, to an address.
abbrev pub is_to : Bool → Address → MiningReward → Bool
is_to proposer a r = (if proposer then r.proposer else not r.proposer) && r.address == a

abbrev pub part : Part → MiningReward → ℤ
part p r = amount p r.balance r.stake

abbrev pub mined : Part → Bool → Address → BlockStats → ℤ
mined p proposer a st = sum_by (is_to proposer a) (part p) st.mining_rewards

abbrev key_at : List MiningReward → ℕ → Option (Bool × Address)
key_at xs i = elim (get_elem? xs i) [ none ↦ none | some r ↦ some (r.proposer, r.address) ]

-- A pointer of the final committee leads to a reward of its address that is no proposer's.
pub record IsIndexed (st : BlockStats) : Type 0 where
  pub points :
      (a : Address) (i : ℕ)
      → lookup a st.final_committee_rewards_by_addr ≡ some i
      → key_at st.mining_rewards i ≡ some (false, a)

abbrev pub reward : Address → ℤ → ℤ → Bool → MiningReward
reward a b s proposer = record { address = a; balance = b; stake = s; proposer = proposer }

key_at-append_some :
    (xs : List MiningReward) (r : MiningReward) (i : ℕ) (k : Bool × Address)
    → key_at xs i ≡ some k
    → key_at (xs ++ r ∷ []) i ≡ some k
key_at-append_some xs r i k h = elim (Option-cases (get_elem? xs i)) [
  | inl e ↦ ground arith
  | inr (x, e) ↦ ground (arith, get_elem?-append_some xs (r ∷ []) i x e)
]

key_at-append_end :
    (xs : List MiningReward) (r : MiningReward)
    → key_at (xs ++ r ∷ []) (length xs) ≡ some (r.proposer, r.address)
key_at-append_end xs r = ground (arith, get_elem?-append_end xs r)

abbrev raised : ℤ → ℤ → MiningReward → MiningReward
raised b s r = record r { balance = r.balance +ℤ b; stake = r.stake +ℤ s }

key_at-increase_reward :
    (j : ℕ) (b s : ℤ) (xs : List MiningReward) (i : ℕ)
    → key_at (increase_reward j b s xs) i ≡ key_at xs i
unfolding increase_reward
key_at-increase_reward j b s xs i = elim (Option-cases (get_elem? xs j)) [
  | inl e ↦ rw (e, increase_reward) refl
  | inr (r, e) ↦ elim (Bool-cases (j == i)) [
    | inl same ↦
        ground (arith, get_elem?-set_self xs j (raised b s r) (get_elem?-bound xs j r e), e)
    | inr other ↦ ground (arith, get_elem?-set_ne xs {i = j} {j = i} (raised b s r), e)
  ]
]

part-raised :
    (p : Part) (b s : ℤ) (r : MiningReward) → part p (raised b s r) ≡ part p r +ℤ amount p b s
part-raised balances b s r = refl
part-raised stakes b s r = refl

sum_by-increase_reward :
    (p : Part) (proposer : Bool) (a addr : Address) (b s : ℤ) (xs : List MiningReward) (i : ℕ)
    → key_at xs i ≡ some (false, addr)
    → sum_by (is_to proposer a) (part p) (increase_reward i b s xs)
      ≡ sum_by (is_to proposer a) (part p) xs
        +ℤ when (is_to proposer a (reward addr b s false)) (amount p b s)
unfolding increase_reward
sum_by-increase_reward p proposer a addr b s xs i h = elim (Option-cases (get_elem? xs i)) [
  | inl e ↦ ground arith
  | inr (x, e) ↦
      let same : ◌≡◌ {A = Bool × Address} (x.proposer, x.address) (false, addr) = ground arith in
      rw (e, increase_reward)
        (sum_by-set (is_to proposer a) (part p) xs i x (raised b s x) (amount p b s) e refl
            (part-raised p b s x)
          ∙ ap
              (λ k.
                sum_by (is_to proposer a) (part p) xs
                +ℤ when ((if proposer then k.0 else not k.0) && k.1 == a) (amount p b s))
              same)
]

-- A reward as a new entry.
module _ (addr : Address) (b s : Option ℤ) (by_proposer : Bool) (st : BlockStats) where
  pub mined-add_mining_reward :
      (p : Part) (proposer : Bool) (a : Address)
      → mined p proposer a (add_mining_reward addr b s by_proposer st).1
        ≡ mined p proposer a st
          +ℤ when
              (is_to proposer a (reward addr (or_zero b) (or_zero s) by_proposer))
              (amount p (or_zero b) (or_zero s))
  unfolding add_mining_reward
  mined-add_mining_reward p proposer a = elim (Bool-cases (zero_or_nil b && zero_or_nil s)) [
    | inl e ↦
        rw
          (
            e,
            add_mining_reward,
            amount_of_nothing p b s e,
            when_zero (is_to proposer a (reward addr (or_zero b) (or_zero s) by_proposer)),
          )
          (sym (+ℤ_zero (mined p proposer a st)))
    | inr e ↦
        rw (e, add_mining_reward)
          (sum_by-append (is_to proposer a) (part p) st.mining_rewards
            (reward addr (or_zero b) (or_zero s) by_proposer))
  ]

  pub add_mining_reward-IsIndexed :
      IsIndexed st → IsIndexed (add_mining_reward addr b s by_proposer st).1
  unfolding add_mining_reward
  add_mining_reward-IsIndexed h = elim (Bool-cases (zero_or_nil b && zero_or_nil s)) [
    | inl e ↦ rw (e, add_mining_reward) h
    | inr e ↦
        rw (e, add_mining_reward)
          (record {
            points = λ a i k.
                key_at-append_some st.mining_rewards
                  (reward addr (or_zero b) (or_zero s) by_proposer) i (false, a) (h.points a i k);
          })
  ]

-- A reward of the final committee, new or put to the one that is there.
module _ (addr : Address) (b s : ℤ) (st : BlockStats) where
  abbrev added : Option ℕ × BlockStats
  added = add_mining_reward addr (some b) (some s) false st

  -- What holds of the two states it can come to holds of it.
  add_to_committee-cases :
      (P : BlockStats → Type 0)
      → ((i : ℕ)
          → lookup addr st.final_committee_rewards_by_addr ≡ some i
          → P (record st { mining_rewards = increase_reward i b s st.mining_rewards }))
      → P added.1
      → ((i : ℕ)
          → added.0 ≡ some i
          → P (record added.1 {
            final_committee_rewards_by_addr = insert addr i added.1.final_committee_rewards_by_addr;
          }))
      → P (add_to_committee addr b s st)
  unfolding add_to_committee
  add_to_committee-cases P f g h =
      elim (Option-cases (lookup addr st.final_committee_rewards_by_addr)) [
        | inr (i, e) ↦ rw (e, add_to_committee) (f i e)
        | inl e ↦ elim (Option-cases added.0) [
          | inl q ↦ rw (e, q, add_to_committee) g
          | inr (i, q) ↦ rw (e, q, add_to_committee) (h i q)
        ]
      ]

  added-position : (i : ℕ) → added.0 ≡ some i → key_at added.1.mining_rewards i ≡ some (false, addr)
  unfolding add_mining_reward
  added-position i h = elim (Bool-cases (is_zero b && is_zero s)) [
    | inl e ↦ ground (arith, e, h)
    | inr e ↦ ground (arith, e, h, key_at-append_end st.mining_rewards (reward addr b s false))
  ]

  pub add_to_committee-IsIndexed : IsIndexed st → IsIndexed (add_to_committee addr b s st)
  add_to_committee-IsIndexed h =
      let kept = add_mining_reward-IsIndexed addr (some b) (some s) false st h in
      add_to_committee-cases IsIndexed
        (λ i e. record {
          points = λ a j k. key_at-increase_reward i b s st.mining_rewards j ∙ h.points a j k;
        })
        kept
        (λ i e. record {
          points = λ a j k. elim (Bool-cases (addr == a)) [
            | inl same ↦
                let equal : addr ≡ a = ground arith in
                let last : i ≡ j =
                  ground (arith, lookup-insert addr a i added.1.final_committee_rewards_by_addr) in
                subst (λ x. key_at added.1.mining_rewards j ≡ some (false, x)) equal
                  (subst (λ n. key_at added.1.mining_rewards n ≡ some (false, addr)) last
                    (added-position i e))
            | inr other ↦
                kept.points a j
                  (ground (arith, lookup-insert addr a i added.1.final_committee_rewards_by_addr))
          ];
        })

  pub mined-add_to_committee :
      IsIndexed st
      → (p : Part) (proposer : Bool) (a : Address)
      → mined p proposer a (add_to_committee addr b s st)
        ≡ mined p proposer a st +ℤ when (is_to proposer a (reward addr b s false)) (amount p b s)
  mined-add_to_committee h p proposer a =
      let new = mined-add_mining_reward addr (some b) (some s) false st p proposer a in
      add_to_committee-cases
        (λ q.
          mined p proposer a q
          ≡ mined p proposer a st +ℤ when (is_to proposer a (reward addr b s false)) (amount p b s))
        (λ i e.
          sum_by-increase_reward p proposer a addr b s st.mining_rewards i (h.points addr i e))
        new (λ i e. new)

-- What a payment adds for an address: its balance where that goes there, its stake where that does.
abbrev pub goes_to : Part → Address → Address → Address → ℤ → ℤ → ℤ
goes_to balances a balance_dest stake_dest b s = when (balance_dest == a) b
goes_to stakes a balance_dest stake_dest b s = when (stake_dest == a) s

abbrev pub is_ours : Bool → Bool → Bool
is_ours proposer by_proposer = if proposer then by_proposer else not by_proposer

when-and : (c k : Bool) (x : ℤ) → when (c && k) x ≡ when c (when k x)
when-and true k x = refl
when-and false k x = refl

-- One entry for both, or an entry for each.
pub same_dest :
    (p : Part) (c : Bool) (a bd sd : Address) (b s : ℤ)
    → (bd == sd) ≡ true
    → when (c && bd == a) (amount p b s) ≡ when c (goes_to p a bd sd b s)
same_dest balances c a bd sd b s h = when-and c (bd == a) b
same_dest stakes c a bd sd b s h =
    let equal : bd ≡ sd = ground arith in
    when-and c (bd == a) s ∙ ap (λ d. when c (when (d == a) s)) equal

pub two_dests :
    (p : Part) (c : Bool) (a bd sd : Address) (b s x : ℤ)
    → (x +ℤ when (c && bd == a) (amount p b (pos 0))) +ℤ when (c && sd == a) (amount p (pos 0) s)
      ≡ x +ℤ when c (goes_to p a bd sd b s)
two_dests balances c a bd sd b s x =
    rw (when_zero (c && sd == a), +ℤ_zero (x +ℤ when (c && bd == a) b))
      (ap (λ y. x +ℤ y) (when-and c (bd == a) b))
two_dests stakes c a bd sd b s x =
    rw (when_zero (c && bd == a), +ℤ_zero x) (ap (λ y. x +ℤ y) (when-and c (sd == a) s))
