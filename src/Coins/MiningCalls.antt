-- ===== src/Coins/MiningCalls.antt =====
-- collector.go: what the rewards for mining a block come to.
use idena_indexer.Base.{
  ◌≡◌, refl, ap, ◌∙◌, sym, Bool, true, false, ◌&&◌, not, Option, some, List, [], ◌∷◌, arith,
  Bool-cases, inl, inr,
}
use idena_indexer.Base.Int.{ℤ, pos, ◌+ℤ◌, +ℤ_assoc}
use idena_indexer.Base.Eq.{◌==◌, number_key}
use idena_indexer.Base.Map.{lookup}
use idena_indexer.Base.SumBy.{when, sum_by, when_zero, +ℤ_zero, zero_+ℤ}
use idena_indexer.Node.{Address}
use idena_indexer.Coins.{
  BlockStats, is_zero, or_zero, add_mining_reward, add_proposer_reward, add_to_committee,
  add_final_committee_reward,
}
use idena_indexer.EpochRewards.Sums.{Part, balances, stakes, amount}
use idena_indexer.Coins.Ledger.{empty_stats}
use idena_indexer.Coins.Mining.{
  is_to, mined, IsIndexed, reward, mined-add_mining_reward, add_mining_reward-IsIndexed,
  add_to_committee-IsIndexed, mined-add_to_committee, goes_to, same_dest, two_dests, is_ours,
}

-- The calls that reward the mining.
pub data Call : Type 0 where
  proposer_reward : Address → Address → Option ℤ → Option ℤ → Call
  committee_reward : Address → Address → Option ℤ → Option ℤ → Call

abbrev pub apply : Call → BlockStats → BlockStats
apply (proposer_reward bd sd b s) st = add_proposer_reward bd sd b s st
apply (committee_reward bd sd b s) st = add_final_committee_reward bd sd b s st

unfoldable pub run : List Call → BlockStats → BlockStats
run [] st = st
run (c ∷ cs) st = run cs (apply c st)

abbrev pub paid_by : Part → Bool → Address → Call → ℤ
paid_by p proposer a (proposer_reward bd sd b s) =
    when proposer (goes_to p a bd sd (or_zero b) (or_zero s))
paid_by p proposer a (committee_reward bd sd b s) =
    when (not proposer) (goes_to p a bd sd (or_zero b) (or_zero s))

unfoldable pub paid : Part → Bool → Address → List Call → ℤ
paid p proposer a [] = pos 0
paid p proposer a (c ∷ cs) = paid_by p proposer a c +ℤ paid p proposer a cs

is_ours-true : (proposer : Bool) → is_ours proposer true ≡ proposer
is_ours-true true = refl
is_ours-true false = refl

is_ours-false : (proposer : Bool) → is_ours proposer false ≡ not proposer
is_ours-false true = refl
is_ours-false false = refl

mined-add_proposer_reward :
    (bd sd : Address) (b s : Option ℤ) (st : BlockStats) (p : Part) (proposer : Bool) (a : Address)
    → mined p proposer a (add_proposer_reward bd sd b s st)
      ≡ mined p proposer a st +ℤ paid_by p proposer a (proposer_reward bd sd b s)
unfolding add_proposer_reward
mined-add_proposer_reward bd sd b s st p proposer a = elim (Bool-cases (bd == sd)) [
  | inl e ↦
      rw (e, add_proposer_reward)
        (mined-add_mining_reward bd b s true st p proposer a
          ∙ ap (λ y. mined p proposer a st +ℤ y)
              (same_dest p (is_ours proposer true) a bd sd (or_zero b) (or_zero s) e
                ∙ ap (λ c. when c (goes_to p a bd sd (or_zero b) (or_zero s)))
                    (is_ours-true proposer)))
  | inr e ↦
      let first = (add_mining_reward bd b (some (pos 0)) true st).1 in
      rw (e, add_proposer_reward)
        (mined-add_mining_reward sd (some (pos 0)) s true first p proposer a
          ∙ ap
              (λ y.
                y
                +ℤ when (is_to proposer a (reward sd (pos 0) (or_zero s) true))
                    (amount p (pos 0) (or_zero s)))
              (mined-add_mining_reward bd b (some (pos 0)) true st p proposer a)
          ∙ two_dests p (is_ours proposer true) a bd sd (or_zero b) (or_zero s)
              (mined p proposer a st)
          ∙ ap (λ c. mined p proposer a st +ℤ when c (goes_to p a bd sd (or_zero b) (or_zero s)))
              (is_ours-true proposer))
]

when-nothing :
    (p : Part) (c : Bool) (a bd sd : Address) (b s : ℤ)
    → (is_zero b && is_zero s) ≡ true
    → when c (goes_to p a bd sd b s) ≡ pos 0
when-nothing balances c a bd sd b s e =
    let zero_b : b ≡ pos 0 = ground arith in rw (zero_b, when_zero (bd == a)) (when_zero c)
when-nothing stakes c a bd sd b s e =
    let zero_s : s ≡ pos 0 = ground arith in rw (zero_s, when_zero (sd == a)) (when_zero c)

mined-add_final_committee_reward :
    (bd sd : Address) (b s : Option ℤ) (st : BlockStats)
    → IsIndexed st
    → (p : Part) (proposer : Bool) (a : Address)
    → mined p proposer a (add_final_committee_reward bd sd b s st)
      ≡ mined p proposer a st +ℤ paid_by p proposer a (committee_reward bd sd b s)
unfolding add_final_committee_reward
mined-add_final_committee_reward bd sd b s st h p proposer a =
    elim (Bool-cases (is_zero (or_zero b) && is_zero (or_zero s))) [
      | inl e ↦
          rw (e, add_final_committee_reward)
            (sym (+ℤ_zero (mined p proposer a st))
              ∙ ap (λ y. mined p proposer a st +ℤ y)
                  (sym (when-nothing p (not proposer) a bd sd (or_zero b) (or_zero s) e)))
      | inr e ↦ elim (Bool-cases (bd == sd)) [
        | inl same ↦
            rw (e, same, add_final_committee_reward)
              (mined-add_to_committee bd (or_zero b) (or_zero s) st h p proposer a
                ∙ ap (λ y. mined p proposer a st +ℤ y)
                    (same_dest p (is_ours proposer false) a bd sd (or_zero b) (or_zero s) same
                      ∙ ap (λ c. when c (goes_to p a bd sd (or_zero b) (or_zero s)))
                          (is_ours-false proposer)))
        | inr other ↦
            let first = add_to_committee bd (or_zero b) (pos 0) st in
            rw (e, other, add_final_committee_reward)
              (mined-add_to_committee sd (pos 0) (or_zero s) first
                  (add_to_committee-IsIndexed bd (or_zero b) (pos 0) st h) p proposer a
                ∙ ap
                    (λ y.
                      y
                      +ℤ when (is_to proposer a (reward sd (pos 0) (or_zero s) false))
                          (amount p (pos 0) (or_zero s)))
                    (mined-add_to_committee bd (or_zero b) (pos 0) st h p proposer a)
                ∙ two_dests p (is_ours proposer false) a bd sd (or_zero b) (or_zero s)
                    (mined p proposer a st)
                ∙ ap
                    (λ c.
                      mined p proposer a st +ℤ when c (goes_to p a bd sd (or_zero b) (or_zero s)))
                    (is_ours-false proposer))
      ]
    ]

apply-IsIndexed : (c : Call) (st : BlockStats) → IsIndexed st → IsIndexed (apply c st)
unfolding add_proposer_reward add_final_committee_reward
apply-IsIndexed (proposer_reward bd sd b s) st h = elim (Bool-cases (bd == sd)) [
  | inl e ↦ rw (e, add_proposer_reward) (add_mining_reward-IsIndexed bd b s true st h)
  | inr e ↦
      rw (e, add_proposer_reward)
        (add_mining_reward-IsIndexed sd (some (pos 0)) s true _
          (add_mining_reward-IsIndexed bd b (some (pos 0)) true st h))
]
apply-IsIndexed (committee_reward bd sd b s) st h =
    elim (Bool-cases (is_zero (or_zero b) && is_zero (or_zero s))) [
      | inl e ↦ rw (e, add_final_committee_reward) (record { points = h.points })
      | inr e ↦ elim (Bool-cases (bd == sd)) [
        | inl same ↦
            rw (e, same, add_final_committee_reward)
              (record {
                points = (add_to_committee-IsIndexed bd (or_zero b) (or_zero s) st h).points;
              })
        | inr other ↦
            rw (e, other, add_final_committee_reward)
              (record {
                points =
                    (add_to_committee-IsIndexed sd (pos 0) (or_zero s)
                      (add_to_committee bd (or_zero b) (pos 0) st)
                      (add_to_committee-IsIndexed bd (or_zero b) (pos 0) st h)).points;
              })
      ]
    ]

mined-apply :
    (c : Call) (st : BlockStats)
    → IsIndexed st
    → (p : Part) (proposer : Bool) (a : Address)
    → mined p proposer a (apply c st) ≡ mined p proposer a st +ℤ paid_by p proposer a c
mined-apply (proposer_reward bd sd b s) st h p proposer a =
    mined-add_proposer_reward bd sd b s st p proposer a
mined-apply (committee_reward bd sd b s) st h p proposer a =
    mined-add_final_committee_reward bd sd b s st h p proposer a

mined-run :
    (cs : List Call) (st : BlockStats)
    → IsIndexed st
    → (p : Part) (proposer : Bool) (a : Address)
    → mined p proposer a (run cs st) ≡ mined p proposer a st +ℤ paid p proposer a cs
unfolding run paid
mined-run [] st h p proposer a = sym (+ℤ_zero (mined p proposer a st))
mined-run (c ∷ cs) st h p proposer a =
    mined-run cs (apply c st) (apply-IsIndexed c st h) p proposer a
    ∙ ap (λ y. y +ℤ paid p proposer a cs) (mined-apply c st h p proposer a)
    ∙ +ℤ_assoc (mined p proposer a st) (paid_by p proposer a c) (paid p proposer a cs)

-- After any calls that reward the mining of a block with nothing collected, the rewards of the proposer,
-- and those of the final committee, add up for every address to the balances that the calls send to it
-- and the stakes that they send to it.
pub run-mines :
    (cs : List Call) (p : Part) (proposer : Bool) (a : Address)
    → mined p proposer a (run cs empty_stats) ≡ paid p proposer a cs
unfolding lookup sum_by
run-mines cs p proposer a =
    mined-run cs empty_stats (record { points = λ j i k. ground (arith, k) }) p proposer a
    ∙ zero_+ℤ (paid p proposer a cs)
