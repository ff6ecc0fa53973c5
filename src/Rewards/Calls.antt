-- ===== src/Rewards/Calls.antt =====
-- rewards.go, `addIfBound`: what the bounds are after any calls.
use idena_indexer.Base.{
  ℕ, ◌≡◌, inl, inr, refl, ◌∙◌, subst, true, false, Option, none, some, List, [], ◌∷◌, arith, ◌==◌,
  ==_iff, Bool-cases, Option-cases,
}
use idena_indexer.Base.Int.{ℤ}
use idena_indexer.Base.Eq.{number_key}
use idena_indexer.Base.Map.{lookup, lookup-insert, lookup-insert_self}
use idena_indexer.Node.{Address}
use idena_indexer.Rewards.{
  RewardsBounds, determine_reward_bound_type, is_nothing, add_amount, add_if_bound,
}
use idena_indexer.Rewards.Bounds.{Reward, counts, AreBounds, uncounted, first, widened}

unfoldable pub run : List Reward → RewardsBounds → RewardsBounds
run [] m = m
run (r ∷ rs) m = run rs (add_if_bound r.address r.age r.amount m)

-- A call for the type itself, and for another type.
add_amount_same :
    (address : Address) (age : ℕ) (x : ℤ) (past : List Reward) (m : RewardsBounds)
    → let r : Reward = record { address = address; age = age; amount = some x } in
      let t = determine_reward_bound_type age in
      counts t r ≡ true
      → AreBounds t past (lookup t m)
      → AreBounds t (r ∷ past) (lookup t (add_amount address age x m))
unfolding add_amount
add_amount_same address age x past m c h =
    let r : Reward = record { address = address; age = age; amount = some x } in
    let t = determine_reward_bound_type age in
    elim (Option-cases (lookup t m)) [
      | inl e ↦
          rw (e, add_amount)
            (rw (lookup-insert_self t _ m) (first t r past x refl c (subst (AreBounds t past) e h)))
      | inr (b, e) ↦
          rw (e, add_amount)
            (rw (lookup-insert_self t _ m)
              (widened t r past x b refl c (subst (AreBounds t past) e h)))
    ]

add_amount_other :
    (t : ℕ) (address : Address) (age : ℕ) (x : ℤ) (m : RewardsBounds)
    → (determine_reward_bound_type age == t) ≡ false
    → lookup t (add_amount address age x m) ≡ lookup t m
unfolding add_amount
add_amount_other t address age x m n =
    let u = determine_reward_bound_type age in
    elim (Option-cases (lookup u m)) [
      | inl e ↦ rw (e, add_amount) (lookup-insert u t _ m ∙ rw n refl)
      | inr (b, e) ↦ rw (e, add_amount) (lookup-insert u t _ m ∙ rw n refl)
    ]

-- One call of `addIfBound`.
add_if_bound-AreBounds :
    (t : ℕ) (address : Address) (age : ℕ) (amount : Option ℤ) (past : List Reward)
    (m : RewardsBounds)
    → AreBounds t past (lookup t m)
    → AreBounds t
        (record { address = address; age = age; amount = amount } ∷ past)
        (lookup t (add_if_bound address age amount m))
unfolding add_if_bound is_nothing
add_if_bound-AreBounds t address age none past m h =
    let r : Reward = record { address = address; age = age; amount = none } in
    uncounted t r past (lookup t m) (ground arith) h
add_if_bound-AreBounds t address age (some x) past m h =
    let r : Reward = record { address = address; age = age; amount = some x } in
    elim (Bool-cases (is_nothing (some x))) [
      | inl e ↦ rw e (uncounted t r past (lookup t m) (ground arith) h)
      | inr e ↦ rw e (elim (Bool-cases (determine_reward_bound_type age == t)) [
        | inl s ↦
            let u = determine_reward_bound_type age in
            let counted : counts u r ≡ true = ground (arith, (==_iff u u).1 refl) in
            subst
              (λ v.
                AreBounds v past (lookup v m)
                → AreBounds v (r ∷ past) (lookup v (add_amount address age x m)))
              ((==_iff u t).0 s) (add_amount_same address age x past m counted) h
        | inr n ↦
            rw (add_amount_other t address age x m n)
              (uncounted t r past (lookup t m) (ground arith) h)
      ])
    ]

-- The rewards of the calls, the latest first, before those of earlier calls.
abbrev pub latest_first : List Reward → List Reward → List Reward
latest_first [] past = past
latest_first (r ∷ rs) past = latest_first rs (r ∷ past)

run-AreBounds :
    (t : ℕ) (rs past : List Reward) (m : RewardsBounds)
    → AreBounds t past (lookup t m)
    → AreBounds t (latest_first rs past) (lookup t (run rs m))
unfolding run
run-AreBounds t [] past m h = h
run-AreBounds t (r ∷ rs) past m h =
    run-AreBounds t rs (r ∷ past) (add_if_bound r.address r.age r.amount m)
      (add_if_bound-AreBounds t r.address r.age r.amount past m h)

-- After any calls of `addIfBound`, each class of age has bounds just where some reward of the class is
-- neither nil nor zero; all such rewards of the class lie between its two bounds, and each bound is the
-- amount of such a reward, with the address that got it.
pub bounds_of_rewards :
    (t : ℕ) (rs : List Reward) → AreBounds t (latest_first rs []) (lookup t (run rs []))
unfolding lookup
bounds_of_rewards t rs = run-AreBounds t rs [] [] tt
