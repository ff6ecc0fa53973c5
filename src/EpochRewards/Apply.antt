-- ===== src/EpochRewards/Apply.antt =====
-- collector.go: each of the calls posts its transfer, or leaves the books alone.
use idena_indexer.Base.{
  ℕ, ◌≡◌, refl, Bool, ◌||◌, not, Option, none, some, List, [], ◌∷◌, ◌++◌, subst, arith, Bool-cases,
  inl, inr, Option-cases, leb, length, take, drop,
}
use idena_indexer.Base.Int.{ℤ}
use idena_indexer.Base.Eq.{number_key}
use idena_indexer.Node.{Address, Hash}
use idena_indexer.EpochRewards.{
  RewardsStats, init_reward_stats, validation_reward, flips_reward, extra_flips_reward,
  reported_flips_reward, candidate_reward, staking_reward, foundation_payouts, zero_wallet_fund,
  add_reward,
}
use idena_indexer.EpochRewards.Calls.{
  Env, credit, add_rewarded_flips, add_validation_reward, add_candidate_reward, add_staking_reward,
  add_flips_basic_reward, add_flips_extra_reward, add_reported_flips_reward,
  add_reported_flip_reward, determine_invitee_reward_type, add_invitee_reward,
  determine_invitations_reward_type, add_invitations_reward, add_foundation_payout,
  add_zero_wallet_fund, add_non_validated_stake,
}
use idena_indexer.EpochRewards.Run.{
  Transfer, Call, apply, transfer_of, validation, candidate, staking, flips_basic, flips_extra,
  reported_flips, invitee, invitations, foundation_payout, zero_wallet, non_validated_stake,
}
use idena_indexer.EpochRewards.Posted.{SameBooks, Posted, add_reward-Posted, counted-Posted}
use idena_indexer.EpochRewards.Books.{
  same_books, then_same, add_rewarded_flips-SameBooks, add_rewarded_extra_flips-SameBooks,
  add_reported_flip_reward-SameBooks, add_rewarded_invite-SameBooks, for_transfer, ==_refl, between,
  uncounted, counted, Follows,
}

validation-Posted :
    (env : Env) (bd sd : Address) (age : ℕ) (b s : Option ℤ) (st : RewardsStats)
    → Posted (counted bd sd validation_reward b s) st (add_validation_reward env bd sd age b s st)
unfolding add_validation_reward init_reward_stats
validation-Posted env bd sd age b s st =
    between bd sd validation_reward b s st _
      (record { rewards = refl; pointers = refl; totals = refl; delegatees = refl })

candidate-Posted :
    (bd sd : Address) (b s : Option ℤ) (st : RewardsStats)
    → Posted (counted bd sd candidate_reward b s) st (add_candidate_reward bd sd b s st)
unfolding add_candidate_reward init_reward_stats
candidate-Posted bd sd b s st =
    between bd sd candidate_reward b s st _
      (record { rewards = refl; pointers = refl; totals = refl; delegatees = refl })

staking-Posted :
    (env : Env) (bd sd : Address) (staked b s : Option ℤ) (st : RewardsStats)
    → Posted (counted bd sd staking_reward b s) st (add_staking_reward env bd sd staked b s st)
unfolding add_staking_reward init_reward_stats
staking-Posted env bd sd none b s st =
    between bd sd staking_reward b s st _
      (record { rewards = refl; pointers = refl; totals = refl; delegatees = refl })
staking-Posted env bd sd (some x) b s st =
    between bd sd staking_reward b s st _
      (record { rewards = refl; pointers = refl; totals = refl; delegatees = refl })

flips_basic-Posted :
    (env : Env) (bd sd : Address) (b s : Option ℤ) (flips : List (List ℕ)) (st : RewardsStats)
    → Posted (counted bd sd flips_reward b s) st (add_flips_basic_reward env bd sd b s flips st)
unfolding add_flips_basic_reward
flips_basic-Posted env bd sd b s flips st =
    let mid = credit flips_reward bd sd b s st in
    elim (Bool-cases (not env.enable_upgrade11 || leb (length flips) 3)) [
      | inl e ↦
          rw (e, add_flips_basic_reward)
            (between bd sd flips_reward b s st _ (add_rewarded_flips-SameBooks env flips mid))
      | inr e ↦
          rw (e, add_flips_basic_reward)
            (between bd sd flips_reward b s st _ (
              then_same (add_rewarded_flips-SameBooks env (take 3 flips) mid) (
                add_rewarded_extra_flips-SameBooks env (drop 3 flips)
                  (add_rewarded_flips env (take 3 flips) mid))))
    ]

flips_extra-Posted :
    (env : Env) (bd sd : Address) (b s : Option ℤ) (flips : List (List ℕ)) (st : RewardsStats)
    → Posted
        (counted bd sd extra_flips_reward b s)
        st
        (add_flips_extra_reward env bd sd b s flips st)
unfolding add_flips_extra_reward
flips_extra-Posted env bd sd b s flips st =
    let mid = credit extra_flips_reward bd sd b s st in
    elim (Bool-cases (not env.enable_upgrade11)) [
      | inl e ↦
          rw (e, add_flips_extra_reward)
            (between bd sd extra_flips_reward b s st _
              (add_rewarded_extra_flips-SameBooks env flips mid))
      | inr e ↦
          rw (e, add_flips_extra_reward) (between bd sd extra_flips_reward b s st mid same_books)
    ]

reported_flips-Posted :
    (env : Env) (bd sd : Address) (shard : ℕ) (i : ℤ) (b s : Option ℤ) (st st' : RewardsStats)
    → add_reported_flips_reward env bd sd shard i b s st ≡ some st'
    → Posted (counted bd sd reported_flips_reward b s) st st'
unfolding add_reported_flips_reward
reported_flips-Posted env bd sd shard i b s st st' ran =
    let mid = credit reported_flips_reward bd sd b s st in
    elim (Option-cases (add_reported_flip_reward env sd shard i b s mid)) [
      | inl e ↦ ground (arith, e, ran)
      | inr (next, e) ↦
          subst (Posted (counted bd sd reported_flips_reward b s) st) (ground (arith, e, ran)) (
            between bd sd reported_flips_reward b s st next
              (add_reported_flip_reward-SameBooks env sd shard i b s mid next e))
    ]

invitee-Follows :
    (env : Env) (a : Address) (s : Option ℤ) (age : ℕ) (h : Hash) (height : ℕ)
    (st st' : RewardsStats)
    → add_invitee_reward env a s age h height st ≡ some st'
    → Follows (transfer_of (invitee a s age h height)) st st'
unfolding add_invitee_reward init_reward_stats
invitee-Follows env a s age h height st st' ran =
    elim (Option-cases (determine_invitee_reward_type age)) [
      | inl e ↦ ground (arith, e)
      | inr (t, e) ↦
          let mid = add_reward a none s t st in
          let last = record (init_reward_stats mid) {
            rewarded_invitees =
                mid.rewarded_invitees
                ++ record { tx_hash = env.convert_hash h; epoch_height = height } ∷ [];
          } in
          let same : SameBooks mid last = record {
            rewards = refl;
            pointers = refl;
            totals = refl;
            delegatees = refl;
          } in
          let posted =
            counted-Posted (counted a a t none s) st mid last
              (add_reward-Posted (uncounted a a t none s) st (==_refl a) refl) same refl in
          for_transfer st _ (some (counted a a t none s)) (rw (e, transfer_of) refl)
            (subst (λ z. Posted (counted a a t none s) st z) (ground (arith, e, ran)) posted)
    ]

invitations-Follows :
    (env : Env) (bd sd : Address) (b s : Option ℤ) (age : ℕ) (h : Option Hash) (height : ℕ)
    (winner : Bool) (st : RewardsStats)
    → Follows
        (transfer_of (invitations bd sd b s age h height winner))
        st
        (add_invitations_reward env bd sd b s age h height winner st)
unfolding add_invitations_reward
invitations-Follows env bd sd b s age h height winner st =
    elim (Option-cases (determine_invitations_reward_type age winner)) [
      | inl e ↦
          for_transfer st _ none (rw (e, transfer_of) refl)
            (rw (e, add_invitations_reward) same_books)
      | inr (t, e) ↦ for_transfer st _ (some (counted bd sd t b s)) (rw (e, transfer_of) refl) (
          rw (e, add_invitations_reward)
            (between bd sd t b s st _
              (add_rewarded_invite-SameBooks env sd h t height (credit t bd sd b s st))))
    ]

foundation_payout-Posted :
    (a : Address) (b : Option ℤ) (st : RewardsStats)
    → Posted (uncounted a a foundation_payouts b none) st (add_foundation_payout a b st)
unfolding add_foundation_payout
foundation_payout-Posted a b st =
    add_reward-Posted (uncounted a a foundation_payouts b none) st (==_refl a) refl

zero_wallet-Posted :
    (a : Address) (b : Option ℤ) (st : RewardsStats)
    → Posted (uncounted a a zero_wallet_fund b none) st (add_zero_wallet_fund a b st)
unfolding add_zero_wallet_fund
zero_wallet-Posted a b st =
    add_reward-Posted (uncounted a a zero_wallet_fund b none) st (==_refl a) refl

non_validated_stake-SameBooks :
    (env : Env) (a : Address) (s : Option ℤ) (st : RewardsStats)
    → SameBooks st (add_non_validated_stake env a s st)
unfolding add_non_validated_stake init_reward_stats
non_validated_stake-SameBooks env a none st = same_books
non_validated_stake-SameBooks env a (some x) st = record {
  rewards = refl;
  pointers = refl;
  totals = refl;
  delegatees = refl;
}

-- What holds of the state a call computes to holds of its result.
ends_as :
    {x : Transfer} {st next st' : RewardsStats}
    → some next ≡ some st'
    → Posted x st next
    → Posted x st st'
ends_as {x = x} {st = st} h p = subst (Posted x st) (ground (arith, h)) p

-- Each call posts its transfer, and one without a transfer leaves the books alone.
pub apply-Follows :
    (env : Env) (c : Call) (st st' : RewardsStats)
    → apply env c st ≡ some st'
    → Follows (transfer_of c) st st'
apply-Follows env (validation bd sd age b s) st st' h =
    ends_as h (validation-Posted env bd sd age b s st)
apply-Follows env (candidate bd sd b s) st st' h = ends_as h (candidate-Posted bd sd b s st)
apply-Follows env (staking bd sd staked b s) st st' h =
    ends_as h (staking-Posted env bd sd staked b s st)
apply-Follows env (flips_basic bd sd b s flips) st st' h =
    ends_as h (flips_basic-Posted env bd sd b s flips st)
apply-Follows env (flips_extra bd sd b s flips) st st' h =
    ends_as h (flips_extra-Posted env bd sd b s flips st)
apply-Follows env (reported_flips bd sd shard i b s) st st' h =
    reported_flips-Posted env bd sd shard i b s st st' h
apply-Follows env (invitee a s age x height) st st' h =
    invitee-Follows env a s age x height st st' h
apply-Follows env (invitations bd sd b s age x height winner) st st' h =
    let o = transfer_of (invitations bd sd b s age x height winner) in
    subst (Follows o st) (ground (arith, h))
      (invitations-Follows env bd sd b s age x height winner st)
apply-Follows env (foundation_payout a b) st st' h = ends_as h (foundation_payout-Posted a b st)
apply-Follows env (zero_wallet a b) st st' h = ends_as h (zero_wallet-Posted a b st)
apply-Follows env (non_validated_stake a s) st st' h =
    subst (SameBooks st) (ground (arith, h)) (non_validated_stake-SameBooks env a s st)
