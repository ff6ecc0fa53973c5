-- ===== src/EpochRewards/Collected.antt =====
-- collector.go: what the reward statistics hold after the calls of a block.
use idena_indexer.Base.{
  ℕ, ◌≡◌, ◌↔◌, ◌∙◌, Bool, true, false, ◌||◌, Option, none, some, List, [], ◌∷◌, arith, inl, inr,
  Option-cases, ltb,
}
use idena_indexer.Base.Int.{ℤ, pos, negsuc}
use idena_indexer.Base.Eq.{number_key}
use idena_indexer.Base.Map.{lookup}
use idena_indexer.Node.{Address, Hash}
use idena_indexer.EpochRewards.{RewardsStats, is_accumulated, reported_flips_reward}
use idena_indexer.EpochRewards.Calls.{
  Env, determine_invitee_reward_type, add_invitee_reward, get_flip_cid, credit,
  add_reported_flip_reward, add_reported_flips_reward,
}
use idena_indexer.EpochRewards.Run.{Call, apply, run, invitee, reported_flips}
use idena_indexer.EpochRewards.Sums.{Part, sum_for, zero_+ℤ}
use idena_indexer.EpochRewards.Pointers.{IsIndexed, key_at}
use idena_indexer.EpochRewards.Totals.{total_in}
use idena_indexer.EpochRewards.DelegateeBooks.{received, delegated}
use idena_indexer.EpochRewards.Paid.{
  summed, paid, earned, collected, handed_over, run-Adds, run-IsIndexed, sum_for-Adds,
  total_in-Adds, received-Adds, delegated-Adds,
}

-- `EnableCollecting`: no reward statistics yet.
abbrev pub empty_stats : RewardsStats
empty_stats = record {
  exists = false;
  rewards = [];
  epoch_rewards_by_type_and_addr = [];
  total_rewards_by_addr = [];
  delegatees_epoch_rewards = [];
  ages_by_address = [];
  staked_amounts_by_address = [];
  failed_staked_amounts_by_address = [];
  rewarded_flip_cids = [];
  rewarded_extra_flip_cids = [];
  reported_flip_rewards = [];
  rewarded_invites = [];
  rewarded_invitees = [];
  saved_invite_rewards_count = [];
}

empty_stats-IsIndexed : IsIndexed empty_stats
unfolding lookup
empty_stats-IsIndexed = record {
  points = λ t a i h. ground (arith, h);
  pointed = λ t a i c h. ground (arith, h);
}

-- The call panics: it rewards an invitee whose age is not 1, 2 or 3, or a reported flip with an index
-- that is not negative, where there are no validation statistics.
abbrev pub panics : Env → Call → Bool
panics env (invitee a s age h height) = ltb age 1 || ltb 3 age
panics env (reported_flips bd sd shard (pos i) b s) = elim env.validation_stats [
  | none ↦ true
  | some _ ↦ false
]
panics env (_) = false

unfoldable pub any_panics : Env → List Call → Bool
any_panics env [] = false
any_panics env (c ∷ cs) = panics env c || any_panics env cs

invitee-none_iff :
    (env : Env) (a : Address) (s : Option ℤ) (age : ℕ) (h : Hash) (height : ℕ) (st : RewardsStats)
    → (add_invitee_reward env a s age h height st ≡ none) ↔ ((ltb age 1 || ltb 3 age) ≡ true)
unfolding add_invitee_reward determine_invitee_reward_type
invitee-none_iff env a s age h height st = ground arith

reported_flip-none_iff :
    (env : Env) (a : Address) (shard : ℕ) (i : ℤ) (b s : Option ℤ) (st : RewardsStats)
    → (add_reported_flip_reward env a shard i b s st ≡ none) ↔ (get_flip_cid env shard i ≡ none)
unfolding add_reported_flip_reward
reported_flip-none_iff env a shard i b s st = ground arith

get_flip_cid-none_iff :
    (env : Env) (bd sd : Address) (shard : ℕ) (i : ℤ) (b s : Option ℤ)
    → (get_flip_cid env shard i ≡ none) ↔ (panics env (reported_flips bd sd shard i b s) ≡ true)
unfolding get_flip_cid
get_flip_cid-none_iff env bd sd shard (pos i) b s = ground arith
get_flip_cid-none_iff env bd sd shard (negsuc i) b s = ground arith

reported_flips-none_iff :
    (env : Env) (bd sd : Address) (shard : ℕ) (i : ℤ) (b s : Option ℤ) (st : RewardsStats)
    → (add_reported_flips_reward env bd sd shard i b s st ≡ none)
      ↔ (panics env (reported_flips bd sd shard i b s) ≡ true)
unfolding add_reported_flips_reward
reported_flips-none_iff env bd sd shard i b s st =
    let mid = credit reported_flips_reward bd sd b s st in
    ground (
      arith,
      reported_flip-none_iff env sd shard i b s mid,
      get_flip_cid-none_iff env bd sd shard i b s,
    )

apply-none_iff :
    (env : Env) (c : Call) (st : RewardsStats) → (apply env c st ≡ none) ↔ (panics env c ≡ true)
apply-none_iff env (invitee a s age h height) st = invitee-none_iff env a s age h height st
apply-none_iff env (reported_flips bd sd shard i b s) st =
    reported_flips-none_iff env bd sd shard i b s st
apply-none_iff env (_) st = ground arith

-- The calls panic exactly where one of them rewards an invitee whose age is not 1, 2 or 3, or a
-- reported flip with an index that is not negative while there are no validation statistics, whatever
-- the reward statistics hold.
pub run-none_iff :
    (env : Env) (cs : List Call) (st : RewardsStats)
    → (run env cs st ≡ none) ↔ (any_panics env cs ≡ true)
unfolding run any_panics
run-none_iff env [] st = ground arith
run-none_iff env (c ∷ cs) st = elim (Option-cases (apply env c st)) [
  | inl e ↦ ground (arith, apply-none_iff env c st, e)
  | inr (mid, e) ↦ ground (arith, apply-none_iff env c st, run-none_iff env cs mid, e)
]

run-returns :
    (env : Env) (cs : List Call)
    → any_panics env cs ≡ false
    → (st : RewardsStats) × (run env cs empty_stats ≡ some st)
run-returns env cs h = elim (Option-cases (run env cs empty_stats)) [
  | inl e ↦ ground (arith, run-none_iff env cs empty_stats, e)
  | inr r ↦ r
]

pub run-sums :
    (env : Env) (cs : List Call) (st : RewardsStats)
    → run env cs empty_stats ≡ some st
    → (p : Part) (t : ℕ) (a : Address) → sum_for p t a st.rewards ≡ summed (paid p t a) cs
unfolding sum_for
run-sums env cs st ran p t a =
    run-Adds (λ s. sum_for p t a s.rewards) (paid p t a) (sum_for-Adds p t a) env cs empty_stats st
      empty_stats-IsIndexed ran
    ∙ zero_+ℤ (summed (paid p t a) cs)

-- Calls in which every rewarded invitee has age 1, 2 or 3, and which reward no reported flip at an
-- index that is not negative while there are no validation statistics, return from no statistics, and
-- then for every type and address the balances (the stakes) of the rows of `rewards` add up to the
-- balances (the stakes) that the calls paid to the address by that type.
pub run-pays :
    (env : Env) (cs : List Call)
    → any_panics env cs ≡ false
    → (st : RewardsStats) × (run env cs empty_stats ≡ some st)
      × ((p : Part) (t : ℕ) (a : Address) → sum_for p t a st.rewards ≡ summed (paid p t a) cs)
run-pays env cs h = let (st, ran) = run-returns env cs h in (st, ran, run-sums env cs st ran)

-- Calls in which every rewarded invitee has age 1, 2 or 3, and which reward no reported flip at an
-- index that is not negative while there are no validation statistics, return from no statistics, and
-- then `totalRewardsByAddr` has for every address the sum of the balances and stakes that the calls
-- paid to it, but for foundation payouts and the zero wallet fund.
pub run-earns :
    (env : Env) (cs : List Call)
    → any_panics env cs ≡ false
    → (st : RewardsStats) × (run env cs empty_stats ≡ some st)
      × ((a : Address) → total_in a st.total_rewards_by_addr ≡ summed (earned a) cs)
unfolding lookup
run-earns env cs h =
    let (st, ran) = run-returns env cs h in
    (
      st,
      ran,
      λ a.
          run-Adds (λ s. total_in a s.total_rewards_by_addr) (earned a) (total_in-Adds a) env cs
            empty_stats st empty_stats-IsIndexed ran
          ∙ zero_+ℤ (summed (earned a) cs),
    )

-- Calls in which every rewarded invitee has age 1, 2 or 3, and which reward no reported flip at an
-- index that is not negative while there are no validation statistics, return from no statistics, and
-- then each delegatee has by type the sum of the balances that went to it instead of another address,
-- and under each delegator the sum of those that went to it for that delegator.
pub run-hands_over :
    (env : Env) (cs : List Call)
    → any_panics env cs ≡ false
    → (st : RewardsStats) × (run env cs empty_stats ≡ some st)
      × ((p : Part) (t : ℕ) (d : Address) → received p t d st ≡ summed (collected p t d) cs)
      × ((p : Part) (t : ℕ) (g d : Address)
          → delegated p t g d st ≡ summed (handed_over p t g d) cs)
unfolding lookup
run-hands_over env cs h =
    let (st, ran) = run-returns env cs h in
    (
      st,
      ran,
      (λ p t d.
          run-Adds (received p t d) (collected p t d) (received-Adds p t d) env cs empty_stats st
            empty_stats-IsIndexed ran
          ∙ zero_+ℤ (summed (collected p t d) cs)),
      (λ p t g d.
          run-Adds (delegated p t g d) (handed_over p t g d) (delegated-Adds p t g d) env cs
            empty_stats st empty_stats-IsIndexed ran
          ∙ zero_+ℤ (summed (handed_over p t g d) cs)),
    )

-- After any calls from no statistics, two rows of `rewards` with the same address and the same type are
-- the same row, where the type is one whose rewards are put together.
pub run-one_row :
    (env : Env) (cs : List Call) (st : RewardsStats)
    → run env cs empty_stats ≡ some st
    → (t : ℕ) (a : Address) (i j : ℕ) → is_accumulated t ≡ true
    → key_at st.rewards i ≡ some (t, a)
    → key_at st.rewards j ≡ some (t, a)
    → i ≡ j
run-one_row env cs st ran t a i j c h k =
    let indexed = run-IsIndexed env cs empty_stats st empty_stats-IsIndexed ran in
    ground (arith, indexed.pointed t a i c h, indexed.pointed t a j c k)
