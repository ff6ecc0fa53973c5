-- ===== src/EpochRewards/Books.antt =====
-- collector.go: what the calls do between `credit` and `addAddrTotalReward` leaves the books alone.
use idena_indexer.Base.{
  ℕ, ◌≡◌, refl, ◌∙◌, sym, true, false, ◌||◌, Option, none, some, List, [], ◌∷◌, subst, arith,
  Bool-cases, inl, inr, Option-cases,
}
use idena_indexer.Base.Int.{ℤ}
use idena_indexer.Base.Eq.{◌==◌, number_key}
use idena_indexer.Node.{Address, Hash}
use idena_indexer.EpochRewards.{
  RewardsStats, init_reward_stats, saved_invite, saved_invite_win, add_addr_total_reward,
}
use idena_indexer.EpochRewards.Calls.{
  Env, with_flip, credit, get_flip_cid, add_reported_flip_reward, add_rewarded_flips,
  add_rewarded_extra_flips, add_rewarded_invite,
}
use idena_indexer.EpochRewards.Run.{Transfer}
use idena_indexer.EpochRewards.Posted.{SameBooks, Posted, credit-Posted, counted-Posted}

pub same_books : {st : RewardsStats} → SameBooks st st
same_books = record { rewards = refl; pointers = refl; totals = refl; delegatees = refl }

pub then_same : {a b c : RewardsStats} → SameBooks a b → SameBooks b c → SameBooks a c
then_same h k = record {
  rewards = k.rewards ∙ h.rewards;
  pointers = k.pointers ∙ h.pointers;
  totals = k.totals ∙ h.totals;
  delegatees = k.delegatees ∙ h.delegatees;
}

pub add_rewarded_flips-SameBooks :
    (env : Env) (flips : List (List ℕ)) (st : RewardsStats)
    → SameBooks st (add_rewarded_flips env flips st)
unfolding add_rewarded_flips init_reward_stats
add_rewarded_flips-SameBooks env [] st = same_books
add_rewarded_flips-SameBooks env (f ∷ fs) st = record {
  rewards = refl;
  pointers = refl;
  totals = refl;
  delegatees = refl;
}

pub add_rewarded_extra_flips-SameBooks :
    (env : Env) (flips : List (List ℕ)) (st : RewardsStats)
    → SameBooks st (add_rewarded_extra_flips env flips st)
unfolding add_rewarded_extra_flips init_reward_stats
add_rewarded_extra_flips-SameBooks env [] st = same_books
add_rewarded_extra_flips-SameBooks env (f ∷ fs) st = record {
  rewards = refl;
  pointers = refl;
  totals = refl;
  delegatees = refl;
}

pub add_reported_flip_reward-SameBooks :
    (env : Env) (a : Address) (shard : ℕ) (i : ℤ) (b s : Option ℤ) (st st' : RewardsStats)
    → add_reported_flip_reward env a shard i b s st ≡ some st'
    → SameBooks st st'
unfolding add_reported_flip_reward init_reward_stats
add_reported_flip_reward-SameBooks env a shard i b s st st' ran =
    elim (get_flip_cid env shard i)
        as (λ o.
          elim o [
            | none ↦ none
            | some none ↦ some st
            | some (some cid) ↦ some (with_flip env a cid b s st)
          ]
            ≡ some st'
          → SameBooks st st') [
            | none ↦ λ h. ground (arith, h)
            | some none ↦ λ h. subst (SameBooks st) {x = st} (ground (arith, h)) same_books
            | some (some cid) ↦ λ h.
                subst (SameBooks st) {x = with_flip env a cid b s st} (ground (arith, h))
                  (record { rewards = refl; pointers = refl; totals = refl; delegatees = refl })
          ]
      ran

pub add_rewarded_invite-SameBooks :
    (env : Env) (a : Address) (h : Option Hash) (t height : ℕ) (st : RewardsStats)
    → SameBooks st (add_rewarded_invite env a h t height st)
unfolding add_rewarded_invite init_reward_stats
add_rewarded_invite-SameBooks env a h t height st =
    elim (Bool-cases (t == saved_invite_win || t == saved_invite)) [
      | inl e ↦
          rw (e, add_rewarded_invite)
            (record { rewards = refl; pointers = refl; totals = refl; delegatees = refl })
      | inr e ↦ elim (Option-cases h) [
        | inl q ↦ rw (e, q, add_rewarded_invite) same_books
        | inr (x, q) ↦
            rw (e, q, add_rewarded_invite)
              (record { rewards = refl; pointers = refl; totals = refl; delegatees = refl })
      ]
    ]

-- What a call has to do by its transfer.
abbrev pub Follows : Option Transfer → RewardsStats → RewardsStats → Type 0
Follows none st st' = SameBooks st st'
Follows (some x) st st' = Posted x st st'

pub for_transfer :
    {o : Option Transfer} (st st' : RewardsStats) (o' : Option Transfer)
    → o ≡ o'
    → Follows o' st st'
    → Follows o st st'
for_transfer st st' o' e h = subst (λ z. Follows z st st') (sym e) h

pub ==_refl : (a : Address) → (a == a) ≡ true
==_refl a = ground arith

abbrev pub uncounted : Address → Address → ℕ → Option ℤ → Option ℤ → Transfer
uncounted bd sd t b s = record {
  balance_dest = bd;
  stake_dest = sd;
  reward_type = t;
  balance = b;
  stake = s;
  counted = false;
}

abbrev pub counted : Address → Address → ℕ → Option ℤ → Option ℤ → Transfer
counted bd sd t b s = record {
  balance_dest = bd;
  stake_dest = sd;
  reward_type = t;
  balance = b;
  stake = s;
  counted = true;
}

-- A call that begins with `credit` and ends with `addAddrTotalReward` posts its transfer, where it
-- keeps the books in between.
pub between :
    (bd sd : Address) (t : ℕ) (b s : Option ℤ) (st last : RewardsStats)
    → SameBooks (credit t bd sd b s st) last
    → Posted (counted bd sd t b s) st (add_addr_total_reward sd b s last)
between bd sd t b s st last h =
    counted-Posted (counted bd sd t b s) st (credit t bd sd b s st) last
      (credit-Posted (uncounted bd sd t b s) st refl) h refl
