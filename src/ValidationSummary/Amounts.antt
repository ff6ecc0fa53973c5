-- ===== src/ValidationSummary/Amounts.antt =====
-- validation_summary.go: how much was missed and earned, against plain descriptions.
use Prim.Native.String.{String}
use idena_indexer.Base.{
  ℕ, ◌+◌, ◌-◌, ◌≤◌, ◌<◌, ◌≡◌, refl, ap, ◌∙◌, Bool, true, false, ◌&&◌, ◌||◌, not, Option, none, some,
  List, [], ◌∷◌, arith, length, Option-cases, ltb, inl, inr, if◌then◌else◌,
}
use idena_indexer.Base.Int.{ℤ, pos, ◌+ℤ◌, ◌*ℤ◌, int_laws}
use idena_indexer.Base.Eq.{◌==◌, number_key, string_key}
use idena_indexer.Base.Map.{Map, lookup, insert, lookup-insert}
use idena_indexer.Node.{Address}
use idena_indexer.ValidationSummary.{
  required_flips, StringSet, contains, Rules, summary, get_rewarded_flips,
  calculate_flips_reward_summary, count_reports, calculate_reports_reward_summary, RewardType,
  add_rewards, RewardStats, zero_if_nil, add_reward, rewards_by_addr_and_type, is_positive,
  reports_reason, calculate_invitations_reward_summary, calculate_invitee_reward_summary,
  invitation_reward_types, invitee_reward_types,
}

-- Whether the text of a flip's cid is in a set.
abbrev is_rewarded : Rules → StringSet → List ℕ → Bool
is_rewarded r set flip = elim (r.cid_text flip) [ none ↦ false | some cid ↦ contains cid set ]

-- How many flips of a list are in a set.
abbrev pub rewarded_count : Rules → StringSet → List (List ℕ) → ℕ
rewarded_count r set [] = 0
rewarded_count r set (flip ∷ flips) =
    (if is_rewarded r set flip then 1 else 0) + rewarded_count r set flips

get_rewarded_flips-eq-count :
    (r : Rules) (flips : List (List ℕ)) (set : StringSet)
    → length flips < 256
    → (get_rewarded_flips r flips set ≡ rewarded_count r set flips)
      × (rewarded_count r set flips ≤ length flips)
unfolding get_rewarded_flips
get_rewarded_flips-eq-count r [] set h = (refl, omega arith)
get_rewarded_flips-eq-count r (flip ∷ flips) set h =
    let ih = get_rewarded_flips-eq-count r flips set (omega arith) in ground (arith, ih.0, ih.1)

-- For an author with fewer than 256 flips, of which no more are rewarded than are required or
-- available, the missed flip reward is the share times the number of flips without a reward; under
-- upgrade 10 without 11 that counts the required flips and no extra ones.
pub calculate_flips_amount :
    (r : Rules) (reward : Option ℤ) (share : ℤ) (available : ℕ) (flips : List (List ℕ))
    (rewarded extra : StringSet) (penalized missed_validation upgrade10 upgrade11 : Bool)
    → length flips < 256
    → 0 < available
    → available < 256
    → rewarded_count r rewarded flips ≤ required_flips
    → rewarded_count r rewarded flips + rewarded_count r extra flips ≤ available
    → let s =
        calculate_flips_reward_summary r reward
          (some share)
          available
          flips
          rewarded
          extra
          penalized
          missed_validation
          upgrade10
          upgrade11 in
      (s.earned ≡ reward)
      × (s.missed
          ≡ some (
              share
              *ℤ pos (
                  if upgrade10 && not upgrade11
                  then required_flips - rewarded_count r rewarded flips
                  else available
                    - (rewarded_count r rewarded flips + rewarded_count r extra flips))))
unfolding calculate_flips_reward_summary summary
calculate_flips_amount r reward share available flips rewarded extra penalized missed_validation u10
      u11 h pos_ small le1 le2 =
    let a = get_rewarded_flips-eq-count r flips rewarded h in
    let b = get_rewarded_flips-eq-count r flips extra h in (refl, ground (arith, a.0, b.0))

-- How many flips with a consensus to report have no reward, and whether one of them was reported.
abbrev pub unrewarded_count : StringSet → List String → ℕ
unrewarded_count rewarded [] = 0
unrewarded_count rewarded (flip ∷ flips) =
    (if contains flip rewarded then 0 else 1) + unrewarded_count rewarded flips

abbrev pub any_reported : StringSet → List String → Bool
any_reported reported [] = false
any_reported reported (flip ∷ flips) = contains flip reported || any_reported reported flips

count_reports_lem :
    (grades : Bool) (reported rewarded : StringSet) (flips : List String) (n : ℕ) (seen : Bool)
    → count_reports grades reported rewarded flips (n, seen)
      ≡ (n + unrewarded_count rewarded flips, seen || (grades && any_reported reported flips))
unfolding count_reports
count_reports_lem grades reported rewarded [] n seen = ground arith
count_reports_lem grades reported rewarded (flip ∷ flips) n seen = ground (
  arith,
  count_reports_lem grades reported rewarded flips (if contains flip rewarded then n else n + 1)
      (if grades && not seen then contains flip reported else seen),
)

-- The missed report reward is the share for each flip with a consensus that the identity has no
-- reward for, and none if there is no such flip. Where it is positive the reason is the penalty for
-- a penalized identity, else ignored grades if those are ignored and such a report was made, else
-- the missing reports.
pub calculate_reports_amount :
    (reward : Option ℤ) (share : ℤ) (penalized grades : Bool) (reported rewarded : StringSet)
    (flips : List String)
    → let s =
        calculate_reports_reward_summary reward share penalized grades reported rewarded flips in
      let n = unrewarded_count rewarded flips in
      (s.earned ≡ reward)
      × (s.missed ≡ (if ltb 0 n then some (share *ℤ pos n) else none))
      × (s.missed_reason ≡ (
          if is_positive s.missed
          then some
              (if penalized then 1 else if grades && any_reported reported flips then 10 else 5)
          else none))
unfolding calculate_reports_reward_summary reports_reason
calculate_reports_amount reward share penalized grades reported rewarded flips =
    let n = unrewarded_count rewarded flips in
    let zero : 0 + n ≡ n = omega arith in
    let counted : count_reports grades reported rewarded flips (0, false)
        ≡ (n, grades && any_reported reported flips) =
      count_reports_lem grades reported rewarded flips 0 false
      ∙ ap (λ (k : ℕ). (k, grades && any_reported reported flips)) zero in
    rw counted (refl, refl, ground arith)

-- The sum of the rewards of some types; a type without a reward counts as zero.
abbrev pub sum_of : Map RewardType ℤ → List RewardType → ℤ
sum_of rewards [] = pos 0
sum_of rewards (t ∷ types) = zero_if_nil (lookup t rewards) +ℤ sum_of rewards types

abbrev pub any_of : Map RewardType ℤ → List RewardType → Bool
any_of rewards [] = false
any_of rewards (t ∷ types) = elim (lookup t rewards) [ none ↦ any_of rewards types | some _ ↦ true ]

add_rewards_lem :
    (rewards : Map RewardType ℤ) (types : List RewardType) (e : ℤ)
    → add_rewards rewards types (some e) ≡ some (e +ℤ sum_of rewards types)
unfolding add_rewards zero_if_nil
add_rewards_lem rewards [] e = ap some (omega int_laws)
add_rewards_lem rewards (t ∷ types) e = elim (Option-cases (lookup t rewards)) [
  | inl without ↦ rw without (rw (add_rewards_lem rewards types e) (ap some (omega int_laws)))
  | inr (x, given) ↦
      rw given (rw (add_rewards_lem rewards types (e +ℤ x)) (ap some (omega int_laws)))
]

zero-+ℤ : (x : ℤ) → pos 0 +ℤ x ≡ x
zero-+ℤ x = omega int_laws

add_rewards-none :
    (rewards : Map RewardType ℤ) (types : List RewardType)
    → add_rewards rewards types none
      ≡ (if any_of rewards types then some (sum_of rewards types) else none)
unfolding add_rewards zero_if_nil
add_rewards-none rewards [] = refl
add_rewards-none rewards (t ∷ types) = elim (Option-cases (lookup t rewards)) [
  | inl without ↦ ground (arith, add_rewards-none rewards types, zero-+ℤ (sum_of rewards types))
  | inr (x, given) ↦ ground (arith, add_rewards_lem rewards types (pos 0 +ℤ x), zero-+ℤ x)
]

-- What an identity earned by invitations, and as an invitee, is the sum of its rewards of those
-- types, and nil if it has none of them; nothing is reported as missed.
pub calculate_invites_amount :
    (r : Rules) (rewards : Map RewardType ℤ) (penalized : Bool) (new_state : ℕ)
    → let by_invitations = calculate_invitations_reward_summary rewards penalized in
      let as_invitee = calculate_invitee_reward_summary r rewards penalized new_state in
      (by_invitations.earned ≡ (
        if any_of rewards invitation_reward_types
        then some (sum_of rewards invitation_reward_types)
        else none))
      × (as_invitee.earned ≡ (
          if any_of rewards invitee_reward_types
          then some (sum_of rewards invitee_reward_types)
          else none))
      × (by_invitations.missed ≡ none)
      × (as_invitee.missed ≡ none)
unfolding calculate_invitations_reward_summary calculate_invitee_reward_summary
calculate_invites_amount r rewards penalized new_state = (
  add_rewards-none rewards invitation_reward_types,
  add_rewards-none rewards invitee_reward_types,
  refl,
  refl,
)

-- The reward of an address and type that stands last in a list, else `earlier`.
abbrev pub last_reward : Address → RewardType → List RewardStats → Option ℤ → Option ℤ
last_reward a t [] earlier = earlier
last_reward a t (reward ∷ rewards) earlier = last_reward a t rewards (
    if reward.address == a && reward.reward_type == t
    then some (zero_if_nil reward.balance +ℤ zero_if_nil reward.stake)
    else earlier)

abbrev pub reward_at : Address → RewardType → Map Address (Map RewardType ℤ) → Option ℤ
reward_at a t m = elim (lookup a m) [ none ↦ none | some by_type ↦ lookup t by_type ]

lookup-nil : (t : RewardType) → lookup {V = ℤ} t [] ≡ none
unfolding lookup
lookup-nil t = refl

reward_at-add_reward :
    (a : Address) (t : RewardType) (reward : RewardStats) (m : Map Address (Map RewardType ℤ))
    → reward_at a t (add_reward reward m) ≡ (
        if reward.address == a && reward.reward_type == t
        then some (zero_if_nil reward.balance +ℤ zero_if_nil reward.stake)
        else reward_at a t m)
unfolding add_reward
reward_at-add_reward a t reward m =
    let v = zero_if_nil reward.balance +ℤ zero_if_nil reward.stake in
    elim (Option-cases (lookup reward.address m)) [
      | inl first ↦ rw first (
          ground (
            arith,
            lookup-insert reward.address a (insert reward.reward_type v []) m,
            lookup-insert reward.reward_type t v [],
            lookup-nil t,
          ))
      | inr (by_type, e) ↦ rw e (
          ground (
            arith,
            lookup-insert reward.address a (insert reward.reward_type v by_type) m,
            lookup-insert reward.reward_type t v by_type,
          ))
    ]

-- The table of rewards holds, for each address and type, the last reward of the list.
pub rewards_table :
    (a : Address) (t : RewardType) (rewards : List RewardStats) (m : Map Address (Map RewardType ℤ))
    → reward_at a t (rewards_by_addr_and_type rewards m) ≡ last_reward a t rewards (reward_at a t m)
unfolding rewards_by_addr_and_type
rewards_table a t [] m = refl
rewards_table a t (reward ∷ rewards) m =
    rewards_table a t rewards (add_reward reward m)
    ∙ ap (last_reward a t rewards) (reward_at-add_reward a t reward m)
