-- ===== src/ValidationSummary/Parts.antt =====
-- The part calculators of validation_summary.go. A nil `big.Int` is `none`.
use Prim.Native.String.{String}
use idena_indexer.Base.{
  ℕ, ◌+◌, ◌-◌, ◌%◌, Bool, true, false, ◌&&◌, ◌||◌, not, Option, none, some, List, [], ◌∷◌, ltb,
  ◌==◌, if◌then◌else◌,
}
use idena_indexer.Base.Int.{ℤ, pos, ◌*ℤ◌, ltb_ℤ}
use idena_indexer.Base.Eq.{string_key}
use idena_indexer.Base.Map.{Map, lookup}

abbrev pub missed_reward_reason_empty : ℕ
missed_reward_reason_empty = 0

abbrev pub missed_reward_reason_penalty : ℕ
missed_reward_reason_penalty = 1

abbrev pub missed_reward_reason_not_validated : ℕ
missed_reward_reason_not_validated = 2

abbrev pub missed_reward_reason_missed_validation : ℕ
missed_reward_reason_missed_validation = 3

abbrev pub missed_reward_reason_not_all_flips : ℕ
missed_reward_reason_not_all_flips = 4

abbrev pub missed_reward_reason_not_all_reports : ℕ
missed_reward_reason_not_all_reports = 5

abbrev pub missed_reward_reason_ignored_grades : ℕ
missed_reward_reason_ignored_grades = 10

abbrev pub required_flips : ℕ
required_flips = 3

abbrev pub missed_reward_reason_or_nil : ℕ → Option ℕ
missed_reward_reason_or_nil value = if value == missed_reward_reason_empty then none else some value

-- A set of Go, `map[string]struct{}`.
abbrev pub StringSet : Type 0
StringSet = Map String (Unit {0})

abbrev pub contains : String → StringSet → Bool
contains x set = elim (lookup x set) [ none ↦ false | some _ ↦ true ]

-- What the calculators take from libraries. Identity states are numbers; `age_reward share age` and
-- `stake_reward share stake` are the products with a rounded root of the age and a rounded power of
-- the stake, which the source computes by floats and decimals; `cid_text` is `cid.Parse` and
-- `String`, `none` where the bytes are no cid.
pub record Rules : Type 0 where
  pub candidate : ℕ
  pub newbie_or_better : ℕ → Bool
  pub age_reward : ℤ → ℕ → ℤ
  pub stake_reward : ℤ → ℤ → ℤ
  pub cid_text : List ℕ → Option String

-- `db.ValidationRewardSummary`.
pub record ValidationRewardSummary : Type 0 where
  pub earned : Option ℤ
  pub missed : Option ℤ
  pub missed_reason : Option ℕ

abbrev pub is_positive : Option ℤ → Bool
is_positive none = false
is_positive (some x) = ltb_ℤ (pos 0) x

-- The reason that three of the calculators give for a positive missed reward.
unfoldable pub not_validated_reason : Bool → ℕ
not_validated_reason penalized =
    if penalized then missed_reward_reason_penalty else missed_reward_reason_not_validated

-- The result for a missed reward and the reason that goes with it, if it is positive.
unfoldable pub summary : Option ℤ → Option ℤ → ℕ → ValidationRewardSummary
summary reward missed reason = record {
  earned = reward;
  missed = missed;
  missed_reason =
      missed_reward_reason_or_nil
        (if is_positive missed then reason else missed_reward_reason_empty);
}

unfoldable pub calculate_validation_reward_summary :
    Rules → Option ℤ → ℕ → Bool → ℕ → Option ℤ → ValidationRewardSummary
calculate_validation_reward_summary r reward new_state penalized age share =
    let missed : Option ℤ = elim share [
      | none ↦ none
      | some s ↦
          if not (r.newbie_or_better new_state) || penalized
          then some (r.age_reward s age)
          else none
    ] in
    summary reward missed (not_validated_reason penalized)

unfoldable pub calculate_candidate_reward_summary :
    Rules → Option ℤ → ℕ → ℕ → Bool → Option ℤ → ValidationRewardSummary
calculate_candidate_reward_summary r reward prev_state new_state penalized share =
    let missed : Option ℤ = elim share [
      | none ↦ none
      | some s ↦
          if prev_state == r.candidate && (not (r.newbie_or_better new_state) || penalized)
          then some s
          else none
    ] in
    summary reward missed (not_validated_reason penalized)

unfoldable pub calculate_staking_reward_summary :
    Rules → Option ℤ → ℕ → Bool → Option ℤ → Option ℤ → ValidationRewardSummary
calculate_staking_reward_summary r reward new_state penalized share stake =
    let missed : Option ℤ = elim share [
      | none ↦ none
      | some s ↦ elim stake [
        | none ↦ none
        | some k ↦
            if ltb_ℤ (pos 0) k && (not (r.newbie_or_better new_state) || penalized)
            then some (r.stake_reward s k)
            else none
      ]
    ] in
    summary reward missed (not_validated_reason penalized)

-- `uint8` arithmetic: a count and a difference wrap round at 256.
unfoldable pub get_rewarded_flips : Rules → List (List ℕ) → StringSet → ℕ
get_rewarded_flips r [] rewarded_flips = 0
get_rewarded_flips r (identity_flip ∷ flips) rewarded_flips =
    let rest = get_rewarded_flips r flips rewarded_flips in
    elim (r.cid_text identity_flip) [
      | none ↦ rest
      | some cid ↦ if contains cid rewarded_flips then (rest + 1) % 256 else rest
    ]

abbrev pub sub_uint8 : ℕ → ℕ → ℕ
sub_uint8 a b = (a + 256 - b) % 256

unfoldable pub flips_reason : Bool → Bool → ℕ
flips_reason penalized missed_validation =
    if penalized
    then missed_reward_reason_penalty
    else if missed_validation
    then missed_reward_reason_missed_validation
    else missed_reward_reason_not_all_flips

unfoldable pub calculate_flips_reward_summary :
    Rules
    → Option ℤ
    → Option ℤ
    → ℕ
    → List (List ℕ)
    → StringSet
    → StringSet
    → Bool
    → Bool
    → Bool
    → Bool
    → ValidationRewardSummary
calculate_flips_reward_summary r reward share available_flips identity_flips rewarded_flips
      rewarded_extra_flips penalized missed_validation enable_upgrade10 enable_upgrade11 =
    let rewarded = get_rewarded_flips r identity_flips rewarded_flips in
    let extra = get_rewarded_flips r identity_flips rewarded_extra_flips in
    let missed : Option ℤ = elim share [
      | none ↦ none
      | some s ↦
          if ltb 0 available_flips
          then if enable_upgrade10 && not enable_upgrade11
            then some (s *ℤ pos (sub_uint8 required_flips rewarded))
            else some (s *ℤ pos (sub_uint8 available_flips ((rewarded + extra) % 256)))
          else none
    ] in
    summary reward missed (flips_reason penalized missed_validation)

unfoldable pub calculate_extra_flips_reward_summary :
    Rules
    → Option ℤ
    → Option ℤ
    → ℕ
    → List (List ℕ)
    → StringSet
    → Bool
    → Bool
    → Option ℤ
    → ValidationRewardSummary
calculate_extra_flips_reward_summary r reward share available_flips identity_flips
      rewarded_extra_flips penalized missed_validation stake =
    let rewarded = get_rewarded_flips r identity_flips rewarded_extra_flips in
    let missed : Option ℤ = elim share [
      | none ↦ none
      | some s ↦ elim stake [
        | none ↦ none
        | some k ↦
            if ltb_ℤ (pos 0) k && ltb required_flips available_flips
            then some (
                r.stake_reward s k
                *ℤ pos (sub_uint8 (sub_uint8 available_flips required_flips) rewarded))
            else none
      ]
    ] in
    summary reward missed (flips_reason penalized missed_validation)
