-- ===== src/EpochRewards/Calls.antt =====
-- collector.go: the calls by which idena-go reports the rewards of an epoch.
use Prim.Native.String.{String}
use idena_indexer.Base.{
  ℕ, ◌+◌, ◌%◌, ◌^◌, Bool, ◌||◌, not, Option, none, some, List, [], ◌∷◌, ◌++◌, map, ◌==◌, leb,
  if◌then◌else◌, length, get_elem?, take, drop,
}
use idena_indexer.Base.Int.{ℤ, pos, negsuc}
use idena_indexer.Base.Eq.{number_key, string_key}
use idena_indexer.Base.Map.{Map, lookup, insert}
use idena_indexer.Node.{Address, Hash}
use idena_indexer.EpochRewards.{
  RewardsStats, validation_reward, flips_reward, invitations_reward, foundation_payouts,
  zero_wallet_fund, invitations2_reward, invitations3_reward, saved_invite, saved_invite_win,
  reported_flips_reward, staking_reward, candidate_reward, extra_flips_reward, init_reward_stats,
  or_zero, add_reward, add_addr_total_reward, add_delegatee_reward,
}

-- The texts of addresses, hashes and cids, and what the collector was given before: whether upgrade 11
-- is enabled, and `ValidationStats`, `none` where it is nil, as the cids of the flips of a shard, `none`
-- where it has no such shard (or no shards at all).
pub record Env : Type 0 where
  pub convert_address : Address → String
  pub convert_hash : Hash → String
  pub cid_string : List ℕ → String
  pub enable_upgrade11 : Bool
  pub validation_stats : Option (ℕ → Option (List (List ℕ)))

-- What most of the calls begin with: the reward of `stake_dest`, and the delegatee's part in it.
unfoldable pub credit : ℕ → Address → Address → Option ℤ → Option ℤ → RewardsStats → RewardsStats
credit t balance_dest stake_dest balance stake st =
    let st' = add_reward stake_dest balance stake t st in
    if balance_dest == stake_dest
    then st'
    else add_delegatee_reward stake_dest balance_dest balance none t st'

unfoldable pub add_validation_reward :
    Env → Address → Address → ℕ → Option ℤ → Option ℤ → RewardsStats → RewardsStats
unfolding credit init_reward_stats
add_validation_reward env balance_dest stake_dest age balance stake st =
    let st' =
      init_reward_stats (credit validation_reward balance_dest stake_dest balance stake st) in
    add_addr_total_reward stake_dest balance stake (record st' {
      ages_by_address =
          insert (env.convert_address stake_dest) ((age + 1) % 2 ^ 16) st'.ages_by_address;
    })

unfoldable pub add_candidate_reward :
    Address → Address → Option ℤ → Option ℤ → RewardsStats → RewardsStats
unfolding credit init_reward_stats
add_candidate_reward balance_dest stake_dest balance stake st =
    add_addr_total_reward stake_dest balance stake
      (init_reward_stats (credit candidate_reward balance_dest stake_dest balance stake st))

unfoldable pub add_staking_reward :
    Env → Address → Address → Option ℤ → Option ℤ → Option ℤ → RewardsStats → RewardsStats
unfolding credit init_reward_stats
add_staking_reward env balance_dest stake_dest staked_amount balance stake st =
    let st' = init_reward_stats (credit staking_reward balance_dest stake_dest balance stake st) in
    add_addr_total_reward stake_dest balance stake (elim staked_amount [
      | none ↦ st'
      | some amount ↦ record st' {
        staked_amounts_by_address =
            insert (env.convert_address stake_dest) amount st'.staked_amounts_by_address;
      }
    ])

unfoldable pub add_rewarded_flips : Env → List (List ℕ) → RewardsStats → RewardsStats
unfolding init_reward_stats
add_rewarded_flips env [] st = st
add_rewarded_flips env (f ∷ fs) st = record (init_reward_stats st) {
  rewarded_flip_cids = st.rewarded_flip_cids ++ map env.cid_string (f ∷ fs);
}

unfoldable pub add_rewarded_extra_flips : Env → List (List ℕ) → RewardsStats → RewardsStats
unfolding init_reward_stats
add_rewarded_extra_flips env [] st = st
add_rewarded_extra_flips env (f ∷ fs) st = record (init_reward_stats st) {
  rewarded_extra_flip_cids = st.rewarded_extra_flip_cids ++ map env.cid_string (f ∷ fs);
}

unfoldable pub add_flips_basic_reward :
    Env → Address → Address → Option ℤ → Option ℤ → List (List ℕ) → RewardsStats → RewardsStats
unfolding credit add_rewarded_flips add_rewarded_extra_flips
add_flips_basic_reward env balance_dest stake_dest balance stake flips st =
    let st' = credit flips_reward balance_dest stake_dest balance stake st in
    add_addr_total_reward stake_dest balance stake (
      if not env.enable_upgrade11 || leb (length flips) 3
      then add_rewarded_flips env flips st'
      else add_rewarded_extra_flips env (drop 3 flips) (add_rewarded_flips env (take 3 flips) st'))

unfoldable pub add_flips_extra_reward :
    Env → Address → Address → Option ℤ → Option ℤ → List (List ℕ) → RewardsStats → RewardsStats
unfolding credit add_rewarded_extra_flips
add_flips_extra_reward env balance_dest stake_dest balance stake flips st =
    let st' = credit extra_flips_reward balance_dest stake_dest balance stake st in
    add_addr_total_reward stake_dest balance stake
      (if not env.enable_upgrade11 then add_rewarded_extra_flips env flips st' else st')

-- `none` is the panic on nil `ValidationStats`; `ok` of the code is that there is a cid.
unfoldable pub get_flip_cid : Env → ℕ → ℤ → Option (Option (List ℕ))
get_flip_cid env shard (negsuc i) = some none
get_flip_cid env shard (pos i) = elim env.validation_stats [
  | none ↦ none
  | some flip_cids ↦ some (elim (flip_cids shard) [ none ↦ none | some cids ↦ get_elem? cids i ])
]

abbrev pub with_flip : Env → Address → List ℕ → Option ℤ → Option ℤ → RewardsStats → RewardsStats
with_flip env addr cid balance stake st = record (init_reward_stats st) {
  reported_flip_rewards =
      st.reported_flip_rewards
      ++ record {
        address = env.convert_address addr;
        balance = or_zero balance;
        stake = or_zero stake;
        cid = env.cid_string cid;
      }
        ∷ [];
}

unfoldable pub add_reported_flip_reward :
    Env → Address → ℕ → ℤ → Option ℤ → Option ℤ → RewardsStats → Option RewardsStats
unfolding get_flip_cid init_reward_stats
add_reported_flip_reward env addr shard flip_idx balance stake st =
    elim (get_flip_cid env shard flip_idx) [
      | none ↦ none
      | some none ↦ some st
      | some (some cid) ↦ some (with_flip env addr cid balance stake st)
    ]

unfoldable pub add_reported_flips_reward :
    Env → Address → Address → ℕ → ℤ → Option ℤ → Option ℤ → RewardsStats → Option RewardsStats
unfolding credit add_reported_flip_reward
add_reported_flips_reward env balance_dest stake_dest shard flip_idx balance stake st =
    elim (add_reported_flip_reward env stake_dest shard flip_idx balance stake
      (credit reported_flips_reward balance_dest stake_dest balance stake st)) [
        | none ↦ none
        | some st' ↦ some (add_addr_total_reward stake_dest balance stake st')
      ]

-- `none` is a panic.
unfoldable pub determine_invitee_reward_type : ℕ → Option ℕ
determine_invitee_reward_type age =
    if age == 1 then some 13 else if age == 2 then some 14 else if age == 3 then some 15 else none

unfoldable pub add_invitee_reward :
    Env → Address → Option ℤ → ℕ → Hash → ℕ → RewardsStats → Option RewardsStats
unfolding init_reward_stats
add_invitee_reward env addr stake age tx_hash epoch_height st =
    elim (determine_invitee_reward_type age) [
      | none ↦ none
      | some t ↦
          let st' = init_reward_stats (add_reward addr none stake t st) in
          some (
            add_addr_total_reward addr none stake (record st' {
              rewarded_invitees =
                  st'.rewarded_invitees
                  ++ record { tx_hash = env.convert_hash tx_hash; epoch_height = epoch_height }
                    ∷ [];
            }))
    ]

-- `none` is an error.
unfoldable pub determine_invitations_reward_type : ℕ → Bool → Option ℕ
determine_invitations_reward_type age is_saved_invite_winner =
    if age == 0
    then some (if is_saved_invite_winner then saved_invite_win else saved_invite)
    else if age == 1
    then some invitations_reward
    else if age == 2
    then some invitations2_reward
    else if age == 3
    then some invitations3_reward
    else none

-- The counter is a `uint8`.
unfoldable pub count_saved_invite : Address → ℕ → Map Address (Map ℕ ℕ) → Map Address (Map ℕ ℕ)
count_saved_invite addr t m =
    let by_type : Map ℕ ℕ = elim (lookup addr m) [ none ↦ [] | some c ↦ c ] in
    let n : ℕ = elim (lookup t by_type) [ none ↦ 0 | some k ↦ k ] in
    insert addr (insert t ((n + 1) % 2 ^ 8) by_type) m

unfoldable pub add_rewarded_invite :
    Env → Address → Option Hash → ℕ → ℕ → RewardsStats → RewardsStats
unfolding init_reward_stats count_saved_invite
add_rewarded_invite env addr tx_hash t epoch_height st =
    if t == saved_invite_win || t == saved_invite
    then record (init_reward_stats st) {
      saved_invite_rewards_count = count_saved_invite addr t st.saved_invite_rewards_count;
    }
    else elim tx_hash [
      | none ↦ st
      | some h ↦ record (init_reward_stats st) {
        rewarded_invites =
            st.rewarded_invites
            ++ record { tx_hash = env.convert_hash h; reward_type = t; epoch_height = epoch_height }
              ∷ [];
      }
    ]

unfoldable pub add_invitations_reward :
    Env
    → Address
    → Address
    → Option ℤ
    → Option ℤ
    → ℕ
    → Option Hash
    → ℕ
    → Bool
    → RewardsStats
    → RewardsStats
unfolding credit add_rewarded_invite
add_invitations_reward env balance_dest stake_dest balance stake age tx_hash epoch_height winner
      st =
    elim (determine_invitations_reward_type age winner) [
      | none ↦ st
      | some t ↦ add_addr_total_reward stake_dest balance stake (
          add_rewarded_invite env stake_dest tx_hash t epoch_height
            (credit t balance_dest stake_dest balance stake st))
    ]

unfoldable pub add_foundation_payout : Address → Option ℤ → RewardsStats → RewardsStats
add_foundation_payout addr balance st = add_reward addr balance none foundation_payouts st

unfoldable pub add_zero_wallet_fund : Address → Option ℤ → RewardsStats → RewardsStats
add_zero_wallet_fund addr balance st = add_reward addr balance none zero_wallet_fund st

-- Also `AddPenalizedStake`.
unfoldable pub add_non_validated_stake : Env → Address → Option ℤ → RewardsStats → RewardsStats
unfolding init_reward_stats
add_non_validated_stake env addr none st = st
add_non_validated_stake env addr (some amount) st = record (init_reward_stats st) {
  failed_staked_amounts_by_address =
      insert (env.convert_address addr) amount st.failed_staked_amounts_by_address;
}
