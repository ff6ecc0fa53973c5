-- ===== src/Coins.antt =====
-- core/stats/collector.go: the coins that a block mints and burns, and the rewards for mining it.
pub mod Burnt
pub mod Ledger
pub mod Mining
pub mod MiningCalls
mod Tests
use Prim.Native.String.{String}
use idena_indexer.Base.{
  ℕ, Bool, true, false, ◌&&◌, ◌||◌, not, Option, none, some, List, [], ◌∷◌, ◌++◌, ◌==◌,
  if◌then◌else◌, length, get_elem?, set,
}
use idena_indexer.Base.Int.{ℤ, pos, negsuc, ◌+ℤ◌, ◌-ℤ◌, ltb_ℤ}
use idena_indexer.Base.Eq.{number_key}
use idena_indexer.Base.Map.{Map, lookup, insert}
use idena_indexer.Node.{Address, Hash}
pub use idena_indexer.Base.Amounts.{is_zero, zero_or_nil, or_zero}

-- An amount stands as it is before idena-go makes a decimal of it.
pub record BurntCoins : Type 0 where
  pub amount : ℤ
  pub reason : ℕ
  pub tx_hash : String

-- The weight of the stake, a float, is left out.
pub record MiningReward : Type 0 where
  pub address : Address
  pub balance : ℤ
  pub stake : ℤ
  pub proposer : Bool

pub data Member : Type 0 where
  member : Member

-- `Stats` and `pending`, as far as these calls write them. `final_committee_rewards_by_addr` points to
-- entries of `mining_rewards`, by their positions; the sets have their members as keys.
pub record BlockStats : Type 0 where
  pub minted_coins : Option ℤ
  pub burnt_coins : Option ℤ
  pub burnt_coins_by_addr : Map Address (List BurntCoins)
  pub kill_invitee_tx_transfers : List (Hash × ℤ)
  pub mining_rewards : List MiningReward
  pub final_committee_rewards_by_addr : Map Address ℕ
  pub original_final_committee : Map Address Member
  pub pool_final_committee : Map Address Member
  pub pending_tx : Option Hash

abbrev pub penalty_burnt_coins : ℕ
penalty_burnt_coins = 0

abbrev pub invite_burnt_coins : ℕ
invite_burnt_coins = 1

abbrev pub fee_burnt_coins : ℕ
fee_burnt_coins = 2

abbrev pub killed_burnt_coins : ℕ
killed_burnt_coins = 4

abbrev pub burn_tx_burnt_coins : ℕ
burn_tx_burnt_coins = 5

-- The text of a transaction's hash, empty without a transaction.
abbrev pub hash_text : (Hash → String) → Option Hash → String
hash_text hex none = ""
hash_text hex (some h) = hex h

unfoldable pub add_minted_coins : Option ℤ → BlockStats → BlockStats
add_minted_coins none st = st
add_minted_coins (some x) st = record st { minted_coins = some (or_zero st.minted_coins +ℤ x) }

unfoldable pub add_burnt_coins :
    (Hash → String) → Address → Option ℤ → ℕ → Option Hash → BlockStats → BlockStats
add_burnt_coins hex addr amount reason tx st = if zero_or_nil amount then st else record st {
  burnt_coins = some (or_zero st.burnt_coins +ℤ or_zero amount);
  burnt_coins_by_addr =
      insert addr
        ((elim (lookup addr st.burnt_coins_by_addr) [ none ↦ [] | some l ↦ l ])
          ++ record { amount = or_zero amount; reason = reason; tx_hash = hash_text hex tx } ∷ [])
        st.burnt_coins_by_addr;
}

unfoldable pub add_penalty_burnt_coins :
    (Hash → String) → Address → Option ℤ → BlockStats → BlockStats
add_penalty_burnt_coins hex addr amount st =
    add_burnt_coins hex addr amount penalty_burnt_coins none st

unfoldable pub add_invite_burnt_coins :
    (Hash → String) → Address → Option ℤ → Option Hash → BlockStats → BlockStats
add_invite_burnt_coins hex addr amount tx st =
    add_burnt_coins hex addr amount invite_burnt_coins tx st

-- `burnt` multiplies by the burnt rate, a float, and rounds.
unfoldable pub add_fee_burnt_coins :
    (Hash → String) → (ℤ → ℤ) → Address → Option ℤ → Option Hash → BlockStats → BlockStats
add_fee_burnt_coins hex burnt addr fee tx st =
    if zero_or_nil fee
    then st
    else add_burnt_coins hex addr (some (burnt (or_zero fee))) fee_burnt_coins tx st

unfoldable pub add_killed_burnt_coins :
    (Hash → String) → Address → Option ℤ → BlockStats → BlockStats
add_killed_burnt_coins hex addr amount st =
    add_burnt_coins hex addr amount killed_burnt_coins st.pending_tx st

-- `amount` is `AmountOrZero` of the transaction.
unfoldable pub add_burn_tx_burnt_coins :
    (Hash → String) → Address → Hash → ℤ → BlockStats → BlockStats
add_burn_tx_burnt_coins hex addr tx amount st =
    add_burnt_coins hex addr (some amount) burn_tx_burnt_coins (some tx) st

-- `is_killed` says that the state of the identity is `Killed`.
unfoldable pub after_add_stake :
    (Hash → String) → Address → Option ℤ → Bool → BlockStats → BlockStats
after_add_stake hex addr amount is_killed st =
    if is_killed then add_burnt_coins hex addr amount killed_burnt_coins none st else st

-- `to` is the recipient of the transaction.
unfoldable pub add_kill_invitee_tx_stake_transfer :
    (Hash → String) → Hash → Address → Option ℤ → Option ℤ → BlockStats → BlockStats
unfolding add_killed_burnt_coins
add_kill_invitee_tx_stake_transfer hex tx to stake transfer st =
    let st' : BlockStats =
      if not (zero_or_nil transfer)
      then record st {
        kill_invitee_tx_transfers = st.kill_invitee_tx_transfers ++ (tx, or_zero transfer) ∷ [];
      }
      else st in
    if not (zero_or_nil stake)
      && not (zero_or_nil transfer)
      && ltb_ℤ (or_zero transfer) (or_zero stake)
    then add_killed_burnt_coins hex to (some (or_zero stake -ℤ or_zero transfer)) st'
    else st'

-- The new state, and the position of the new entry, if there is one.
unfoldable pub add_mining_reward :
    Address → Option ℤ → Option ℤ → Bool → BlockStats → Option ℕ × BlockStats
add_mining_reward addr balance stake proposer st =
    if zero_or_nil balance && zero_or_nil stake then (none, st) else (
      some (length st.mining_rewards),
      record st {
        mining_rewards =
            st.mining_rewards
            ++ record {
              address = addr;
              balance = or_zero balance;
              stake = or_zero stake;
              proposer = proposer;
            }
              ∷ [];
      },
    )

unfoldable pub add_proposer_reward :
    Address → Address → Option ℤ → Option ℤ → BlockStats → BlockStats
unfolding add_mining_reward
add_proposer_reward balance_dest stake_dest balance stake st =
    if balance_dest == stake_dest
    then (add_mining_reward balance_dest balance stake true st).1
    else (let st' = (add_mining_reward balance_dest balance (some (pos 0)) true st).1 in
        (add_mining_reward stake_dest (some (pos 0)) stake true st').1)

-- `reward.Balance.Add`, `reward.Stake.Add` at a position of the list.
unfoldable pub increase_reward : ℕ → ℤ → ℤ → List MiningReward → List MiningReward
increase_reward i balance stake rewards = elim (get_elem? rewards i) [
  | none ↦ rewards
  | some r ↦ set rewards i (record r { balance = r.balance +ℤ balance; stake = r.stake +ℤ stake })
]

unfoldable pub add_to_committee : Address → ℤ → ℤ → BlockStats → BlockStats
unfolding increase_reward add_mining_reward
add_to_committee addr balance stake st = elim (lookup addr st.final_committee_rewards_by_addr) [
  | some i ↦ record st { mining_rewards = increase_reward i balance stake st.mining_rewards }
  | none ↦
      let (position, st') = add_mining_reward addr (some balance) (some stake) false st in
      elim position [
        | none ↦ st'
        | some i ↦ record st' {
          final_committee_rewards_by_addr = insert addr i st'.final_committee_rewards_by_addr;
        }
      ]
]

unfoldable pub add_final_committee_reward :
    Address → Address → Option ℤ → Option ℤ → BlockStats → BlockStats
unfolding add_to_committee
add_final_committee_reward balance_dest stake_dest balance stake st =
    let paid =
      if is_zero (or_zero balance) && is_zero (or_zero stake)
      then st
      else if balance_dest == stake_dest
      then add_to_committee balance_dest (or_zero balance) (or_zero stake) st
      else add_to_committee stake_dest (pos 0) (or_zero stake)
          (add_to_committee balance_dest (or_zero balance) (pos 0) st) in
    record paid {
      original_final_committee = insert stake_dest member paid.original_final_committee;
      pool_final_committee = insert balance_dest member paid.pool_final_committee;
    }
