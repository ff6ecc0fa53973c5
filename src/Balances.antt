-- ===== src/Balances.antt =====
-- indexer/balance.go, and from indexer/indexer.go `getCoins`, `initializeStateIfNeeded` and `applyOnState`:
-- the balances that a block changes, and the running totals of balance and stake.
pub mod Sums
pub mod Update
pub mod Totals
pub mod Chain
pub mod Check
pub mod CheckAll
mod Tests
mod CheckTests
use idena_indexer.Base.{
  ℕ, Bool, true, false, Option, none, some, List, [], ◌∷◌, ◌++◌, ◌==◌, if◌then◌else◌,
}
use idena_indexer.Base.Int.{ℤ, pos, ◌+ℤ◌, ◌-ℤ◌}
use idena_indexer.Node.{Address}

-- The state of idena-go at a height, as far as it is read. `accounts` is what `IterateAccounts` gives to
-- its callback, a nil key as `none`.
pub record AppState : Type 0 where
  pub accounts : List (Option Address)
  pub get_balance : Address → ℤ
  pub get_stake_balance : Address → ℤ

-- The addresses at which the callback does not stop the iteration.
unfoldable pub visited : List (Option Address) → List Address
visited [] = []
visited (none ∷ keys) = []
visited (some a ∷ keys) = a ∷ visited keys

-- The set of addresses, by `mapset`, as the list of its members in some order.
unfoldable pub member : Address → List Address → Bool
member a [] = false
member a (b ∷ bs) = let rest = member a bs in if a == b then true else rest

unfoldable pub add : Address → List Address → List Address
add a s = if member a s then s else a ∷ s

unfoldable pub add_all : List Address → List Address → List Address
add_all [] s = s
add_all (a ∷ xs) s = add_all xs (add a s)

pub record BalanceDiff : Type 0 where
  pub balance : ℤ
  pub stake : ℤ

-- The row that is made of an address, before `ConvertToFloat`.
pub record Balance : Type 0 where
  pub address : Address
  pub balance : ℤ
  pub stake : ℤ

-- The loop of `determineBalanceUpdates` over the addresses, on its two variables.
unfoldable pub collect :
    AppState → AppState → List Address → List Balance × BalanceDiff → List Balance × BalanceDiff
collect prev new [] acc = acc
collect prev new (a ∷ xs) (res, diff) = collect prev new xs (
  res ++ record { address = a; balance = new.get_balance a; stake = new.get_stake_balance a } ∷ [],
  record {
    balance = diff.balance +ℤ new.get_balance a -ℤ prev.get_balance a;
    stake = diff.stake +ℤ new.get_stake_balance a -ℤ prev.get_stake_balance a;
  },
)

-- The set of addresses after the step for the first block; `none` is nil.
unfoldable pub update_addrs : Bool → Option (List Address) → AppState → Option (List Address)
unfolding visited
update_addrs is_first_block addrs prev =
    if is_first_block
    then some (add_all (visited prev.accounts) (elim addrs [ none ↦ [] | some s ↦ s ]))
    else addrs

unfoldable pub determine_balance_updates :
    Bool → Option (List Address) → AppState → AppState → List Balance × BalanceDiff
unfolding collect update_addrs
determine_balance_updates is_first_block addrs prev new =
    elim (update_addrs is_first_block addrs prev) [
      | none ↦ ([], record { balance = pos 0; stake = pos 0 })
      | some s ↦ collect prev new s ([], record { balance = pos 0; stake = pos 0 })
    ]

-- `indexerState`, its two totals; nil before the first block and after a reset.
pub record IndexerState : Type 0 where
  pub total_balance : Option ℤ
  pub total_stake : Option ℤ

-- The loop over the accounts, on the two totals.
unfoldable pub accumulate : AppState → List Address → ℤ × ℤ → ℤ × ℤ
accumulate s [] t = t
accumulate s (a ∷ xs) (balance, stake) =
    accumulate s xs (balance +ℤ s.get_balance a, stake +ℤ s.get_stake_balance a)

unfoldable pub totals_of : AppState → IndexerState
unfolding accumulate visited
totals_of s =
    let t = accumulate s (visited s.accounts) (pos 0, pos 0) in
    record { total_balance = some (t.0); total_stake = some (t.1) }

unfoldable pub initialize_state_if_needed : AppState → IndexerState → IndexerState
unfolding totals_of
initialize_state_if_needed prev st = elim st.total_stake [
  | some _ ↦ elim st.total_balance [ some _ ↦ st | none ↦ totals_of prev ]
  | none ↦ totals_of prev
]

-- `db.Coins` before `ConvertToFloat`; `minted` and `burnt` may be nil.
pub record Coins : Type 0 where
  pub minted : Option ℤ
  pub burnt : Option ℤ
  pub total_balance : ℤ
  pub total_stake : ℤ

-- What `getCoins` reads of the state is there, or it panics, which is `none`.
unfoldable pub get_coins : Bool → Option ℤ → Option ℤ → BalanceDiff → IndexerState → Option Coins
get_coins is_first_block minted burnt diff st = elim st.total_balance [
  | none ↦ none
  | some balance ↦ elim st.total_stake [
    | none ↦ none
    | some stake ↦ some (record {
      minted =
          if is_first_block
          then some (elim minted [ none ↦ pos 0 | some m ↦ m ] +ℤ balance +ℤ stake)
          else minted;
      burnt = burnt;
      total_balance = balance +ℤ diff.balance;
      total_stake = stake +ℤ diff.stake;
    })
  ]
]

unfoldable pub apply_on_state : Coins → IndexerState
apply_on_state c = record { total_balance = some c.total_balance; total_stake = some c.total_stake }

-- The input of a block: its two states and what the statistics of the block hold.
pub record BlockInput : Type 0 where
  pub is_first_block : Bool
  pub balance_update_addrs : Option (List Address)
  pub prev : AppState
  pub new : AppState
  pub minted_coins : Option ℤ
  pub burnt_coins : Option ℤ

-- What `indexBlock` does with the totals for one block, in its order.
unfoldable pub index_totals :
    BlockInput → IndexerState → Option (List Balance × Coins × IndexerState)
unfolding determine_balance_updates initialize_state_if_needed get_coins apply_on_state
index_totals i st =
    let st' = initialize_state_if_needed i.prev st in
    let updates = determine_balance_updates i.is_first_block i.balance_update_addrs i.prev i.new in
    elim (get_coins i.is_first_block i.minted_coins i.burnt_coins updates.1 st') [
      | none ↦ none
      | some coins ↦ some (updates.0, coins, apply_on_state coins)
    ]
