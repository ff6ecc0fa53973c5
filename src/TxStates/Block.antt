-- ===== src/TxStates/Block.antt =====
-- collector.go, BeginApplyingTx and CompleteApplyingTx: one after the other over the transactions of a block.
use idena_indexer.Base.{◌≡◌, Bool, Option, none, some, List, [], ◌∷◌}
use idena_indexer.Node.{Address}
use idena_indexer.TxStates.{
  IdentityState, Tx, StateStats, other_recipient, begin_applying_tx, complete_applying_tx,
}
use idena_indexer.TxStates.Candidates.{occurs, ChangesOwn}

-- A transaction with the identity states after it.
abbrev pub Applied : Type 0
Applied = Tx × (Address → IdentityState)

-- The states after the transactions.
unfoldable pub states_after : List Applied → (Address → IdentityState) → Address → IdentityState
states_after [] f = f
states_after ((tx, g) ∷ txs) f = states_after txs g

module _ (is_candidate : IdentityState → Bool) where
  -- The addresses list each party of the transaction once, which changes no other states.
  pub record Listed (addrs : List Address) (tx : Tx) (f g : Address → IdentityState) : Type 0 where
    pub own : ChangesOwn is_candidate tx f g
    pub sender_once : occurs is_candidate tx.sender addrs ≡ 1
    pub to_once : (a : Address) → other_recipient tx ≡ some a → occurs is_candidate a addrs ≡ 1

  unfoldable pub AllListed : List Address → List Applied → (Address → IdentityState) → Type 0
  AllListed addrs [] f = Unit
  AllListed addrs ((tx, g) ∷ txs) f = Listed addrs tx f g × AllListed addrs txs g

  -- The calls over the transactions of a block; `none` where one of them reads a state that is not there.
  unfoldable pub run_txs : List Applied → (Address → IdentityState) → StateStats → Option StateStats
  run_txs [] f st = some st
  run_txs ((tx, g) ∷ txs) f st =
      elim (complete_applying_tx is_candidate tx (begin_applying_tx tx f) g st) [
        | none ↦ none
        | some st' ↦ run_txs txs g st'
      ]
