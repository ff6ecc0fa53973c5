-- ===== src/TxPool.antt =====
-- core/holder/transaction/mempool_txs.go: the pool of pending transactions, kept under two indexes.
pub mod ByHash
pub mod ByAddress
pub mod Convert
pub mod Index
pub mod Pages
pub mod History
mod Tests
use Prim.Native.String.{String}
use idena_indexer.Base.{ℕ, Bool, Option, none, some, List, [], length, if◌then◌else◌, map}
use idena_indexer.Base.Int.{ℤ}
use idena_indexer.Base.Map.{Map}
use idena_indexer.Node.{Address, Hash, Transaction, Node}
use ByHash
use ByAddress
use Convert.{TransactionDetail, TransactionSummary, to_transaction_detail, to_transaction_summaries}

-- The pool's mutex makes each writer one step, so a method is a function of the state.
pub record MemPool : Type 0 where
  pub txs_by_hash : Map Hash Transaction
  pub txs_by_address : Map Address (Map Hash Transaction)

abbrev pub new_mem_pool : MemPool
new_mem_pool = record { txs_by_hash = []; txs_by_address = [] }

module _ (n : Node) where
  open n use {tx_hash, hex_to_hash, hex_to_address}

  unfoldable pub add_tx : Transaction → MemPool → MemPool
  add_tx tx pool = record {
    txs_by_hash = ByHash.add n tx pool.txs_by_hash;
    txs_by_address = ByAddress.add n tx pool.txs_by_address;
  }

  unfoldable pub remove_tx : Transaction → MemPool → MemPool
  remove_tx tx pool =
      if ByHash.contains (tx_hash tx) pool.txs_by_hash
      then record {
        txs_by_hash = ByHash.remove (tx_hash tx) pool.txs_by_hash;
        txs_by_address = ByAddress.remove n tx pool.txs_by_address;
      }
      else pool

  unfoldable pub get_transaction : String → MemPool → Option (TransactionDetail n)
  get_transaction hash pool = elim (ByHash.get (hex_to_hash hash) pool.txs_by_hash) [
    | none ↦ none
    | some tx ↦ some (to_transaction_detail n tx)
  ]

  unfoldable pub get_transaction_raw : String → MemPool → Option (List ℕ)
  get_transaction_raw hash pool = elim (ByHash.get (hex_to_hash hash) pool.txs_by_hash) [
    | none ↦ none
    | some tx ↦ some tx.payload
  ]

  unfoldable pub get_address_transactions :
      String → ℤ → MemPool → List (Option (TransactionSummary n))
  get_address_transactions address count pool =
      to_transaction_summaries n (ByAddress.get (hex_to_address address) count pool.txs_by_address)

  unfoldable pub get_transactions : ℤ → MemPool → List (Option (TransactionSummary n))
  get_transactions count pool = to_transaction_summaries n (ByHash.all count pool.txs_by_hash)

unfoldable pub get_transactions_count : MemPool → ℕ
get_transactions_count pool = length pool.txs_by_hash
