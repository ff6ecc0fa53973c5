-- ===== src/TxPool/ByAddress.antt =====
-- `txsByAddressWrapper`: for each address, the transactions that it sends or receives.
use idena_indexer.Base.{Option, none, some, List, [], if◌then◌else◌}
use idena_indexer.Base.Int.{ℤ}
use idena_indexer.Base.Eq.{number_key}
use idena_indexer.Base.Map.{Map, lookup, insert, erase}
use idena_indexer.Node.{Address, Hash, Transaction, Node}
use idena_indexer.TxPool.ByHash

unfoldable pub add_address_tx :
    Node
    → Address
    → Transaction
    → Map Address (Map Hash Transaction)
    → Map Address (Map Hash Transaction)
add_address_tx n address tx m =
    let address_txs : Map Hash Transaction = elim (lookup address m) [ none ↦ [] | some t ↦ t ] in
    insert address (ByHash.add n tx address_txs) m

unfoldable pub remove_by_address_and_hash :
    Address → Hash → Map Address (Map Hash Transaction) → Map Address (Map Hash Transaction)
remove_by_address_and_hash address hash m = elim (lookup address m) [
  | none ↦ m
  | some txs ↦
      let txs' = ByHash.remove hash txs in
      if ByHash.is_empty txs' then erase address m else insert address txs' m
]

unfoldable pub add :
    Node → Transaction → Map Address (Map Hash Transaction) → Map Address (Map Hash Transaction)
add n tx m =
    let m' = add_address_tx n (n.sender tx) tx m in
    elim tx.to [ none ↦ m' | some to ↦ add_address_tx n to tx m' ]

unfoldable pub remove :
    Node → Transaction → Map Address (Map Hash Transaction) → Map Address (Map Hash Transaction)
remove n tx m =
    let m' = remove_by_address_and_hash (n.sender tx) (n.tx_hash tx) m in
    elim tx.to [ none ↦ m' | some to ↦ remove_by_address_and_hash to (n.tx_hash tx) m' ]

unfoldable pub get : Address → ℤ → Map Address (Map Hash Transaction) → List (Option Transaction)
get address count m = elim (lookup address m) [ none ↦ [] | some txs ↦ ByHash.all count txs ]
