-- ===== src/ContractTxs.antt =====
-- core/mempool/contracts_pool.go, `addressContractTxs`: the pending transactions of an address with a
-- contract. The lock makes each operation one step.
pub mod Indexes
pub mod Restore
mod Tests
use Prim.Native.String.{String}
use idena_indexer.Base.{ℕ, Bool, true, false, Option, none, some, List, [], ◌∷◌, if◌then◌else◌}
use idena_indexer.Base.Eq.{string_key}
use idena_indexer.Base.Map.{Map, lookup, insert, erase}

-- `db.Transaction`, with the fields that are read here and one for the rest.
pub record Transaction : Type 0 where
  pub hash : String
  pub from : String
  pub rest : ℕ

-- By sender, contract and hash; and the contract by hash.
pub record AddressContractTxs : Type 0 where
  pub txs_by_address_and_contract : Map String (Map String (Map String Transaction))
  pub contract_addresses_by_tx_hash : Map String String

abbrev pub new_address_contract_txs : AddressContractTxs
new_address_contract_txs = record {
  txs_by_address_and_contract = [];
  contract_addresses_by_tx_hash = [];
}

abbrev pub or_empty : {V : Type 0} → Option (Map String V) → Map String V
or_empty none = []
or_empty (some m) = m

abbrev pub is_empty : {V : Type 0} → Map String V → Bool
is_empty [] = true
is_empty (e ∷ m) = false

-- `m[key] = inner`, or `delete(m, key)` where the inner map has become empty.
unfoldable pub put_or_delete :
    {V : Type 0} → String → Map String V → Map String (Map String V) → Map String (Map String V)
put_or_delete key inner m = if is_empty inner then erase key m else insert key inner m

-- `to_lower` is `strings.ToLower`.
module _ (to_lower : String → String) where
  unfoldable pub add : Transaction → String → AddressContractTxs → AddressContractTxs
  add tx contract t =
      let address = to_lower tx.from in
      let key = to_lower contract in
      let by_contract = or_empty (lookup address t.txs_by_address_and_contract) in
      let txs = or_empty (lookup key by_contract) in
      record {
        txs_by_address_and_contract =
            insert address (insert key (insert tx.hash tx txs) by_contract)
              t.txs_by_address_and_contract;
        contract_addresses_by_tx_hash =
            insert (to_lower tx.hash) contract t.contract_addresses_by_tx_hash;
      }

  unfoldable pub remove : String → String → AddressContractTxs → AddressContractTxs
  unfolding put_or_delete
  remove tx_hash sender t = elim (lookup (to_lower tx_hash) t.contract_addresses_by_tx_hash) [
    | none ↦ t
    | some contract ↦
        let t' = record t {
          contract_addresses_by_tx_hash = erase (to_lower tx_hash) t.contract_addresses_by_tx_hash;
        } in
        elim (lookup (to_lower sender) t.txs_by_address_and_contract) [
          | none ↦ t'
          | some by_contract ↦ elim (lookup (to_lower contract) by_contract) [
            | none ↦ t'
            | some txs ↦ record t' {
              txs_by_address_and_contract =
                  put_or_delete (to_lower sender)
                    (put_or_delete (to_lower contract) (erase (to_lower tx_hash) txs) by_contract)
                    t.txs_by_address_and_contract;
            }
          ]
        ]
  ]

  -- The values of the inner map, in the order of some iteration.
  unfoldable pub values : Map String Transaction → List Transaction
  values [] = []
  values ((h, tx) ∷ m) = tx ∷ values m

  unfoldable pub get : String → String → AddressContractTxs → List Transaction
  unfolding values
  get address contract t = elim (lookup (to_lower address) t.txs_by_address_and_contract) [
    | none ↦ []
    | some by_contract ↦ elim (lookup (to_lower contract) by_contract) [
      | none ↦ []
      | some txs ↦ values txs
    ]
  ]
