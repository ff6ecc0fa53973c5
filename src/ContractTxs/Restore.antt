-- ===== src/ContractTxs/Restore.antt =====
-- contracts_pool.go: adding a transaction and removing it again.
use Prim.Native.String.{String}
use idena_indexer.Base.{
  ◌≡◌, refl, ap, ◌∙◌, sym, subst, true, none, some, arith, Bool-cases, Option-cases, inl, inr,
}
use idena_indexer.Base.Eq.{◌==◌, string_key}
use idena_indexer.Base.Map.{Map, lookup, insert, erase, lookup-insert_self, erase_absent}
use idena_indexer.ContractTxs.{Transaction, AddressContractTxs, add, remove, get, values}
use idena_indexer.ContractTxs.Indexes.{txs_at, txs_at-add, txs_at-remove}

module _ (to_lower : String → String) where
  -- The values under the two keys.
  get_lem :
      (address contract : String) (t : AddressContractTxs)
      → get to_lower address contract t
        ≡ values to_lower (txs_at (to_lower address) (to_lower contract) t)
  unfolding get values lookup
  get_lem address contract t =
      elim (Option-cases (lookup (to_lower address) t.txs_by_address_and_contract)) [
        | inl e ↦ rw (e, get) refl
        | inr (by_contract, e) ↦ elim (Option-cases (lookup (to_lower contract) by_contract)) [
          | inl q ↦ rw (e, q, get) refl
          | inr (txs, q) ↦ rw (e, q, get) refl
        ]
      ]

  erase-insert_self :
      (h : String) (tx : Transaction) (m : Map String Transaction)
      → lookup h m ≡ none
      → erase h (insert h tx m) ≡ m
  unfolding insert erase
  erase-insert_self h tx m absent =
      let same : (h == h) ≡ true = (string_key.decides h h).1 refl in
      let gone = erase_absent h m absent in rw same (ap (erase h) gone ∙ gone)

  added_contract :
      (tx : Transaction) (contract : String) (t : AddressContractTxs)
      → lookup (to_lower tx.hash) (add to_lower tx contract t).contract_addresses_by_tx_hash
        ≡ some contract
  unfolding add
  added_contract tx contract t =
      lookup-insert_self (to_lower tx.hash) contract t.contract_addresses_by_tx_hash

  restored :
      (tx : Transaction) (contract : String) (t : AddressContractTxs)
      → to_lower tx.hash ≡ tx.hash
      → lookup tx.hash (txs_at (to_lower tx.from) (to_lower contract) t) ≡ none
      → (a c : String)
      → txs_at a c (remove to_lower tx.hash tx.from (add to_lower tx contract t)) ≡ txs_at a c t
  restored tx contract t lower absent a c =
      let k = to_lower tx.from in
      let l = to_lower contract in
      let t' = add to_lower tx contract t in
      let removed =
        txs_at-remove to_lower tx.hash tx.from contract t' a c (added_contract tx contract t) in
      let added = txs_at-add to_lower tx contract t a c in
      elim (Bool-cases (k == a)) [
        | inr other ↦ ground (arith, removed, added, other)
        | inl same ↦ elim (Bool-cases (l == c)) [
          | inr other ↦ ground (arith, removed, added, other)
          | inl too ↦
              let first : k ≡ a = (string_key.decides k a).0 same in
              let second : l ≡ c = (string_key.decides l c).0 too in
              let here : lookup tx.hash (txs_at a c t) ≡ none =
                subst (λ y. lookup tx.hash (txs_at y c t) ≡ none) first
                  (subst (λ y. lookup tx.hash (txs_at k y t) ≡ none) second absent) in
              ground (
                arith,
                removed,
                added,
                same,
                too,
                lower,
                erase-insert_self tx.hash tx (txs_at a c t) here,
              )
        ]
      ]

  -- A transaction whose hash is written in lower case, and that is not there yet under its sender and
  -- contract, is added and then removed by its hash and sender: `get` gives for every address and every
  -- contract what it gave before.
  pub get-remove-add :
      (tx : Transaction) (contract : String) (t : AddressContractTxs)
      → to_lower tx.hash ≡ tx.hash
      → lookup tx.hash (txs_at (to_lower tx.from) (to_lower contract) t) ≡ none
      → (address other : String)
      → get to_lower address other (remove to_lower tx.hash tx.from (add to_lower tx contract t))
        ≡ get to_lower address other t
  get-remove-add tx contract t lower absent address other =
      let a = to_lower address in
      let c = to_lower other in
      let t' = add to_lower tx contract t in
      let t'' = remove to_lower tx.hash tx.from t' in
      let back : txs_at a c t'' ≡ txs_at a c t = restored tx contract t lower absent a c in
      get_lem address other t'' ∙ ap (values to_lower) back ∙ sym (get_lem address other t)
