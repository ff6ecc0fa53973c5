-- ===== src/ContractTxs/Indexes.antt =====
-- contracts_pool.go: what adding and removing do to the transactions of each sender and contract.
use Prim.Native.String.{String}
use idena_indexer.Base.{
  ◌≡◌, refl, ap, ◌∙◌, sym, subst, true, ◌&&◌, none, some, [], ◌∷◌, arith, if◌then◌else◌, Bool-cases,
  Option-cases, inl, inr,
}
use idena_indexer.Base.Eq.{◌==◌, string_key}
use idena_indexer.Base.Map.{Map, lookup, insert, erase, lookup-insert, lookup-erase}
use idena_indexer.ContractTxs.{
  Transaction, AddressContractTxs, or_empty, is_empty, put_or_delete, add, remove,
}

-- The transactions under an address and a contract, both as keys.
abbrev pub txs_in :
    String → String → Map String (Map String (Map String Transaction)) → Map String Transaction
txs_in a c m = or_empty (lookup c (or_empty (lookup a m)))

abbrev pub txs_at : String → String → AddressContractTxs → Map String Transaction
txs_at a c t = txs_in a c t.txs_by_address_and_contract

empty_map : {V : Type 0} (m : Map String V) → is_empty m ≡ true → m ≡ []
empty_map [] h = refl
empty_map (e ∷ m) h = ground arith

or_empty-insert :
    {V : Type 0} (k j : String) (inner : Map String V) (m : Map String (Map String V))
    → or_empty (lookup j (insert k inner m)) ≡ (if k == j then inner else or_empty (lookup j m))
or_empty-insert k j inner m =
    ap or_empty (lookup-insert k j inner m)
    ∙ elim (Bool-cases (k == j)) [ inl same ↦ rw same refl | inr other ↦ rw other refl ]

-- A lookup does not tell an empty map from none.
or_empty-put_or_delete :
    {V : Type 0} (k j : String) (inner : Map String V) (m : Map String (Map String V))
    → or_empty (lookup j (put_or_delete k inner m))
      ≡ (if k == j then inner else or_empty (lookup j m))
unfolding put_or_delete
or_empty-put_or_delete k j inner m = elim (Bool-cases (is_empty inner)) [
  | inl e ↦
      rw (e, put_or_delete)
        (ap or_empty (lookup-erase k j m) ∙ elim (Bool-cases (k == j)) [
          | inl same ↦ rw same (sym (empty_map inner e))
          | inr other ↦ rw other refl
        ])
  | inr e ↦ rw (e, put_or_delete) (or_empty-insert k j inner m)
]

-- The transactions of one sender and contract are replaced by others.
txs_in-insert :
    (k l a c : String) (txs : Map String Transaction)
    (m : Map String (Map String (Map String Transaction)))
    → txs_in a c (insert k (insert l txs (or_empty (lookup k m))) m)
      ≡ (if k == a && l == c then txs else txs_in a c m)
txs_in-insert k l a c txs m =
    ap (λ b. or_empty (lookup c b)) (or_empty-insert k a (insert l txs (or_empty (lookup k m))) m)
    ∙ elim (Bool-cases (k == a)) [
      | inr other ↦ rw other refl
      | inl same ↦
          let equal : k ≡ a = (string_key.decides k a).0 same in
          rw same (
            or_empty-insert l c txs (or_empty (lookup k m))
            ∙ ap (λ x. if l == c then txs else txs_in x c m) equal)
    ]

txs_in-put_or_delete :
    (k l a c : String) (txs : Map String Transaction)
    (by_contract : Map String (Map String Transaction))
    (m : Map String (Map String (Map String Transaction)))
    → lookup k m ≡ some by_contract
    → txs_in a c (put_or_delete k (put_or_delete l txs by_contract) m)
      ≡ (if k == a && l == c then txs else txs_in a c m)
txs_in-put_or_delete k l a c txs by_contract m h =
    ap (λ b. or_empty (lookup c b)) (or_empty-put_or_delete k a (put_or_delete l txs by_contract) m)
    ∙ elim (Bool-cases (k == a)) [
      | inr other ↦ rw other refl
      | inl same ↦
          let equal : k ≡ a = (string_key.decides k a).0 same in
          let there : by_contract ≡ or_empty (lookup a m) =
            sym (ap or_empty (subst (λ x. lookup x m ≡ some by_contract) equal h)) in
          rw same (
            or_empty-put_or_delete l c txs by_contract
            ∙ ap (λ b. if l == c then txs else or_empty (lookup c b)) there)
    ]

-- Where the keys are the same, so are the transactions under them.
same_txs :
    (f : Map String Transaction → Map String Transaction) (k l a c : String)
    (m : Map String (Map String (Map String Transaction))) (x : Map String Transaction)
    → (if k == a && l == c then f (txs_in k l m) else x)
      ≡ (if k == a && l == c then f (txs_in a c m) else x)
same_txs f k l a c m x = elim (Bool-cases (k == a)) [
  | inr other ↦ rw other refl
  | inl same ↦ elim (Bool-cases (l == c)) [
    | inr other ↦ rw (same, other) refl
    | inl too ↦
        let first : k ≡ a = (string_key.decides k a).0 same in
        let second : l ≡ c = (string_key.decides l c).0 too in
        rw (same, too) (ap (λ y. f (txs_in y l m)) first ∙ ap (λ y. f (txs_in a y m)) second)
  ]
]

no_address :
    (k l : String) (m : Map String (Map String (Map String Transaction)))
    → lookup k m ≡ none
    → txs_in k l m ≡ []
unfolding lookup
no_address k l m e = ap (λ o. or_empty (lookup l (or_empty o))) e

-- Nothing is to be erased where there are no transactions.
nothing_erased :
    (h k l a c : String) (m : Map String (Map String (Map String Transaction)))
    → txs_in k l m ≡ []
    → txs_in a c m ≡ (if k == a && l == c then erase h (txs_in a c m) else txs_in a c m)
unfolding erase
nothing_erased h k l a c m none_there = elim (Bool-cases (k == a && l == c)) [
  | inr other ↦ rw other refl
  | inl same ↦
      let moved = same_txs (λ y. y) k l a c m [] in
      let gone : txs_in a c m ≡ [] =
        sym (sym none_there ∙ sym (rw same refl) ∙ moved ∙ rw same refl) in
      rw same (gone ∙ sym (ap (erase h) gone))
]

module _ (to_lower : String → String) where
  pub txs_at-add :
      (tx : Transaction) (contract : String) (t : AddressContractTxs) (a c : String)
      → txs_at a c (add to_lower tx contract t) ≡ (
          if to_lower tx.from == a && to_lower contract == c
          then insert tx.hash tx (txs_at a c t)
          else txs_at a c t)
  unfolding add
  txs_at-add tx contract t a c =
      let k = to_lower tx.from in
      let l = to_lower contract in
      let m = t.txs_by_address_and_contract in
      txs_in-insert k l a c (insert tx.hash tx (txs_in k l m)) m
      ∙ same_txs (insert tx.hash tx) k l a c m (txs_in a c m)

  pub txs_at-remove :
      (h sender contract : String) (t : AddressContractTxs) (a c : String)
      → lookup (to_lower h) t.contract_addresses_by_tx_hash ≡ some contract
      → txs_at a c (remove to_lower h sender t) ≡ (
          if to_lower sender == a && to_lower contract == c
          then erase (to_lower h) (txs_at a c t)
          else txs_at a c t)
  unfolding remove
  txs_at-remove h sender contract t a c known =
      let k = to_lower sender in
      let l = to_lower contract in
      let m = t.txs_by_address_and_contract in
      elim (Option-cases (lookup k m)) [
        | inl e ↦ rw (known, e, remove) (nothing_erased (to_lower h) k l a c m (no_address k l m e))
        | inr (by_contract, e) ↦ elim (Option-cases (lookup l by_contract)) [
          | inl q ↦
              rw (known, e, q, remove) (nothing_erased (to_lower h) k l a c m (rw (e, q) refl))
          | inr (txs, q) ↦
              let under : txs_in k l m ≡ txs = rw (e, q) refl in
              rw (known, e, q, remove)
                (txs_in-put_or_delete k l a c (erase (to_lower h) txs) by_contract m e
                  ∙ ap (λ y. if k == a && l == c then erase (to_lower h) y else txs_in a c m)
                      (sym under)
                  ∙ same_txs (erase (to_lower h)) k l a c m (txs_in a c m))
        ]
      ]
