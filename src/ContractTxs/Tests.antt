-- ===== src/ContractTxs/Tests.antt =====
-- A transaction to a contract that another one of the same sender is waiting for.
use Prim.Native.String.{String}
use idena_indexer.Base.{◌≡◌, refl, none, [], ◌∷◌}
use idena_indexer.Base.Eq.{string_key}
use idena_indexer.Base.Map.{lookup, insert, erase}
use idena_indexer.ContractTxs.{
  Transaction, AddressContractTxs, new_address_contract_txs, add, remove, get, values,
  put_or_delete,
}
use idena_indexer.ContractTxs.Indexes.{txs_at}
use idena_indexer.ContractTxs.Restore.{get-remove-add}

abbrev to_lower : String → String
to_lower s = s

abbrev first : Transaction
first = record { hash = "0x1"; from = "0xa"; rest = 1 }

abbrev second : Transaction
second = record { hash = "0x2"; from = "0xa"; rest = 2 }

abbrev waiting : AddressContractTxs
waiting = record {
  txs_by_address_and_contract = ("0xa", ("0xc", ("0x1", first) ∷ []) ∷ []) ∷ [];
  contract_addresses_by_tx_hash = ("0x1", "0xc") ∷ [];
}

waiting-added : add to_lower first "0xc" new_address_contract_txs ≡ waiting
unfolding add lookup insert erase
waiting-added = refl

not_there : lookup "0x2" (txs_at "0xa" "0xc" waiting) ≡ none
unfolding lookup
not_there = refl

get-remove-add_example :
    get to_lower "0xa" "0xc" (remove to_lower "0x2" "0xa" (add to_lower second "0xc" waiting))
    ≡ get to_lower "0xa" "0xc" waiting
get-remove-add_example = get-remove-add to_lower second "0xc" waiting refl not_there "0xa" "0xc"

got : get to_lower "0xa" "0xc" (add to_lower second "0xc" waiting) ≡ second ∷ first ∷ []
unfolding add get values lookup insert erase
got = refl

-- Once the last one is removed nothing is kept.
emptied : remove to_lower "0x1" "0xa" waiting ≡ new_address_contract_txs
unfolding remove put_or_delete lookup erase
emptied = refl
