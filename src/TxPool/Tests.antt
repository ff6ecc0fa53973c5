-- ===== src/TxPool/Tests.antt =====
-- The pool on concrete transactions.
use idena_indexer.Base.{
  ℕ, ◌≡◌, refl, sym, ap, ◌∙◌, ◌⊎◌, inl, inr, Option, none, some, List, [], ◌∷◌, arith, length, map,
  take, min,
}
use idena_indexer.Base.Int.{pos, negsuc}
use idena_indexer.Base.Eq.{number_key}
use idena_indexer.Base.Map.{Map, lookup, insert, erase}
use idena_indexer.Node.{Transaction, Node}
use idena_indexer.TxPool.{new_mem_pool, add_tx, remove_tx}
use idena_indexer.TxPool.ByHash
use idena_indexer.TxPool.ByAddress
use idena_indexer.TxPool.History.{
  Call, add_transaction, remove_transaction, apply, run, pending, Agrees, run-Agrees, run_drained,
}
use idena_indexer.TxPool.Pages.{values, all_lem}

abbrev node : Node
node = record {
  Decimal = ℕ;
  tx_hash = λ tx. tx.account_nonce;
  sender = λ tx. tx.epoch;
  tx_size = λ tx. 0;
  address_hex = λ a. "";
  hash_hex = λ h. "";
  hex_to_address = λ s. 0;
  hex_to_hash = λ s. 0;
  tx_type_name = λ t. "";
  to_float = λ a. 0;
}

abbrev payment : ℕ → ℕ → Option ℕ → Transaction
payment nonce from to = record {
  tx_type = 0;
  to = to;
  epoch = from;
  payload = [];
  amount = none;
  tips = none;
  max_fee = none;
  account_nonce = nonce;
}

-- One transaction to another address, one to its own sender.
abbrev sent : Transaction
sent = payment 1 7 (some 8)

abbrev kept : Transaction
kept = payment 2 7 (some 7)

abbrev One : Transaction → Type 0
One t = (t ≡ sent) ⊎ (t ≡ kept)

One-differ : (t u : Transaction) → One t → One u → t.account_nonce ≡ u.account_nonce → t ≡ u
One-differ t u (inl p) (inl q) e = p ∙ sym q
One-differ t u (inl p) (inr q) e = absurd (
    omega (
      arith,
      ap (λ (x : Transaction). x.account_nonce) p,
      ap (λ (x : Transaction). x.account_nonce) q,
    ))
One-differ t u (inr p) (inl q) e = absurd (
    omega (
      arith,
      ap (λ (x : Transaction). x.account_nonce) p,
      ap (λ (x : Transaction). x.account_nonce) q,
    ))
One-differ t u (inr p) (inr q) e = p ∙ sym q

abbrev calls : List Call
calls = add_transaction sent ∷ add_transaction kept ∷ remove_transaction sent ∷ []

run-calls :
    run node calls new_mem_pool
    ≡ record { txs_by_hash = (2, kept) ∷ []; txs_by_address = (7, (2, kept) ∷ []) ∷ [] }
unfolding run apply add_tx remove_tx lookup insert erase ByHash.add ByHash.remove ByHash.contains
    ByHash.is_empty ByAddress.add ByAddress.remove ByAddress.add_address_tx
    ByAddress.remove_by_address_and_hash
run-calls = refl

run-Agrees_example : Agrees node One (pending node calls (λ _. none)) (run node calls new_mem_pool)
run-Agrees_example = run-Agrees node One-differ calls (inl refl, (inr refl, (inl refl, tt)))

abbrev drain : List Call
drain = add_transaction sent ∷ remove_transaction sent ∷ []

pending-drain : (h : ℕ) → pending node drain (λ _. none) h ≡ none
unfolding pending
pending-drain h = ground arith

run_drained_example : run node drain new_mem_pool ≡ new_mem_pool
run_drained_example = run_drained node One-differ drain (inl refl, (inl refl, tt)) pending-drain

abbrev index : Map ℕ Transaction
index = (1, sent) ∷ (2, kept) ∷ []

all_lem_example :
    (ByHash.all (pos 1) index ≡ map some (take 1 (values index)))
    × (length (ByHash.all (pos 1) index) ≡ min 1 (length index))
    × (ByHash.all (negsuc 1) index ≡ [])
all_lem_example = all_lem 1 index
