-- ===== src/TxPool/History.antt =====
-- mempool_txs.go: any history of calls of `AddTransaction` and `RemoveTransaction`, against the
-- plain table of the transactions that are pending.
use idena_indexer.Base.{
  ℕ, ◌≡◌, refl, sym, ap, ◌∙◌, Option, none, some, List, [], ◌∷◌, arith, Option-cases, inl, inr,
  if◌then◌else◌,
}
use idena_indexer.Base.Eq.{◌==◌, number_key}
use idena_indexer.Base.Map.{
  Map, IsMap, lookup, lookup-insert, lookup-erase, insert-IsMap, erase-IsMap,
}
use idena_indexer.Node.{Address, Hash, Transaction, Node}
use idena_indexer.TxPool.{MemPool, new_mem_pool, add_tx, remove_tx}
use idena_indexer.TxPool.ByHash
use idena_indexer.TxPool.Index.{
  at, involves, at-add, at-remove, HasNoEmpty, add-HasNoEmpty, remove-HasNoEmpty,
}

pub data Call : Type 0 where
  add_transaction remove_transaction : Transaction → Call

-- The specification: the table of pending transactions after a call.
abbrev pub pending_after : Node → Call → (Hash → Option Transaction) → Hash → Option Transaction
pending_after n (add_transaction tx) pending h = if n.tx_hash tx == h then some tx else pending h
pending_after n (remove_transaction tx) pending h = if n.tx_hash tx == h then none else pending h

-- The part of the table that one address sees.
abbrev pub seen_by : Node → Address → Option Transaction → Option Transaction
seen_by n a none = none
seen_by n a (some tx) = if involves n tx a then some tx else none

abbrev pub subject : Call → Transaction
subject (add_transaction tx) = tx
subject (remove_transaction tx) = tx

unfoldable pub apply : Node → Call → MemPool → MemPool
apply n (add_transaction tx) = add_tx n tx
apply n (remove_transaction tx) = remove_tx n tx

unfoldable pub run : Node → List Call → MemPool → MemPool
unfolding apply
run n [] pool = pool
run n (c ∷ cs) pool = run n cs (apply n c pool)

unfoldable pub pending : Node → List Call → (Hash → Option Transaction) → Hash → Option Transaction
pending n [] table = table
pending n (c ∷ cs) table = pending n cs (pending_after n c table)

-- The transactions that satisfy `P` have different hashes.
abbrev pub DifferByHash : Node → (Transaction → Type 0) → Type 0
DifferByHash n P = (t u : Transaction) → P t → P u → n.tx_hash t ≡ n.tx_hash u → t ≡ u

abbrev pub AllCalls : (Transaction → Type 0) → List Call → Type 0
AllCalls P [] = Unit
AllCalls P (c ∷ cs) = P (subject c) × AllCalls P cs

module _ (n : Node) (P : Transaction → Type 0) where
  -- The pool's two indexes say what the table says, and keep nothing else.
  pub record Agrees (table : Hash → Option Transaction) (pool : MemPool) : Type 0 where
    pub by_hash : (h : Hash) → lookup h pool.txs_by_hash ≡ table h
    pub by_address : (a : Address) (h : Hash) → at a h pool.txs_by_address ≡ seen_by n a (table h)
    pub has_no_empty : HasNoEmpty pool.txs_by_address
    pub is_map : IsMap pool.txs_by_hash
    pub known : (h : Hash) (t : Transaction) → table h ≡ some t → P t × (n.tx_hash t ≡ h)

module _ (n : Node) {P : Transaction → Type 0} (differ : DifferByHash n P) where
  -- A pending transaction with the hash of `tx` is `tx`, so the two involve the same addresses.
  involves_of_hash :
      (tx t : Transaction) (a : Address) (h : Hash) {table : Hash → Option Transaction}
      {pool : MemPool}
      → P tx
      → Agrees n P table pool
      → table h ≡ some t
      → n.tx_hash tx ≡ h
      → involves n t a ≡ involves n tx a
  involves_of_hash tx t a h p g e q =
      let (pt, ht) = g.known h t e in ap (λ u. involves n u a) (differ t tx pt p (ht ∙ sym q))

  add_tx-Agrees :
      (tx : Transaction) (table : Hash → Option Transaction) (pool : MemPool)
      → P tx
      → Agrees n P table pool
      → Agrees n P (pending_after n (add_transaction tx) table) (add_tx n tx pool)
  unfolding add_tx ByHash.add
  add_tx-Agrees tx table pool p g = record {
    by_hash = λ h. ground (arith, lookup-insert (n.tx_hash tx) h tx pool.txs_by_hash, g.by_hash h);
    by_address = λ a h. elim (Option-cases (table h)) [
      | inl free ↦ ground (arith, at-add n tx a h pool.txs_by_address, g.by_address a h)
      | inr (t, e) ↦ ground (
        arith,
        at-add n tx a h pool.txs_by_address,
        g.by_address a h,
        involves_of_hash tx t a h p g e,
      )
    ];
    has_no_empty = add-HasNoEmpty n tx pool.txs_by_address g.has_no_empty;
    is_map = insert-IsMap (n.tx_hash tx) tx pool.txs_by_hash g.is_map;
    known = λ h t e. ground (arith, g.known h t);
  }

  remove_tx-Agrees :
      (tx : Transaction) (table : Hash → Option Transaction) (pool : MemPool)
      → P tx
      → Agrees n P table pool
      → Agrees n P (pending_after n (remove_transaction tx) table) (remove_tx n tx pool)
  unfolding remove_tx ByHash.remove ByHash.contains
  remove_tx-Agrees tx table pool p g = record {
    by_hash = λ h. ground (
      arith,
      lookup-erase (n.tx_hash tx) h pool.txs_by_hash,
      g.by_hash h,
      g.by_hash (n.tx_hash tx),
    );
    by_address = λ a h. elim (Option-cases (table h)) [
      | inl free ↦ ground (
        arith,
        at-remove n tx a h pool.txs_by_address,
        g.by_address a h,
        g.by_hash (n.tx_hash tx),
      )
      | inr (t, e) ↦ ground (
        arith,
        at-remove n tx a h pool.txs_by_address,
        g.by_address a h,
        g.by_hash (n.tx_hash tx),
        involves_of_hash tx t a h p g e,
      )
    ];
    has_no_empty = ground (arith, remove-HasNoEmpty n tx pool.txs_by_address g.has_no_empty);
    is_map = ground (arith, erase-IsMap (n.tx_hash tx) pool.txs_by_hash g.is_map);
    known = λ h t e. ground (arith, g.known h t);
  }

  apply-Agrees :
      (c : Call) (table : Hash → Option Transaction) (pool : MemPool)
      → P (subject c)
      → Agrees n P table pool
      → Agrees n P (pending_after n c table) (apply n c pool)
  unfolding apply
  apply-Agrees (add_transaction tx) = add_tx-Agrees tx
  apply-Agrees (remove_transaction tx) = remove_tx-Agrees tx

  run-Agrees_from :
      (calls : List Call) (table : Hash → Option Transaction) (pool : MemPool)
      → AllCalls P calls
      → Agrees n P table pool
      → Agrees n P (pending n calls table) (run n calls pool)
  unfolding run pending
  run-Agrees_from [] table pool all g = g
  run-Agrees_from (c ∷ cs) table pool all g =
      run-Agrees_from cs (pending_after n c table) (apply n c pool) all.1
        (apply-Agrees c table pool all.0 g)

  new_mem_pool-Agrees : Agrees n P (λ _. none) new_mem_pool
  unfolding lookup
  new_mem_pool-Agrees = record {
    by_hash = λ h. refl;
    by_address = λ a h. refl;
    has_no_empty = λ a e. cc;
    is_map = tt;
    known = λ h t e. cc;
  }

  -- After any calls on a new pool, whose transactions differ by hash, the index by hash is the table
  -- of pending transactions, the index of each address is the part of that table in which the
  -- address is the sender or the recipient, and no address is kept with an empty index.
  pub run-Agrees :
      (calls : List Call)
      → AllCalls P calls
      → Agrees n P (pending n calls (λ _. none)) (run n calls new_mem_pool)
  run-Agrees calls all = run-Agrees_from calls (λ _. none) new_mem_pool all new_mem_pool-Agrees

-- A map in which nothing is found has no entry.
lookup-none {ℓ} : {V : Type ℓ} (m : Map ℕ V) → ((k : ℕ) → lookup k m ≡ none) → m ≡ []
unfolding lookup
lookup-none [] h = refl
lookup-none ((k, v) ∷ m) h = ground (arith, h k)

at-none :
    (m : Map Address (Map Hash Transaction))
    → HasNoEmpty m
    → ((a : Address) (h : Hash) → at a h m ≡ none)
    → m ≡ []
unfolding lookup
at-none [] full h = refl
at-none ((a, []) ∷ m) full h = ground (arith, full a)
at-none ((a, (k, v) ∷ txs) ∷ m) full h = ground (arith, h a k)

module _ (n : Node) {P : Transaction → Type 0} (differ : DifferByHash n P) where
  -- After calls that leave no transaction pending both indexes are empty: nothing leaks.
  pub run_drained :
      (calls : List Call)
      → AllCalls P calls
      → ((h : Hash) → pending n calls (λ _. none) h ≡ none)
      → run n calls new_mem_pool ≡ new_mem_pool
  run_drained calls all drained =
      let g = run-Agrees n differ calls all in
      let pool = run n calls new_mem_pool in
      let p = lookup-none pool.txs_by_hash (λ h. g.by_hash h ∙ drained h) in
      let q : pool.txs_by_address ≡ [] =
        at-none pool.txs_by_address g.has_no_empty
          (λ a h. g.by_address a h ∙ ap (seen_by n a) (drained h)) in
      λ i. record { txs_by_hash = p i; txs_by_address = q i }
