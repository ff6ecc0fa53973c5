-- ===== src/TxPool/Index.antt =====
-- mempool_txs.go: what the two indexes hold after each call, and that they agree.
use idena_indexer.Base.{
  ◌≡◌, ◌≢◌, refl, Bool, true, false, ◌&&◌, ◌||◌, Option, none, some, [], ◌∷◌, arith, inl, inr,
  Option-cases, if◌then◌else◌,
}
use idena_indexer.Base.Eq.{◌==◌, number_key}
use idena_indexer.Base.Map.{Map, lookup, insert, erase, lookup-erase, lookup-insert}
use idena_indexer.Node.{Address, Hash, Transaction, Node}
use idena_indexer.TxPool.ByHash
use idena_indexer.TxPool.ByAddress

-- The transaction that the index of `a` holds under `h`.
abbrev pub at : Address → Hash → Map Address (Map Hash Transaction) → Option Transaction
at a h m = elim (lookup a m) [ none ↦ none | some txs ↦ lookup h txs ]

-- `tx` has `a` for its sender or its recipient.
abbrev pub involves : Node → Transaction → Address → Bool
involves n tx a = n.sender tx == a || elim tx.to [ none ↦ false | some b ↦ b == a ]

-- An empty inner map holds nothing, so `delete` of its entry loses nothing.
lookup-is_empty :
    (h : Hash) (m : Map Hash Transaction) → ByHash.is_empty m ≡ true → lookup h m ≡ none
unfolding ByHash.is_empty lookup
lookup-is_empty h [] e = refl
lookup-is_empty h (x ∷ m) e = ground arith

at-add_address_tx :
    (n : Node) (tx : Transaction) (b a : Address) (h : Hash)
    (m : Map Address (Map Hash Transaction))
    → at a h (ByAddress.add_address_tx n b tx m)
      ≡ (if b == a && n.tx_hash tx == h then some tx else at a h m)
unfolding ByAddress.add_address_tx ByHash.add lookup
at-add_address_tx n tx b a h m = elim (Option-cases (lookup b m)) [
  | inl missing ↦ rw missing (
      ground (
        arith,
        lookup-insert b a (insert (n.tx_hash tx) tx []) m,
        lookup-insert (n.tx_hash tx) h tx [],
      ))
  | inr (txs, e) ↦ rw e (
      ground (
        arith,
        lookup-insert b a (insert (n.tx_hash tx) tx txs) m,
        lookup-insert (n.tx_hash tx) h tx txs,
      ))
]

at-remove_by_address_and_hash :
    (b a : Address) (g h : Hash) (m : Map Address (Map Hash Transaction))
    → at a h (ByAddress.remove_by_address_and_hash b g m)
      ≡ (if b == a && g == h then none else at a h m)
unfolding ByAddress.remove_by_address_and_hash ByHash.remove
at-remove_by_address_and_hash b a g h m = elim (Option-cases (lookup b m)) [
  | inl missing ↦ ground arith
  | inr (txs, e) ↦ ground (
    arith,
    lookup-erase b a m,
    lookup-insert b a (erase g txs) m,
    lookup-erase g h txs,
    lookup-is_empty h (erase g txs),
  )
]

-- Adding a transaction writes it to the index of each address that it involves, and nowhere else.
pub at-add :
    (n : Node) (tx : Transaction) (a : Address) (h : Hash) (m : Map Address (Map Hash Transaction))
    → at a h (ByAddress.add n tx m)
      ≡ (if involves n tx a && n.tx_hash tx == h then some tx else at a h m)
unfolding ByAddress.add
at-add n tx a h m = elim (Option-cases tx.to) [
  | inl alone ↦ rw alone (ground (arith, at-add_address_tx n tx (n.sender tx) a h m))
  | inr (b, e) ↦ rw e (
      ground (
        arith,
        at-add_address_tx n tx (n.sender tx) a h m,
        at-add_address_tx n tx b a h (ByAddress.add_address_tx n (n.sender tx) tx m),
      ))
]

pub at-remove :
    (n : Node) (tx : Transaction) (a : Address) (h : Hash) (m : Map Address (Map Hash Transaction))
    → at a h (ByAddress.remove n tx m)
      ≡ (if involves n tx a && n.tx_hash tx == h then none else at a h m)
unfolding ByAddress.remove
at-remove n tx a h m =
    let g = n.tx_hash tx in
    let s = n.sender tx in
    elim (Option-cases tx.to) [
      | inl alone ↦ rw alone (ground (arith, at-remove_by_address_and_hash s a g h m))
      | inr (b, e) ↦ rw e (
          ground (
            arith,
            at-remove_by_address_and_hash s a g h m,
            at-remove_by_address_and_hash b a g h (ByAddress.remove_by_address_and_hash s g m),
          ))
    ]

-- No address is kept for an empty map, in the table of addresses `m`.
abbrev pub HasNoEmpty : Map Address (Map Hash Transaction) → Type 0
HasNoEmpty m = (a : Address) → lookup a m ≢ some []

add_address_tx-HasNoEmpty :
    (n : Node) (tx : Transaction) (b : Address) (m : Map Address (Map Hash Transaction))
    → HasNoEmpty m
    → HasNoEmpty (ByAddress.add_address_tx n b tx m)
unfolding ByAddress.add_address_tx ByHash.add insert
add_address_tx-HasNoEmpty n tx b m full a = elim (Option-cases (lookup b m)) [
  | inl missing ↦
      rw missing
        (ground (arith, full a, lookup-insert b a ((n.tx_hash tx, tx) ∷ erase (n.tx_hash tx) []) m))
  | inr (txs, e) ↦
      rw e (
        ground (arith, full a, lookup-insert b a ((n.tx_hash tx, tx) ∷ erase (n.tx_hash tx) txs) m))
]

remove_by_address_and_hash-HasNoEmpty :
    (b : Address) (g : Hash) (m : Map Address (Map Hash Transaction))
    → HasNoEmpty m
    → HasNoEmpty (ByAddress.remove_by_address_and_hash b g m)
unfolding ByAddress.remove_by_address_and_hash ByHash.remove ByHash.is_empty
remove_by_address_and_hash-HasNoEmpty b g m full a = elim (Option-cases (lookup b m)) [
  | inl missing ↦ ground (arith, full a)
  | inr (txs, e) ↦ ground (arith, full a, lookup-erase b a m, lookup-insert b a (erase g txs) m)
]

pub add-HasNoEmpty :
    (n : Node) (tx : Transaction) (m : Map Address (Map Hash Transaction))
    → HasNoEmpty m
    → HasNoEmpty (ByAddress.add n tx m)
unfolding ByAddress.add
add-HasNoEmpty n tx m full a =
    let first = add_address_tx-HasNoEmpty n tx (n.sender tx) m full in
    elim (Option-cases tx.to) [
      | inl alone ↦ ground (arith, first a)
      | inr (b, e) ↦ ground (arith, add_address_tx-HasNoEmpty n tx b _ first a)
    ]

pub remove-HasNoEmpty :
    (n : Node) (tx : Transaction) (m : Map Address (Map Hash Transaction))
    → HasNoEmpty m
    → HasNoEmpty (ByAddress.remove n tx m)
unfolding ByAddress.remove
remove-HasNoEmpty n tx m full a =
    let first = remove_by_address_and_hash-HasNoEmpty (n.sender tx) (n.tx_hash tx) m full in
    elim (Option-cases tx.to) [
      | inl alone ↦ ground (arith, first a)
      | inr (b, e) ↦
          ground (arith, remove_by_address_and_hash-HasNoEmpty b (n.tx_hash tx) _ first a)
    ]
