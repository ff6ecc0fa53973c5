-- ===== src/Delegation.antt =====
-- indexer/delegation.go: the switches of delegation that a block makes, and the pools whose size it
-- changes.
pub mod Switches
pub mod Loops
pub mod Pools
pub mod PoolSizes
mod Tests
use idena_indexer.Base.{
  ℕ, Bool, true, false, ◌&&◌, ◌||◌, Option, none, some, List, [], ◌∷◌, ◌++◌, ◌==◌, ltb,
  if◌then◌else◌,
}
use idena_indexer.Base.Eq.{number_key}
use idena_indexer.Base.Map.{Map, lookup, insert}
use idena_indexer.Node.{Address, Hash, Transaction, Node}

-- A pointer to an address: where it points, and what is there.
pub record Pointer : Type 0 where
  pub location : ℕ
  pub address : Address

-- The state of idena-go at a height, with its cache of validators; `delegations` are the delegators of
-- the pending switches.
pub record State : Type 0 where
  pub delegatee : Address → Option Pointer
  pub birthday : Address → ℕ
  pub delegations : List Address
  pub is_pool : Address → Bool
  pub pool_size : Address → ℕ

-- A block with its header.
pub record Block : Type 0 where
  pub height : ℕ
  pub identity_update : Bool

-- `killedInfo`, with the hash of its transaction.
pub record KilledInfo : Type 0 where
  pub reason : ℕ
  pub tx_hash : Hash

pub record DelegationSwitch : Type 0 where
  pub delegator : Address
  pub delegatee : Option Pointer
  pub birth_epoch : Option ℕ

pub record HistoryUpdate : Type 0 where
  pub delegator_address : Address
  pub delegation_block_height : Option ℕ
  pub undelegation_reason : Option ℕ
  pub undelegation_tx : Option Hash
  pub undelegation_block_height : Option ℕ

unfoldable pub undelegation_reason_of : KilledInfo → Option ℕ × Option Hash
undelegation_reason_of info =
    if info.reason == 1
    then (some 5, none)
    else if info.reason == 2
    then (some 2, some info.tx_hash)
    else if info.reason == 3
    then (some 3, none)
    else (none, none)

-- `prevDelegatee == newDelegatee` compares the pointers.
unfoldable pub detect_delegation_switch : Address → State → State → Option DelegationSwitch
detect_delegation_switch delegator prev new =
    let birth_epoch : Option ℕ =
      if ltb 0 (new.birthday delegator) then some (new.birthday delegator) else none in
    elim (prev.delegatee delegator) [
      | none ↦ elim (new.delegatee delegator) [
        | none ↦ none
        | some p' ↦
            some (record { delegator = delegator; delegatee = some p'; birth_epoch = birth_epoch })
      ]
      | some p ↦ elim (new.delegatee delegator) [
        | none ↦ some (record { delegator = delegator; delegatee = none; birth_epoch = none })
        | some p' ↦
            if p.location == p'.location
            then none
            else some
                (record { delegator = delegator; delegatee = some p'; birth_epoch = birth_epoch })
      ]
    ]

unfoldable pub build_delegation_history_update : DelegationSwitch → ℕ → HistoryUpdate
build_delegation_history_update s height = record {
  delegator_address = s.delegator;
  delegation_block_height = elim s.delegatee [ none ↦ none | some _ ↦ some height ];
  undelegation_reason = none;
  undelegation_tx = none;
  undelegation_block_height = elim s.delegatee [ none ↦ some height | some _ ↦ none ];
}

-- The update that reports a delegation that could not be applied.
unfoldable pub applying_failure : Address → ℕ → HistoryUpdate
applying_failure delegator height = record {
  delegator_address = delegator;
  delegation_block_height = some height;
  undelegation_reason = some 6;
  undelegation_tx = none;
  undelegation_block_height = some height;
}

-- The one value of `struct{}`.
pub data Mark : Type 0 where
  mark : Mark

-- `res` and `delegationHistoryUpdates`.
abbrev pub Found : Type 0
Found = List DelegationSwitch × List HistoryUpdate

-- The first loop, over the killed addresses.
unfoldable pub killed_loop : ℕ → State → Map Address KilledInfo → Found → Found
unfolding undelegation_reason_of
killed_loop height prev [] found = found
killed_loop height prev ((a, info) ∷ killed) found =
    killed_loop height prev killed (elim (prev.delegatee a) [
      | none ↦ found
      | some _ ↦ (
        found.0 ++ record { delegator = a; delegatee = none; birth_epoch = none } ∷ [],
        found.1
            ++ record {
              delegator_address = a;
              delegation_block_height = none;
              undelegation_reason = (undelegation_reason_of info).0;
              undelegation_tx = (undelegation_reason_of info).1;
              undelegation_block_height = some height;
            }
              ∷ [],
      )
    ])

-- The end of the other two loops' bodies; `reports` says whether a missing switch is a failure.
unfoldable pub handle : ℕ → State → State → Address → Bool → Found → Found
unfolding detect_delegation_switch build_delegation_history_update applying_failure
handle height prev new a reports found = elim (detect_delegation_switch a prev new) [
  | some s ↦ (found.0 ++ s ∷ [], found.1 ++ build_delegation_history_update s height ∷ [])
  | none ↦ if reports then (found.0, found.1 ++ applying_failure a height ∷ []) else found
]

unfoldable pub is_key : {V : Type 0} → Address → Map Address V → Bool
is_key a m = elim (lookup a m) [ none ↦ false | some _ ↦ true ]

-- The second loop, over the pending switches; it also fills `handledAddrs`.
unfoldable pub delegations_loop :
    ℕ
    → State
    → State
    → Map Address KilledInfo
    → List Address
    → Found × Map Address Mark
    → Found × Map Address Mark
unfolding handle is_key
delegations_loop height prev new killed [] acc = acc
delegations_loop height prev new killed (a ∷ rest) (found, handled) =
    delegations_loop height prev new killed rest (
      if is_key a killed
      then (found, handled)
      else (handle height prev new a true found, insert a mark handled))

-- The third loop, over the block's transactions; `delegate_tx` is the type `DelegateTx`.
unfoldable pub txs_loop :
    Node
    → ℕ
    → ℕ
    → State
    → State
    → Map Address KilledInfo
    → Map Address Mark
    → List Transaction
    → Found
    → Found
unfolding handle is_key
txs_loop n delegate_tx height prev new killed handled [] found = found
txs_loop n delegate_tx height prev new killed handled (tx ∷ txs) found =
    txs_loop n delegate_tx height prev new killed handled txs (
      if is_key (n.sender tx) killed
      then found
      else if is_key (n.sender tx) handled
      then found
      else handle height prev new (n.sender tx) (tx.tx_type == delegate_tx) found)

-- A block that is nil, or its header, is `none`.
unfoldable pub detect_delegation_switches :
    Node → ℕ → Option Block → State → State → Map Address KilledInfo → List Transaction → Found
unfolding killed_loop delegations_loop txs_loop
detect_delegation_switches n delegate_tx none prev new killed txs = ([], [])
detect_delegation_switches n delegate_tx (some b) prev new killed txs =
    if b.identity_update
    then (let r =
          delegations_loop b.height prev new killed prev.delegations
            (killed_loop b.height prev killed ([], []), []) in
        txs_loop n delegate_tx b.height prev new killed (r.1) txs (r.0))
    else ([], [])
