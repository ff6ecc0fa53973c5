-- ===== src/Delegation/Tests.antt =====
-- delegation.go on a block in which one delegation begins, one ends by a kill and one is kept.
use idena_indexer.Base.{
  ℕ, ◌+◌, ◌||◌, ◌≡◌, refl, true, false, none, some, List, [], ◌∷◌, arith, ◌==◌, if◌then◌else◌,
}
use idena_indexer.Base.Eq.{number_key}
use idena_indexer.Base.Map.{Map, lookup, insert, erase}
use idena_indexer.Node.{Address, Transaction, Node}
use idena_indexer.Delegation.{
  State, Block, KilledInfo, detect_delegation_switch, is_key, detect_delegation_switches,
}
use idena_indexer.Delegation.Switches.{table_of, apply_switches, IsCoherent}
use idena_indexer.Delegation.Loops.{may_switch, detect_delegation_switches-Leads}
use idena_indexer.Delegation.Pools.{
  ChangedAddress, HasSizes, note_pool, note_delegatee, handle_delegator, handle_pool,
  handle_switches, handle_address, handle_addresses, handle_identities, detect_pool_size_updates,
}
use idena_indexer.Delegation.PoolSizes.{affected, detect_pool_size_updates-HasSizes}

abbrev node : Node
node = record {
  Decimal = ℕ;
  tx_hash = λ tx. tx.account_nonce;
  sender = λ tx. tx.account_nonce + 1;
  tx_size = λ tx. 0;
  address_hex = λ a. "";
  hash_hex = λ h. "";
  hex_to_address = λ s. 3;
  hex_to_hash = λ s. 0;
  tx_type_name = λ t. "";
  to_float = λ o. 0;
}

-- Before the block 2 and 3 delegate to 9; the pointers of a state lie at `base` and above.
abbrev before : State
before = record {
  delegatee = λ a.
      if a == 2
      then some (record { location = 102; address = 9 })
      else if a == 3
      then some (record { location = 103; address = 9 })
      else none;
  birthday = λ a. 1;
  delegations = 1 ∷ [];
  is_pool = λ a. a == 9;
  pool_size = λ a. if a == 9 then 2 else 0;
}

-- After it 1 delegates to 8, and 3 to 9 as before.
abbrev after : State
after = record {
  delegatee = λ a.
      if a == 1
      then some (record { location = 201; address = 8 })
      else if a == 3
      then some (record { location = 203; address = 9 })
      else none;
  birthday = λ a. 1;
  delegations = [];
  is_pool = λ a. a == 9 || a == 8;
  pool_size = λ a. if a == 9 then 1 else if a == 8 then 1 else 0;
}

abbrev killed : Map Address KilledInfo
killed = (2, record { reason = 1; tx_hash = 0 }) ∷ []

abbrev block : Block
block = record { height = 50; identity_update = true }

-- A transaction of 3, which asks for the delegatee that it has already.
abbrev again : Transaction
again = record {
  tx_type = 18;
  to = some 9;
  epoch = 1;
  payload = [];
  amount = none;
  tips = none;
  max_fee = none;
  account_nonce = 2;
}

coherent : IsCoherent before after
coherent a p p' e e' l = ground arith

gone : (a : Address) → is_key a killed ≡ true → after.delegatee a ≡ none
unfolding is_key lookup
gone a h = ground arith

kept :
    (a : Address)
    → may_switch node before killed (again ∷ []) a ≡ false
    → table_of after a ≡ table_of before a
unfolding is_key lookup
kept a h = ground arith

detect_delegation_switches-Leads_example :
    apply_switches
      ((detect_delegation_switches node 18 (some block) before after killed (again ∷ [])).0)
      (table_of before)
      1
    ≡ table_of after 1
detect_delegation_switches-Leads_example =
    detect_delegation_switches-Leads node 18 block before after killed (again ∷ []) refl coherent
      gone kept 1

-- The delegation of 3 has not changed, and is reported as a switch, as the two pointers differ.
unchanged_is_reported :
    detect_delegation_switch 3 before after
    ≡ some (record {
      delegator = 3;
      delegatee = some (record { location = 203; address = 9 });
      birth_epoch = some 1;
    })
unfolding detect_delegation_switch
unchanged_is_reported = refl

abbrev changed : List ChangedAddress
changed = record { address = "0x03"; state_changes = 1 } ∷ []

detect_pool_size_updates-HasSizes_example :
    HasSizes after
      (affected node [] changed [] before after)
      (detect_pool_size_updates node [] changed [] before after)
detect_pool_size_updates-HasSizes_example =
    detect_pool_size_updates-HasSizes node [] changed [] before after

sizes_of_changed : detect_pool_size_updates node [] changed [] before after ≡ (9, 1) ∷ []
unfolding detect_pool_size_updates handle_switches handle_addresses handle_identities handle_address
    handle_pool handle_delegator note_delegatee note_pool is_key lookup insert erase
sizes_of_changed = refl
