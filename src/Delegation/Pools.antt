-- ===== src/Delegation/Pools.antt =====
-- delegation.go, `detectPoolSizeUpdates`: the sizes of the pools that a block may have changed.
use Prim.Native.String.{String}
use idena_indexer.Base.{
  ℕ, ◌≡◌, sym, ap, ◌∙◌, Bool, false, ◌||◌, ◌&&◌, not, Option, none, some, List, [], ◌∷◌, arith,
  Bool-cases, inl, inr, ◌==◌, ==_iff, if◌then◌else◌,
}
use idena_indexer.Base.Eq.{number_key}
use idena_indexer.Base.Map.{Map, IsMap, lookup, insert, lookup-insert, insert-IsMap}
use idena_indexer.Node.{Address, Node}
use idena_indexer.Delegation.{Pointer, State, DelegationSwitch, is_key}

-- `db.Address`, with the number of its state changes.
pub record ChangedAddress : Type 0 where
  pub address : String
  pub state_changes : ℕ

-- `poolSizeByAddress`
abbrev pub Sizes : Type 0
Sizes = Map Address ℕ

unfoldable pub note_pool : State → Address → Sizes → Sizes
unfolding is_key
note_pool new a m = if is_key a m then m else insert a (new.pool_size a) m

unfoldable pub note_delegatee : State → Option Pointer → Sizes → Sizes
unfolding note_pool
note_delegatee new none m = m
note_delegatee new (some p) m = note_pool new p.address m

unfoldable pub handle_delegator : State → State → Address → Sizes → Sizes
unfolding note_delegatee
handle_delegator prev new a m =
    note_delegatee new (new.delegatee a) (note_delegatee new (prev.delegatee a) m)

unfoldable pub handle_pool : State → State → Address → Sizes → Sizes
unfolding note_pool
handle_pool prev new a m = if prev.is_pool a || new.is_pool a then note_pool new a m else m

unfoldable pub handle_switches : State → State → List DelegationSwitch → Sizes → Sizes
unfolding handle_delegator
handle_switches prev new [] m = m
handle_switches prev new (s ∷ ss) m =
    handle_switches prev new ss (handle_delegator prev new s.delegator m)

unfoldable pub handle_address : State → State → Address → Sizes → Sizes
unfolding handle_pool handle_delegator
handle_address prev new a m = handle_delegator prev new a (handle_pool prev new a m)

unfoldable pub handle_addresses : Node → State → State → List ChangedAddress → Sizes → Sizes
unfolding handle_address
handle_addresses n prev new [] m = m
handle_addresses n prev new (x ∷ xs) m =
    handle_addresses n prev new xs
      (if x.state_changes == 0 then m else handle_address prev new (n.hex_to_address x.address) m)

-- The epoch identities, by their addresses.
unfoldable pub handle_identities : Node → State → State → List String → Sizes → Sizes
unfolding handle_address
handle_identities n prev new [] m = m
handle_identities n prev new (x ∷ xs) m =
    handle_identities n prev new xs (handle_address prev new (n.hex_to_address x) m)

-- The rows of the result are the entries of the map; nil is the empty list.
unfoldable pub detect_pool_size_updates :
    Node → List DelegationSwitch → List ChangedAddress → List String → State → State → Sizes
unfolding handle_switches handle_addresses handle_identities
detect_pool_size_updates n [] [] [] prev new = []
detect_pool_size_updates n switches addresses identities prev new =
    handle_identities n prev new identities
      (handle_addresses n prev new addresses (handle_switches prev new switches []))

-- The map has the new sizes of the pools that `seen` picks.
pub record HasSizes (new : State) (seen : Address → Bool) (m : Sizes) : Type 0 where
  pub is_map : IsMap m
  pub sizes : (a : Address) → lookup a m ≡ (if seen a then some (new.pool_size a) else none)

note_pool-IsMap : (new : State) (d : Address) (m : Sizes) → IsMap m → IsMap (note_pool new d m)
unfolding note_pool is_key
note_pool-IsMap new d m h = ground (arith, insert-IsMap d (new.pool_size d) m h)

lookup-note_pool :
    (new : State) (d a : Address) (m : Sizes)
    → lookup a (note_pool new d m)
      ≡ (if is_key d m then lookup a m else if d == a then some (new.pool_size d) else lookup a m)
unfolding note_pool
lookup-note_pool new d a m = ground (arith, lookup-insert d a (new.pool_size d) m)

note_pool-HasSizes :
    (new : State) (d : Address) (seen : Address → Bool) (m : Sizes)
    → HasSizes new seen m
    → HasSizes new (λ a. a == d || seen a) (note_pool new d m)
unfolding is_key
note_pool-HasSizes new d seen m h = record {
  is_map = note_pool-IsMap new d m h.is_map;
  sizes = λ a. elim (Bool-cases (a == d)) [
    | inl e ↦
        let same : a ≡ d = (==_iff a d).0 e in
        ground (
          arith,
          lookup-note_pool new d a m,
          h.sizes a,
          h.sizes d,
          ap seen same,
          ap new.pool_size same,
          (==_iff d a).1 (sym same),
        )
    | inr e ↦ ground (arith, lookup-note_pool new d a m, h.sizes a, ==_iff d a, ==_iff a d)
  ];
}

pub HasSizes-as :
    (new : State) (seen seen' : Address → Bool) (m : Sizes)
    → ((a : Address) → seen a ≡ seen' a)
    → HasSizes new seen m
    → HasSizes new seen' m
HasSizes-as new seen seen' m same h = record {
  is_map = h.is_map;
  sizes = λ a. h.sizes a ∙ ap (λ b. if b then some (new.pool_size a) else none) (same a);
}

-- The pointer, if it is not nil, points to the address.
abbrev pub points_to : Option Pointer → Address → Bool
points_to none a = false
points_to (some p) a = a == p.address

-- The address is the delegatee of another, before or after the block.
abbrev pub is_delegatee_of : State → State → Address → Address → Bool
is_delegatee_of prev new d a = points_to (prev.delegatee d) a || points_to (new.delegatee d) a

-- A pool of its own, before or after the block, or the delegatee of another.
abbrev pub is_pool_of : State → State → Address → Address → Bool
is_pool_of prev new d a =
    ((prev.is_pool d || new.is_pool d) && a == d) || is_delegatee_of prev new d a

note_delegatee-HasSizes :
    (new : State) (o : Option Pointer) (seen : Address → Bool) (m : Sizes)
    → HasSizes new seen m
    → HasSizes new (λ a. points_to o a || seen a) (note_delegatee new o m)
unfolding note_delegatee
note_delegatee-HasSizes new none seen m h = h
note_delegatee-HasSizes new (some p) seen m h = note_pool-HasSizes new p.address seen m h

pub handle_delegator-HasSizes :
    (prev new : State) (d : Address) (seen : Address → Bool) (m : Sizes)
    → HasSizes new seen m
    → HasSizes new (λ a. is_delegatee_of prev new d a || seen a) (handle_delegator prev new d m)
unfolding handle_delegator
handle_delegator-HasSizes prev new d seen m h =
    HasSizes-as new
      (λ a. points_to (new.delegatee d) a || (points_to (prev.delegatee d) a || seen a)) _ _
      (λ a. ground arith)
      (note_delegatee-HasSizes new (new.delegatee d) _ _
        (note_delegatee-HasSizes new (prev.delegatee d) seen m h))

pub handle_address-HasSizes :
    (prev new : State) (d : Address) (seen : Address → Bool) (m : Sizes)
    → HasSizes new seen m
    → HasSizes new (λ a. is_pool_of prev new d a || seen a) (handle_address prev new d m)
unfolding handle_address handle_pool
handle_address-HasSizes prev new d seen m h = elim (Bool-cases (prev.is_pool d || new.is_pool d)) [
  | inl e ↦
      HasSizes-as new (λ a. is_delegatee_of prev new d a || (a == d || seen a)) _ _
        (λ a. ground arith)
        (rw (e, handle_address, handle_pool)
          (handle_delegator-HasSizes prev new d _ _ (note_pool-HasSizes new d seen m h)))
  | inr e ↦
      HasSizes-as new (λ a. is_delegatee_of prev new d a || seen a) _ _ (λ a. ground arith)
        (rw (e, handle_address, handle_pool) (handle_delegator-HasSizes prev new d seen m h))
]

abbrev pub any_of {ℓ} : {A : Type ℓ} → (A → Bool) → List A → Bool
any_of p [] = false
any_of p (x ∷ xs) = let rest = any_of p xs in p x || rest

-- What a switch, a changed address and an epoch identity say of an address.
abbrev pub by_switch : State → State → Address → DelegationSwitch → Bool
by_switch prev new a s = is_delegatee_of prev new s.delegator a

abbrev pub by_address : Node → State → State → Address → ChangedAddress → Bool
by_address n prev new a x =
    not (x.state_changes == 0) && is_pool_of prev new (n.hex_to_address x.address) a

abbrev pub by_identity : Node → State → State → Address → String → Bool
by_identity n prev new a x = is_pool_of prev new (n.hex_to_address x) a
