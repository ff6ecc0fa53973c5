-- ===== src/Delegation/PoolSizes.antt =====
-- delegation.go, `detectPoolSizeUpdates`: its three loops, and the function as a whole.
use Prim.Native.String.{String}
use idena_indexer.Base.{
  ◌≡◌, refl, Bool, false, ◌||◌, List, [], ◌∷◌, arith, Bool-cases, inl, inr, ◌==◌,
}
use idena_indexer.Base.Eq.{number_key}
use idena_indexer.Base.Map.{lookup}
use idena_indexer.Node.{Address, Node}
use idena_indexer.Delegation.{State, DelegationSwitch}
use idena_indexer.Delegation.Pools.{
  ChangedAddress, Sizes, handle_switches, handle_addresses, handle_identities,
  detect_pool_size_updates, HasSizes, HasSizes-as, handle_delegator-HasSizes,
  handle_address-HasSizes, is_pool_of, any_of, by_switch, by_address, by_identity,
}

handle_switches-HasSizes :
    (prev new : State) (ss : List DelegationSwitch) (seen : Address → Bool) (m : Sizes)
    → HasSizes new seen m
    → HasSizes new (λ a. any_of (by_switch prev new a) ss || seen a) (handle_switches prev new ss m)
unfolding handle_switches
handle_switches-HasSizes prev new [] seen m h = h
handle_switches-HasSizes prev new (s ∷ ss) seen m h =
    HasSizes-as new (λ a. any_of (by_switch prev new a) ss || (by_switch prev new a s || seen a)) _
      _ (λ a. ground arith)
      (handle_switches-HasSizes prev new ss _ _
        (handle_delegator-HasSizes prev new s.delegator seen m h))

handle_addresses-HasSizes :
    (n : Node) (prev new : State) (xs : List ChangedAddress) (seen : Address → Bool) (m : Sizes)
    → HasSizes new seen m
    → HasSizes new
        (λ a. any_of (by_address n prev new a) xs || seen a)
        (handle_addresses n prev new xs m)
unfolding handle_addresses
handle_addresses-HasSizes n prev new [] seen m h = h
handle_addresses-HasSizes n prev new (x ∷ xs) seen m h = elim (Bool-cases (x.state_changes == 0)) [
  | inl e ↦
      HasSizes-as new (λ a. any_of (by_address n prev new a) xs || seen a) _ _ (λ a. ground arith)
        (rw (e, handle_addresses) (handle_addresses-HasSizes n prev new xs seen m h))
  | inr e ↦
      HasSizes-as new
        (λ a.
          any_of (by_address n prev new a) xs
          || (is_pool_of prev new (n.hex_to_address x.address) a || seen a))
        _ _ (λ a. ground arith)
        (rw (e, handle_addresses)
          (handle_addresses-HasSizes n prev new xs _ _
            (handle_address-HasSizes prev new (n.hex_to_address x.address) seen m h)))
]

handle_identities-HasSizes :
    (n : Node) (prev new : State) (xs : List String) (seen : Address → Bool) (m : Sizes)
    → HasSizes new seen m
    → HasSizes new
        (λ a. any_of (by_identity n prev new a) xs || seen a)
        (handle_identities n prev new xs m)
unfolding handle_identities
handle_identities-HasSizes n prev new [] seen m h = h
handle_identities-HasSizes n prev new (x ∷ xs) seen m h =
    HasSizes-as new
      (λ a. any_of (by_identity n prev new a) xs || (by_identity n prev new a x || seen a)) _ _
      (λ a. ground arith)
      (handle_identities-HasSizes n prev new xs _ _
        (handle_address-HasSizes prev new (n.hex_to_address x) seen m h))

-- An address that a switch, a changed address or an epoch identity makes a pool to be looked at.
abbrev pub affected :
    Node
    → List DelegationSwitch
    → List ChangedAddress
    → List String
    → State
    → State
    → Address
    → Bool
affected n switches addresses identities prev new a =
    any_of (by_identity n prev new a) identities
    || (any_of (by_address n prev new a) addresses || any_of (by_switch prev new a) switches)

nothing_noted : (new : State) → HasSizes new (λ a. false) []
unfolding lookup
nothing_noted new = record { is_map = tt; sizes = λ a. refl }

early_return :
    (n : Node) (switches : List DelegationSwitch) (addresses : List ChangedAddress)
    (identities : List String) (prev new : State)
    → detect_pool_size_updates n switches addresses identities prev new
      ≡ handle_identities n prev new identities
          (handle_addresses n prev new addresses (handle_switches prev new switches []))
unfolding detect_pool_size_updates handle_identities handle_addresses handle_switches
early_return n [] [] [] prev new = refl
early_return n [] [] (x ∷ xs) prev new = refl
early_return n [] (y ∷ ys) identities prev new = refl
early_return n (s ∷ ss) addresses identities prev new = refl

-- The updates hold the new size of each affected pool once, and nothing else: of the delegatees, before
-- and after the block, of everyone with a switch, a change of state or an epoch identity, and, if they
-- are pools before or after the block, of those with a change of state or an epoch identity themselves.
pub detect_pool_size_updates-HasSizes :
    (n : Node) (switches : List DelegationSwitch) (addresses : List ChangedAddress)
    (identities : List String) (prev new : State)
    → HasSizes new
        (affected n switches addresses identities prev new)
        (detect_pool_size_updates n switches addresses identities prev new)
detect_pool_size_updates-HasSizes n switches addresses identities prev new =
    rw (early_return n switches addresses identities prev new) (
      HasSizes-as new
        (λ a.
          any_of (by_identity n prev new a) identities
          || (any_of (by_address n prev new a) addresses
              || (any_of (by_switch prev new a) switches || false)))
        _ _ (λ a. ground arith)
        (handle_identities-HasSizes n prev new identities _ _ (
          handle_addresses-HasSizes n prev new addresses _ _
            (handle_switches-HasSizes prev new switches (λ a. false) [] (nothing_noted new)))))
