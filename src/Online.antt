-- ===== src/Online.antt =====
-- core/holder/online/online.go: the identities that can be validators, the validators and the pools, as
-- the updater reads them off the state of the node.
pub mod Sorted
mod Visit
pub mod Pools
pub mod Counts
pub mod Identities
mod Tests
use Prim.Native.String.{String}
use idena_indexer.Base.{
  ℕ, ◌+◌, ◌%◌, ◌^◌, Bool, true, false, ◌&&◌, ◌||◌, not, Option, none, some, List, [], ◌∷◌, ◌++◌,
  ◌==◌, if◌then◌else◌,
}
use idena_indexer.Base.Int.{ℤ, pos, ◌+ℤ◌}
use idena_indexer.Base.Eq.{number_key, string_key}
use idena_indexer.Base.Map.{Map, lookup, insert}
use idena_indexer.Node.{Address}

-- `state.Identity` of idena-go, as far as the updater reads it. A penalty stands as it is before
-- idena-go makes a decimal of it.
pub record NodeIdentity : Type 0 where
  pub newbie_or_better : Bool
  pub stake : Option ℤ
  pub delegatee : Option Address
  pub penalty : Option ℤ
  pub penalty_seconds : ℕ

-- What the updater asks of idena-go, and `strings.ToLower`.
pub record AppState : Type 0 where
  pub get_identity : Address → NodeIdentity
  pub is_online_identity : Address → Bool
  pub is_pool : Address → Bool
  pub pool_size : Address → ℕ
  pub activity : Address → Option ℕ
  pub hex : Address → String
  pub to_lower : String → String

abbrev pub convert_address : AppState → Address → String
convert_address st a = st.hex a

-- Under what a pool or an identity stands in the maps by address.
abbrev pub key : AppState → Address → String
key st a = st.to_lower (convert_address st a)

-- `Identity` but for its field `Delegatee`.
pub record Facts : Type 0 where
  pub address : String
  pub last_activity : Option ℕ
  pub penalty : Option ℤ
  pub penalty_seconds : ℕ
  pub online : Bool

-- An identity's delegatee is nil or an identity.
pub data Identity : Type 0 where
  alone : Facts → Identity
  delegating : Facts → Identity → Identity

pub record Validator : Type 0 where
  pub address : String
  pub size : ℕ
  pub online : Bool
  pub last_activity : Option ℕ
  pub penalty : Option ℤ
  pub penalty_seconds : ℕ
  pub is_pool : Bool

pub record Pool : Type 0 where
  pub total_stake : ℤ
  pub total_validated_stake : ℤ

-- The variables of `update` that the iteration writes.
pub record Progress : Type 0 where
  pub identities : List Identity
  pub identities_per_address : Map String Identity
  pub online_count : ℕ
  pub delegatees_by_address : Map Address Identity
  pub validators : List Validator
  pub online_validators : List Validator
  pub pools_by_address : Map String Pool

abbrev pub facts_of : Identity → Facts
facts_of (alone f) = f
facts_of (delegating f d) = f

abbrev pub with_delegatee : Facts → Option Identity → Identity
with_delegatee f none = alone f
with_delegatee f (some d) = delegating f d

abbrev pub build_identity :
    AppState → Address → NodeIdentity → Option Bool → Option Identity → Identity
build_identity st a i online delegatee =
    with_delegatee
      (record {
        address = convert_address st a;
        last_activity = st.activity a;
        penalty = i.penalty;
        penalty_seconds = i.penalty_seconds;
        online = elim online [ none ↦ st.is_online_identity a | some o ↦ o ];
      })
      delegatee

-- The size is a `uint32`; `none` is a nil pointer.
unfoldable pub build_validator : AppState → Address → NodeIdentity → Option Validator
build_validator st a i =
    let single =
      i.newbie_or_better
      && (elim i.delegatee [ none ↦ true | some d ↦ false ])
      && not (st.is_pool a) in
    let size : ℕ = if single then 1 else if st.is_pool a then st.pool_size a % 2 ^ 32 else 0 in
    if size == 0
    then none
    else some record {
      address = convert_address st a;
      size = size;
      online = st.is_online_identity a;
      last_activity = st.activity a;
      penalty = i.penalty;
      penalty_seconds = i.penalty_seconds;
      is_pool = st.is_pool a;
    }

unfoldable pub add_validator : AppState → Address → NodeIdentity → Progress → Progress
add_validator st a i p = elim (build_validator st a i) [
  | none ↦ p
  | some v ↦ record p {
    validators = p.validators ++ v ∷ [];
    online_validators = if v.online then p.online_validators ++ v ∷ [] else p.online_validators;
  }
]

-- `pool.TotalStake.Add`, `pool.TotalValidatedStake.Add`
unfoldable pub add_stake : Bool → ℤ → Pool → Pool
add_stake validated stake pool = record {
  total_stake = pool.total_stake +ℤ stake;
  total_validated_stake =
      if validated then pool.total_validated_stake +ℤ stake else pool.total_validated_stake;
}

-- A pool begins with the stake of the pool's own identity.
unfoldable pub new_pool : NodeIdentity → Pool
unfolding add_stake
new_pool i =
    let empty : Pool = record { total_stake = pos 0; total_validated_stake = pos 0 } in
    elim i.stake [ none ↦ empty | some s ↦ add_stake i.newbie_or_better s empty ]

unfoldable pub add_to_pool : AppState → Address → NodeIdentity → Map String Pool → Map String Pool
unfolding add_stake new_pool
add_to_pool st d i pools = elim i.stake [
  | none ↦ pools
  | some s ↦
      let pool : Pool = elim (lookup (key st d) pools) [
        | none ↦ new_pool (st.get_identity d)
        | some q ↦ q
      ] in
      insert (key st d) (add_stake i.newbie_or_better s pool) pools
]

-- The delegatee as an identity, and the state with it.
unfoldable pub see_delegatee : AppState → NodeIdentity → Progress → Option Identity × Progress
unfolding add_to_pool
see_delegatee st i p = elim i.delegatee [
  | none ↦ (none, p)
  | some d ↦
      let pools = add_to_pool st d i p.pools_by_address in
      elim (lookup d p.delegatees_by_address) [
        | some x ↦ (some x, record p { pools_by_address = pools })
        | none ↦
            let x = build_identity st d (st.get_identity d) none none in
            (
              some x,
              record p {
                delegatees_by_address = insert d x p.delegatees_by_address;
                pools_by_address = pools;
              },
            )
      ]
]

unfoldable pub count_online : AppState → Address → Progress → Progress
count_online st a p =
    if st.is_online_identity a
    then record p { online_count = p.online_count + (if st.is_pool a then st.pool_size a else 1) }
    else p

unfoldable pub add_identity :
    AppState → Address → NodeIdentity → Option Identity → Progress → Progress
add_identity st a i delegatee p =
    if not i.newbie_or_better
    then p
    else (let x : Identity = elim (lookup a p.delegatees_by_address) [
      | none ↦ build_identity st a i (some (st.is_online_identity a)) delegatee
      | some x ↦ x
    ] in
        record p {
          identities = p.identities ++ x ∷ [];
          identities_per_address =
              insert (st.to_lower (facts_of x).address) x p.identities_per_address;
        })

-- One pass of `IterateOverIdentities`, but for the weights of stakes.
unfoldable pub visit : AppState → Address → NodeIdentity → Progress → Progress
unfolding add_validator see_delegatee count_online add_identity
visit st a i p =
    let (delegatee, p') = see_delegatee st i (add_validator st a i p) in
    add_identity st a i delegatee (count_online st a p')

unfoldable pub iterate : AppState → List (Address × NodeIdentity) → Progress → Progress
unfolding visit
iterate st [] p = p
iterate st ((a, i) ∷ is) p = iterate st is (visit st a i p)

abbrev pub no_progress : Progress
no_progress = record {
  identities = [];
  identities_per_address = [];
  online_count = 0;
  delegatees_by_address = [];
  validators = [];
  online_validators = [];
  pools_by_address = [];
}

-- `GetPool` and `Get` of the cache that `update` fills, at the lower-case form of an address.
abbrev pub get_pool : String → Progress → Option Pool
get_pool k p = lookup k p.pools_by_address

abbrev pub get : String → Progress → Option Identity
get k p = lookup k p.identities_per_address
