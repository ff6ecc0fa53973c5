-- ===== src/Online/Pools.antt =====
-- online.go: the stakes of the pools.
use Prim.Native.String.{String}
use idena_indexer.Base.{
  ◌≡◌, refl, ap, ◌∙◌, sym, subst, Bool, true, false, ◌||◌, Option, none, some, List, [], ◌∷◌, arith,
  if◌then◌else◌, Bool-cases, Option-cases, inl, inr,
}
use idena_indexer.Base.Int.{ℤ, pos, ◌+ℤ◌, +ℤ_assoc}
use idena_indexer.Base.Eq.{◌==◌, number_key, string_key}
use idena_indexer.Base.Map.{Map, lookup, lookup-insert, lookup-insert_self}
use idena_indexer.Base.SumBy.{zero_+ℤ, +ℤ_zero}
use idena_indexer.Node.{Address}
use idena_indexer.Online.{
  NodeIdentity, AppState, Pool, Progress, add_stake, new_pool, add_to_pool, visit, iterate,
  no_progress, get_pool, key,
}
use idena_indexer.Online.Visit.{delegated_to, visit-pools}

-- The stake of an identity where it is delegated to `d`.
abbrev pub delegated_stake : Address → NodeIdentity → Option ℤ
delegated_stake d i = elim i.delegatee [ none ↦ none | some e ↦ if e == d then i.stake else none ]

-- The keys of addresses differ as the addresses do.
abbrev pub HasKeys : AppState → Type 0
HasKeys st = (a b : Address) → (key st a == key st b) ≡ (a == b)

-- A pool with the stake of a delegator, if there is one.
abbrev joined : AppState → Address → NodeIdentity → Option ℤ → Option Pool → Option Pool
joined st d i none pool = pool
joined st d i (some s) pool = some (
    add_stake i.newbie_or_better s (elim pool [ none ↦ new_pool (st.get_identity d) | some q ↦ q ]))

module _ (st : AppState) (d : Address) (i : NodeIdentity) (m : Map String Pool) where
  own_pool :
      (o : Option ℤ)
      → i.stake ≡ o
      → lookup (key st d) (add_to_pool st d i m) ≡ joined st d i o (lookup (key st d) m)
  unfolding add_to_pool
  own_pool none e = rw (e, add_to_pool) refl
  own_pool (some s) e = rw (e, add_to_pool) (lookup-insert_self (key st d) _ m)

  other_pool :
      (e : Address)
      → (key st e == key st d) ≡ false
      → lookup (key st d) (add_to_pool st e i m) ≡ lookup (key st d) m
  unfolding add_to_pool
  other_pool e h = elim (Option-cases i.stake) [
    | inl q ↦ rw (q, add_to_pool) refl
    | inr (s, q) ↦ rw (q, add_to_pool) (lookup-insert (key st e) (key st d) _ m ∙ rw h refl)
  ]

  add_to_pool-joined :
      HasKeys st
      → (e : Address)
      → lookup (key st d) (add_to_pool st e i m)
        ≡ joined st d i (if e == d then i.stake else none) (lookup (key st d) m)
  add_to_pool-joined keys e = elim (Bool-cases (e == d)) [
    | inl same ↦
        let equal : d ≡ e = ground arith in
        rw same (
          subst
            (λ x.
              lookup (key st d) (add_to_pool st x i m)
              ≡ joined st d i i.stake (lookup (key st d) m))
            equal (own_pool i.stake refl))
    | inr other ↦ rw other (other_pool e (keys e d ∙ other))
  ]

  delegated_to-joined :
      HasKeys st
      → (a : Address) (p : Progress)
      → lookup (key st d) (delegated_to st a i p m)
        ≡ joined st d i (delegated_stake d i) (lookup (key st d) m)
  delegated_to-joined keys a p =
      elim i.delegatee
        as (λ o.
          lookup (key st d) (elim o [ none ↦ m | some e ↦ add_to_pool st e i m ])
          ≡ joined st d i (elim o [ none ↦ none | some e ↦ if e == d then i.stake else none ])
              (lookup (key st d) m)) [ none ↦ refl | some e ↦ add_to_pool-joined keys e ]

-- What a delegator's stake counts in the sum of all stakes and in that of validated identities.
abbrev stake_part : Option ℤ → ℤ
stake_part none = pos 0
stake_part (some s) = s

abbrev validated_part : Bool → Option ℤ → ℤ
validated_part b none = pos 0
validated_part b (some s) = if b then s else pos 0

abbrev is_some : Option ℤ → Bool
is_some none = false
is_some (some s) = true

-- The stakes of all and of the validated identities that are delegated to `d`, and whether there is one.
unfoldable pub delegated_total : Address → List (Address × NodeIdentity) → ℤ
delegated_total d [] = pos 0
delegated_total d ((a, i) ∷ is) = stake_part (delegated_stake d i) +ℤ delegated_total d is

unfoldable pub validated_total : Address → List (Address × NodeIdentity) → ℤ
validated_total d [] = pos 0
validated_total d ((a, i) ∷ is) =
    validated_part i.newbie_or_better (delegated_stake d i) +ℤ validated_total d is

unfoldable pub has_delegator : Address → List (Address × NodeIdentity) → Bool
has_delegator d [] = false
has_delegator d ((a, i) ∷ is) = is_some (delegated_stake d i) || has_delegator d is

abbrev pub own_stake : NodeIdentity → ℤ
own_stake i = stake_part i.stake

abbrev pub own_validated_stake : NodeIdentity → ℤ
own_validated_stake i = validated_part i.newbie_or_better i.stake

abbrev pub pool_with : ℤ → ℤ → Pool
pool_with total validated = record { total_stake = total; total_validated_stake = validated }

-- The pool `o` is `pool`, or one that begins with its own identity `own`, and with further stakes.
abbrev IsPoolWith : NodeIdentity → ℤ → ℤ → Bool → Option Pool → Option Pool → Type 0
IsPoolWith own t v has (some q) o =
    o ≡ some (pool_with (q.total_stake +ℤ t) (q.total_validated_stake +ℤ v))
IsPoolWith own t v has none o =
    o ≡ (if has then some (pool_with (own_stake own +ℤ t) (own_validated_stake own +ℤ v)) else none)

when-+ℤ :
    (b : Bool) (x s v : ℤ) → (if b then x +ℤ s else x) +ℤ v ≡ x +ℤ (validated_part b (some s) +ℤ v)
when-+ℤ true x s v = +ℤ_assoc x s v
when-+ℤ false x s v = sym (ap (λ y. x +ℤ y) (zero_+ℤ v))

new_pool_lem : (i : NodeIdentity) → new_pool i ≡ pool_with (own_stake i) (own_validated_stake i)
unfolding new_pool add_stake
new_pool_lem i =
    let b = i.newbie_or_better in
    let empty = pool_with (pos 0) (pos 0) in
    elim i.stake
      as (λ o.
        (elim o [ none ↦ empty | some s ↦ add_stake b s empty ])
        ≡ pool_with (stake_part o) (validated_part b o)) [
          | none ↦ refl
          | some s ↦ elim (Bool-cases b) [
            | inl e ↦ rw (e, zero_+ℤ s) refl
            | inr e ↦ rw (e, zero_+ℤ s) refl
          ]
        ]

add_stake_lem :
    (b : Bool) (s t v : ℤ) (q : Pool)
    → pool_with ((add_stake b s q).total_stake +ℤ t) ((add_stake b s q).total_validated_stake +ℤ v)
      ≡ pool_with
          (q.total_stake +ℤ (s +ℤ t))
          (q.total_validated_stake +ℤ (validated_part b (some s) +ℤ v))
unfolding add_stake
add_stake_lem b s t v q =
    rw (+ℤ_assoc q.total_stake s t, when-+ℤ b q.total_validated_stake s v) refl

joined-IsPoolWith :
    (st : AppState) (d : Address) (i : NodeIdentity) (s : Option ℤ) (t v : ℤ) (has : Bool)
    (pool o : Option Pool)
    → IsPoolWith (st.get_identity d) t v has (joined st d i s pool) o
    → IsPoolWith
        (st.get_identity d)
        (stake_part s +ℤ t)
        (validated_part i.newbie_or_better s +ℤ v)
        (is_some s || has)
        pool
        o
joined-IsPoolWith st d i none t v has none o h = rw (zero_+ℤ t, zero_+ℤ v) h
joined-IsPoolWith st d i none t v has (some q) o h = rw (zero_+ℤ t, zero_+ℤ v) h
joined-IsPoolWith st d i (some s) t v has none o h =
    h
    ∙ ap some (
        add_stake_lem i.newbie_or_better s t v (new_pool (st.get_identity d))
        ∙ ap
            (λ q.
              pool_with (q.total_stake +ℤ (s +ℤ t))
                (q.total_validated_stake +ℤ (validated_part i.newbie_or_better (some s) +ℤ v)))
            (new_pool_lem (st.get_identity d)))
joined-IsPoolWith st d i (some s) t v has (some q) o h =
    h ∙ ap some (add_stake_lem i.newbie_or_better s t v q)

abbrev IsPoolOf :
    AppState → Address → List (Address × NodeIdentity) → Option Pool → Option Pool → Type 0
IsPoolOf st d is =
    IsPoolWith (st.get_identity d) (delegated_total d is) (validated_total d is)
      (has_delegator d is)

iterate-nil : (st : AppState) (d : Address) (pool : Option Pool) → IsPoolOf st d [] pool pool
unfolding delegated_total validated_total has_delegator
iterate-nil st d none = refl
iterate-nil st d (some q) = rw (+ℤ_zero q.total_stake, +ℤ_zero q.total_validated_stake) refl

iterate-IsPoolOf :
    (st : AppState)
    → HasKeys st
    → (d : Address) (is : List (Address × NodeIdentity)) (p : Progress)
    → IsPoolOf st d is (get_pool (key st d) p) (get_pool (key st d) (iterate st is p))
unfolding iterate delegated_total validated_total has_delegator
iterate-IsPoolOf st keys d [] p = iterate-nil st d (get_pool (key st d) p)
iterate-IsPoolOf st keys d ((a, i) ∷ is) p =
    let step : get_pool (key st d) (visit st a i p)
        ≡ joined st d i (delegated_stake d i) (get_pool (key st d) p) =
      ap (λ m. lookup (key st d) m) (visit-pools st a i p)
      ∙ delegated_to-joined st d i p.pools_by_address keys a p in
    let last = get_pool (key st d) (iterate st is (visit st a i p)) in
    joined-IsPoolWith st d i (delegated_stake d i) (delegated_total d is) (validated_total d is)
      (has_delegator d is) (get_pool (key st d) p) last
      (subst (λ q. IsPoolOf st d is q last) step (iterate-IsPoolOf st keys d is (visit st a i p)))

-- After the iteration, where different addresses have different keys, the cache has a pool for an
-- address exactly if some identity with a stake is delegated to it, and the pool's stakes are the stake
-- of its own identity and the sum of those of its delegators, all of them and the validated ones.
pub iterate-pools :
    (st : AppState)
    → HasKeys st
    → (is : List (Address × NodeIdentity)) (d : Address)
    → get_pool (key st d) (iterate st is no_progress) ≡ (
        if has_delegator d is
        then some (
            pool_with
              (own_stake (st.get_identity d) +ℤ delegated_total d is)
              (own_validated_stake (st.get_identity d) +ℤ validated_total d is))
        else none)
unfolding lookup
iterate-pools st keys is d = iterate-IsPoolOf st keys d is no_progress
