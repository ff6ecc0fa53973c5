-- ===== src/Online/Counts.antt =====
-- online.go: the count of what is online, the validators and the identities.
use idena_indexer.Base.{
  ℕ, ◌+◌, ◌%◌, ◌^◌, ltb, Option-cases, inl, inr, ◌≡◌, refl, ap, ◌∙◌, sym, true, false, none, some,
  List, [], ◌∷◌, ◌++◌, append_assoc, append-nil, arith, if◌then◌else◌,
}
use idena_indexer.Base.Eq.{number_key, string_key}
use idena_indexer.Node.{Address}
use idena_indexer.Online.{
  NodeIdentity, AppState, Validator, Progress, build_validator, convert_address, visit, iterate,
  no_progress,
}
use idena_indexer.Online.Visit.{visit-online_count, visit-validators, visit-online_validators}

-- How many vote by an address: the pool's size, as a `uint32`, for a pool, and otherwise one for a
-- validated identity that is not delegated.
abbrev pub voting_power : AppState → Address → NodeIdentity → ℕ
voting_power st a i =
    if st.is_pool a
    then st.pool_size a % 2 ^ 32
    else elim i.delegatee [ none ↦ if i.newbie_or_better then 1 else 0 | some d ↦ 0 ]

-- The validators of a list of identities, in their order: those by whom anyone votes.
unfoldable pub validators_of : AppState → List (Address × NodeIdentity) → List Validator
validators_of st [] = []
validators_of st ((a, i) ∷ is) =
    let rest = validators_of st is in
    if ltb 0 (voting_power st a i)
    then record {
      address = convert_address st a;
      size = voting_power st a i;
      online = st.is_online_identity a;
      last_activity = st.activity a;
      penalty = i.penalty;
      penalty_seconds = i.penalty_seconds;
      is_pool = st.is_pool a;
    }
      ∷ rest
    else rest

unfoldable built_of : AppState → List (Address × NodeIdentity) → List Validator
built_of st [] = []
built_of st ((a, i) ∷ is) = elim (build_validator st a i) [
  | none ↦ built_of st is
  | some v ↦ v ∷ built_of st is
]

built_of_lem :
    (st : AppState) (is : List (Address × NodeIdentity)) → built_of st is ≡ validators_of st is
unfolding built_of validators_of build_validator
built_of_lem st [] = refl
built_of_lem st ((a, i) ∷ is) = elim (Option-cases i.delegatee) [
  | inl e ↦ ground (arith, e, built_of_lem st is)
  | inr (d, e) ↦ ground (arith, e, built_of_lem st is)
]

-- Those that are online.
unfoldable pub online_of : List Validator → List Validator
online_of [] = []
online_of (v ∷ vs) = let rest = online_of vs in if v.online then v ∷ rest else rest

-- Each online address counts for the size of its pool, or for one.
unfoldable pub online_total : AppState → List (Address × NodeIdentity) → ℕ
online_total st [] = 0
online_total st ((a, i) ∷ is) =
    (if st.is_online_identity a then (if st.is_pool a then st.pool_size a else 1) else 0)
    + online_total st is

module _ (st : AppState) where
  online_count-iterate :
      (is : List (Address × NodeIdentity)) (p : Progress)
      → (iterate st is p).online_count ≡ p.online_count + online_total st is
  unfolding iterate online_total
  online_count-iterate [] p = omega arith
  online_count-iterate ((a, i) ∷ is) p =
      omega (arith, online_count-iterate is (visit st a i p), visit-online_count st a i p)

  validators-iterate :
      (is : List (Address × NodeIdentity)) (p : Progress)
      → (iterate st is p).validators ≡ p.validators ++ built_of st is
  unfolding iterate built_of
  validators-iterate [] p = sym (append-nil p.validators)
  validators-iterate ((a, i) ∷ is) p =
      validators-iterate is (visit st a i p)
      ∙ ap (λ vs. vs ++ built_of st is) (visit-validators st a i p)
      ∙ elim (build_validator st a i)
          as (λ o.
            (elim o [ none ↦ p.validators | some v ↦ p.validators ++ v ∷ [] ]) ++ built_of st is
            ≡ p.validators ++ (elim o [ none ↦ built_of st is | some v ↦ v ∷ built_of st is ])) [
              | none ↦ refl
              | some v ↦ append_assoc p.validators (v ∷ []) (built_of st is)
            ]

  online_validators-iterate :
      (is : List (Address × NodeIdentity)) (p : Progress)
      → (iterate st is p).online_validators ≡ p.online_validators ++ online_of (built_of st is)
  unfolding iterate built_of online_of
  online_validators-iterate [] p = sym (append-nil p.online_validators)
  online_validators-iterate ((a, i) ∷ is) p =
      online_validators-iterate is (visit st a i p)
      ∙ ap (λ vs. vs ++ online_of (built_of st is)) (visit-online_validators st a i p)
      ∙ elim (build_validator st a i)
          as (λ o.
            (elim o [
              | none ↦ p.online_validators
              | some v ↦ if v.online then p.online_validators ++ v ∷ [] else p.online_validators
            ])
              ++ online_of (built_of st is)
            ≡ p.online_validators
              ++ online_of (elim o [ none ↦ built_of st is | some v ↦ v ∷ built_of st is ])) [
                | none ↦ refl
                | some v ↦
                    elim v.online
                      as (λ b.
                        (if b then p.online_validators ++ v ∷ [] else p.online_validators)
                          ++ online_of (built_of st is)
                        ≡ p.online_validators
                          ++ (if b
                              then v ∷ online_of (built_of st is)
                              else online_of (built_of st is))) [
                                | true ↦
                                    append_assoc p.online_validators (v ∷ [])
                                      (online_of (built_of st is))
                                | false ↦ refl
                              ]
              ]

-- After the iteration the online count is the sum over the identities that are online, of the size of
-- the pool for a pool and of one for another; the validators are, in their order, the identities by whom
-- anyone votes: a pool with its size, and a validated identity that is neither a pool nor delegated with
-- one; and the online validators are those of the validators that are online.
pub iterate-counts :
    (st : AppState) (is : List (Address × NodeIdentity))
    → ((iterate st is no_progress).online_count ≡ online_total st is)
      × ((iterate st is no_progress).validators ≡ validators_of st is)
      × ((iterate st is no_progress).online_validators
          ≡ online_of (iterate st is no_progress).validators)
iterate-counts st is = (
  omega (arith, online_count-iterate st is no_progress),
  validators-iterate st is no_progress ∙ built_of_lem st is,
  online_validators-iterate st is no_progress
      ∙ ap online_of (sym (validators-iterate st is no_progress)),
)
