-- ===== src/Online/Visit.antt =====
-- online.go, `update`: what one pass of the iteration does to each of the variables.
use Prim.Native.String.{String}
use idena_indexer.Base.{
  ℕ, ◌+◌, ◌≡◌, refl, ap, ◌∙◌, Option, none, some, List, [], ◌∷◌, ◌++◌, arith, if◌then◌else◌,
  Bool-cases, Option-cases, inl, inr,
}
use idena_indexer.Base.Eq.{number_key, string_key}
use idena_indexer.Base.Map.{Map, lookup}
use idena_indexer.Node.{Address}
use idena_indexer.Online.{
  NodeIdentity, AppState, Identity, Validator, Pool, Progress, build_validator, add_validator,
  add_to_pool, see_delegatee, count_online, add_identity, visit,
}

-- A reading `f` of the state that a step's writes do not reach is the same after the step.
module _ {A : Type 0} (f : Progress → A) (st : AppState) (a : Address) (i : NodeIdentity)
    (p : Progress) where
  pub add_validator-keeps :
      ((vs os : List Validator) → f (record p { validators = vs; online_validators = os }) ≡ f p)
      → f (add_validator st a i p) ≡ f p
  unfolding add_validator
  add_validator-keeps h = elim (Option-cases (build_validator st a i)) [
    | inl e ↦ rw (e, add_validator) refl
    | inr (v, e) ↦
        rw (e, add_validator)
          (h (p.validators ++ v ∷ [])
            (if v.online then p.online_validators ++ v ∷ [] else p.online_validators))
  ]

  pub see_delegatee-keeps :
      ((ds : Map Address Identity) (ps : Map String Pool)
        → f (record p { delegatees_by_address = ds; pools_by_address = ps }) ≡ f p)
      → f (see_delegatee st i p).1 ≡ f p
  unfolding see_delegatee
  see_delegatee-keeps h = elim (Option-cases i.delegatee) [
    | inl e ↦ rw (e, see_delegatee) refl
    | inr (d, e) ↦ elim (Option-cases (lookup d p.delegatees_by_address)) [
      | inl q ↦ rw (e, see_delegatee) (rw q (h _ _))
      | inr (x, q) ↦ rw (e, see_delegatee) (rw q (h _ _))
    ]
  ]

  pub count_online-keeps :
      ((n : ℕ) → f (record p { online_count = n }) ≡ f p) → f (count_online st a p) ≡ f p
  unfolding count_online
  count_online-keeps h = elim (Bool-cases (st.is_online_identity a)) [
    | inl e ↦ rw (e, count_online) (h _)
    | inr e ↦ rw (e, count_online) refl
  ]

  pub add_identity-keeps :
      (d : Option Identity)
      → ((is : List Identity) (m : Map String Identity)
          → f (record p { identities = is; identities_per_address = m }) ≡ f p)
      → f (add_identity st a i d p) ≡ f p
  unfolding add_identity
  add_identity-keeps d h = elim (Bool-cases i.newbie_or_better) [
    | inl e ↦ rw (e, add_identity) (h _ _)
    | inr e ↦ rw (e, add_identity) refl
  ]

module _ (st : AppState) (a : Address) (i : NodeIdentity) (p : Progress) where
  see_delegatee-pools :
      (q : Progress)
      → (see_delegatee st i q).1.pools_by_address ≡ elim i.delegatee [
        | none ↦ q.pools_by_address
        | some d ↦ add_to_pool st d i q.pools_by_address
      ]
  unfolding see_delegatee
  see_delegatee-pools q = elim (Option-cases i.delegatee) [
    | inl e ↦ rw (e, see_delegatee) refl
    | inr (d, e) ↦ elim (Option-cases (lookup d q.delegatees_by_address)) [
      | inl h ↦ rw (e, see_delegatee) (rw h refl)
      | inr (x, h) ↦ rw (e, see_delegatee) (rw h refl)
    ]
  ]

  add_validator-validators :
      (add_validator st a i p).validators
      ≡ elim (build_validator st a i) [ none ↦ p.validators | some v ↦ p.validators ++ v ∷ [] ]
  unfolding add_validator
  add_validator-validators = elim (Option-cases (build_validator st a i)) [
    | inl e ↦ rw (e, add_validator) refl
    | inr (v, e) ↦ rw (e, add_validator) refl
  ]

  add_validator-online_validators :
      (add_validator st a i p).online_validators ≡ elim (build_validator st a i) [
        | none ↦ p.online_validators
        | some v ↦ if v.online then p.online_validators ++ v ∷ [] else p.online_validators
      ]
  unfolding add_validator
  add_validator-online_validators = elim (Option-cases (build_validator st a i)) [
    | inl e ↦ rw (e, add_validator) refl
    | inr (v, e) ↦ rw (e, add_validator) refl
  ]

  count_online-adds :
      (q : Progress)
      → (count_online st a q).online_count
        ≡ q.online_count
          + (if st.is_online_identity a then (if st.is_pool a then st.pool_size a else 1) else 0)
  unfolding count_online
  count_online-adds q = elim (Bool-cases (st.is_online_identity a)) [
    | inl e ↦ rw (e, count_online) refl
    | inr e ↦ rw (e, count_online) (omega arith)
  ]

  abbrev validated : Progress
  validated = add_validator st a i p

  abbrev seen : Progress
  seen = (see_delegatee st i (add_validator st a i p)).1

  abbrev counted : Progress
  counted = count_online st a (see_delegatee st i (add_validator st a i p)).1

  abbrev pub delegated_to : Map String Pool → Map String Pool
  delegated_to m = elim i.delegatee [ none ↦ m | some d ↦ add_to_pool st d i m ]

  pub visit-pools : (visit st a i p).pools_by_address ≡ delegated_to p.pools_by_address
  unfolding visit
  visit-pools =
      let f : Progress → Map String Pool = λ q. q.pools_by_address in
      add_identity-keeps f st a i counted (see_delegatee st i validated).0 (λ is m. refl)
      ∙ count_online-keeps f st a i seen (λ n. refl)
      ∙ see_delegatee-pools validated
      ∙ ap delegated_to (add_validator-keeps f st a i p (λ vs os. refl))

  -- What an online identity adds to the count.
  abbrev pub online_weight : ℕ
  online_weight =
      if st.is_online_identity a then (if st.is_pool a then st.pool_size a else 1) else 0

  pub visit-online_count : (visit st a i p).online_count ≡ p.online_count + online_weight
  unfolding visit
  visit-online_count =
      let f : Progress → ℕ = λ q. q.online_count in
      add_identity-keeps f st a i counted (see_delegatee st i validated).0 (λ is m. refl)
      ∙ count_online-adds seen
      ∙ ap (λ n. n + online_weight)
          (see_delegatee-keeps f st a i validated (λ ds ps. refl)
            ∙ add_validator-keeps f st a i p (λ vs os. refl))

  pub visit-validators :
      (visit st a i p).validators
      ≡ elim (build_validator st a i) [ none ↦ p.validators | some v ↦ p.validators ++ v ∷ [] ]
  unfolding visit
  visit-validators =
      let f : Progress → List Validator = λ q. q.validators in
      add_identity-keeps f st a i counted (see_delegatee st i validated).0 (λ is m. refl)
      ∙ count_online-keeps f st a i seen (λ n. refl)
      ∙ see_delegatee-keeps f st a i validated (λ ds ps. refl)
      ∙ add_validator-validators

  pub visit-online_validators : (visit st a i p).online_validators ≡ elim (build_validator st a i) [
    | none ↦ p.online_validators
    | some v ↦ if v.online then p.online_validators ++ v ∷ [] else p.online_validators
  ]
  unfolding visit
  visit-online_validators =
      let f : Progress → List Validator = λ q. q.online_validators in
      add_identity-keeps f st a i counted (see_delegatee st i validated).0 (λ is m. refl)
      ∙ count_online-keeps f st a i seen (λ n. refl)
      ∙ see_delegatee-keeps f st a i validated (λ ds ps. refl)
      ∙ add_validator-online_validators
