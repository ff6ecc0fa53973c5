-- ===== src/Online/Identities.antt =====
-- online.go: the identities by address.
use Prim.Native.String.{String}
use idena_indexer.Base.{
  ◌≡◌, refl, ap, ◌∙◌, sym, subst, Bool, true, false, ◌&&◌, ◌||◌, Option, none, some, List, [], ◌∷◌,
  arith, if◌then◌else◌, Bool-cases, Option-cases, inl, inr,
}
use idena_indexer.Base.Eq.{◌==◌, number_key, string_key}
use idena_indexer.Base.Map.{Map, lookup, insert, lookup-insert}
use idena_indexer.Node.{Address}
use idena_indexer.Online.{
  NodeIdentity, AppState, Identity, Progress, Facts, facts_of, with_delegatee, build_identity,
  add_validator, see_delegatee, count_online, add_identity, visit, iterate, no_progress, get, key,
  convert_address,
}
use idena_indexer.Online.Visit.{
  add_validator-keeps, see_delegatee-keeps, count_online-keeps, add_identity-keeps,
}
use idena_indexer.Online.Pools.{HasKeys}

-- What the cache says of an address is what the node says of it.
pub record IsFor (st : AppState) (a : Address) (x : Identity) : Type 0 where
  pub address : (facts_of x).address ≡ convert_address st a
  pub last_activity : (facts_of x).last_activity ≡ st.activity a
  pub online : (facts_of x).online ≡ st.is_online_identity a

record IsSeen (st : AppState) (p : Progress) : Type 0 where
  of : (d : Address) (x : Identity) → lookup d p.delegatees_by_address ≡ some x → IsFor st d x

with_delegatee-IsFor :
    (st : AppState) (a : Address) (f : Facts) (d : Option Identity)
    → IsFor st a (with_delegatee f none)
    → IsFor st a (with_delegatee f d)
with_delegatee-IsFor st a f none h = h
with_delegatee-IsFor st a f (some d) h = record {
  address = h.address;
  last_activity = h.last_activity;
  online = h.online;
}

build_identity-IsFor :
    (st : AppState) (a : Address) (i : NodeIdentity) (d : Option Identity)
    → IsFor st a (build_identity st a i (some (st.is_online_identity a)) d)
build_identity-IsFor st a i d =
    with_delegatee-IsFor st a _ d (record { address = refl; last_activity = refl; online = refl })

inserted :
    {st : AppState} (d : Address) (m : Map Address Identity)
    → ((j : Address) (x : Identity) → lookup j m ≡ some x → IsFor st j x)
    → (j : Address) (x : Identity)
    → lookup j (insert d (build_identity st d (st.get_identity d) none none) m) ≡ some x
    → IsFor st j x
inserted {st = st} d m h j x k =
    let y = build_identity st d (st.get_identity d) none none in
    elim (Bool-cases (d == j)) [
      | inl same ↦
          let equal : d ≡ j = ground arith in
          let as_is : y ≡ x = ground (arith, lookup-insert d j y m) in
          subst (λ z. IsFor st z x) equal
            (subst (IsFor st d) as_is
              (record { address = refl; last_activity = refl; online = refl }))
      | inr other ↦ h j x (ground (arith, lookup-insert d j y m))
    ]

module _ (st : AppState) (a : Address) (i : NodeIdentity) where
  see_delegatee-IsSeen : (p : Progress) → IsSeen st p → IsSeen st (see_delegatee st i p).1
  unfolding see_delegatee
  see_delegatee-IsSeen p h = elim (Option-cases i.delegatee) [
    | inl e ↦ rw (e, see_delegatee) h
    | inr (d, e) ↦ elim (Option-cases (lookup d p.delegatees_by_address)) [
      | inl q ↦
          rw (e, see_delegatee) (rw q (record { of = inserted d p.delegatees_by_address h.of }))
      | inr (y, q) ↦ rw (e, see_delegatee) (rw q (record { of = h.of }))
    ]
  ]

  abbrev chosen : Progress → Option Identity → Identity
  chosen p d = elim (lookup a p.delegatees_by_address) [
    | none ↦ build_identity st a i (some (st.is_online_identity a)) d
    | some x ↦ x
  ]

  chosen-IsFor : (p : Progress) (d : Option Identity) → IsSeen st p → IsFor st a (chosen p d)
  chosen-IsFor p d h = elim (Option-cases (lookup a p.delegatees_by_address)) [
    | inl e ↦ rw (e, chosen) (build_identity-IsFor st a i d)
    | inr (x, e) ↦ rw (e, chosen) (h.of a x e)
  ]

  add_identity-added :
      (p : Progress) (d : Option Identity)
      → IsSeen st p
      → (add_identity st a i d p).identities_per_address ≡ (
          if i.newbie_or_better
          then insert (key st a) (chosen p d) p.identities_per_address
          else p.identities_per_address)
  unfolding add_identity
  add_identity-added p d h = elim (Bool-cases i.newbie_or_better) [
    | inl e ↦
        rw (e, add_identity)
          (ap (λ k. insert (st.to_lower k) (chosen p d) p.identities_per_address)
            (chosen-IsFor p d h).address)
    | inr e ↦ rw (e, add_identity) refl
  ]

  abbrev first : Progress → Progress
  first p = add_validator st a i p

  abbrev second : Progress → Progress
  second p = (see_delegatee st i (add_validator st a i p)).1

  abbrev third : Progress → Progress
  third p = count_online st a (see_delegatee st i (add_validator st a i p)).1

  IsSeen-by :
      (p q : Progress)
      → q.delegatees_by_address ≡ p.delegatees_by_address
      → IsSeen st p
      → IsSeen st q
  IsSeen-by p q e h = record { of = λ d x k. h.of d x (subst (λ m. lookup d m ≡ some x) e k) }

  third-IsSeen : (p : Progress) → IsSeen st p → IsSeen st (third p)
  third-IsSeen p h =
      let f : Progress → Map Address Identity = λ q. q.delegatees_by_address in
      IsSeen-by (second p) (third p) (count_online-keeps f st a i (second p) (λ n. refl)) (
        see_delegatee-IsSeen (first p)
          (IsSeen-by p (first p) (add_validator-keeps f st a i p (λ vs os. refl)) h))

  visit-IsSeen : (p : Progress) → IsSeen st p → IsSeen st (visit st a i p)
  unfolding visit
  visit-IsSeen p h =
      let f : Progress → Map Address Identity = λ q. q.delegatees_by_address in
      IsSeen-by (third p) (visit st a i p)
        (add_identity-keeps f st a i (third p) (see_delegatee st i (first p)).0 (λ is m. refl))
        (third-IsSeen p h)

  visit-adds :
      (p : Progress)
      → IsSeen st p
      → (x : Identity) × IsFor st a x
        × ((visit st a i p).identities_per_address ≡ (
            if i.newbie_or_better
            then insert (key st a) x p.identities_per_address
            else p.identities_per_address))
  unfolding visit
  visit-adds p h =
      let f : Progress → Map String Identity = λ q. q.identities_per_address in
      let d = (see_delegatee st i (first p)).0 in
      let x = chosen (third p) d in
      let kept : (third p).identities_per_address ≡ p.identities_per_address =
        count_online-keeps f st a i (second p) (λ n. refl)
        ∙ see_delegatee-keeps f st a i (first p) (λ ds ps. refl)
        ∙ add_validator-keeps f st a i p (λ vs os. refl) in
      (
        x,
        chosen-IsFor (third p) d (third-IsSeen p h),
        add_identity-added (third p) d (third-IsSeen p h)
            ∙ ap (λ m. if i.newbie_or_better then insert (key st a) x m else m) kept,
      )

-- An identity with the address is listed that can be a validator.
unfoldable pub is_listed : Address → List (Address × NodeIdentity) → Bool
is_listed a [] = false
is_listed a ((b, i) ∷ is) = (b == a && i.newbie_or_better) || is_listed a is

-- What the lookup of an address says.
abbrev pub Answers : AppState → Address → Bool → Option Identity → Type 0
Answers st a listed none = listed ≡ false
Answers st a listed (some x) = (listed ≡ true) × IsFor st a x

or_false : (x : Bool) → (x || false) ≡ x
or_false x = ground arith

or_swap : (x y z : Bool) → (y || (x || z)) ≡ ((x || y) || z)
or_swap x y z = ground arith

Answers-added :
    (st : AppState)
    → HasKeys st
    → (a b : Address) (newbie before : Bool) (x : Identity) (m : Map String Identity) → IsFor st b x
    → Answers st a before (lookup (key st a) m)
    → Answers st a
        ((b == a && newbie) || before)
        (lookup (key st a) (if newbie then insert (key st b) x m else m))
Answers-added st keys a b false before x m right h =
    subst (λ c. Answers st a c (lookup (key st a) m)) (ground arith) h
Answers-added st keys a b true before x m right h =
    let found : lookup (key st a) (insert (key st b) x m)
        ≡ (if b == a then some x else lookup (key st a) m) =
      lookup-insert (key st b) (key st a) x m
      ∙ ap (λ c. if c then some x else lookup (key st a) m) (keys b a) in
    subst (Answers st a ((b == a && true) || before)) (sym found) (elim (Bool-cases (b == a)) [
      | inl same ↦ rw same (refl, subst (λ z. IsFor st z x) (ground arith) right)
      | inr other ↦ rw other h
    ])

iterate-Answers :
    (st : AppState)
    → HasKeys st
    → (a : Address) (is : List (Address × NodeIdentity)) (p : Progress) (before : Bool)
    → IsSeen st p
    → Answers st a before (get (key st a) p)
    → Answers st a (is_listed a is || before) (get (key st a) (iterate st is p))
unfolding iterate is_listed
iterate-Answers st keys a [] p before seen h = h
iterate-Answers st keys a ((b, i) ∷ is) p before seen h =
    let (x, right, e) = visit-adds st b i p seen in
    let next = visit st b i p in
    let after =
      Answers-added st keys a b i.newbie_or_better before x p.identities_per_address right h in
    let after' =
      subst (λ m. Answers st a ((b == a && i.newbie_or_better) || before) (lookup (key st a) m))
        (sym e) after in
    subst (λ c. Answers st a c (get (key st a) (iterate st is next)))
      (or_swap (b == a && i.newbie_or_better) (is_listed a is) before)
      (iterate-Answers st keys a is next ((b == a && i.newbie_or_better) || before)
        (visit-IsSeen st b i p seen) after')

-- After the iteration, where different addresses have different keys, `Get` finds an address exactly if
-- it is the address of an identity that can be a validator, and what it finds has the address, the last
-- activity and the online status that the node has for it, be it built as an identity or as a delegatee.
pub iterate-get :
    (st : AppState)
    → HasKeys st
    → (is : List (Address × NodeIdentity)) (a : Address)
    → Answers st a (is_listed a is) (get (key st a) (iterate st is no_progress))
unfolding lookup
iterate-get st keys is a =
    subst (λ c. Answers st a c (get (key st a) (iterate st is no_progress)))
      (or_false (is_listed a is))
      (iterate-Answers st keys a is no_progress false (record { of = λ d x h. ground (arith, h) })
        refl)
