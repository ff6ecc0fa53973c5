-- ===== src/Balances/Check.antt =====
-- indexer/check_balances.go: the comparison of the state's balances with those in the database.
use Prim.Native.String.{String}
use idena_indexer.Base.{
  ◌≡◌, ◌↔◌, refl, sym, ap, Option, none, some, [], ◌∷◌, arith, Option-cases, inl, inr,
  if◌then◌else◌,
}
use idena_indexer.Base.Eq.{Comparable, ◌==◌, string_key}
use idena_indexer.Base.Map.{Map, IsMap, lookup, erase, lookup-erase, erase-IsMap}

-- A balance of `db.Balance`: the address and the amount, a decimal.
pub record Row {ℓ} (D : Type ℓ) : Type ℓ where
  pub address : String
  pub balance : D

-- What `check` finds: no second balance, two that differ, or no first balance.
pub data Mismatch {ℓ κ} (K : Type ℓ) (D : Type κ) : Type (ℓ ⊔ κ) where
  no_second : K → D → Mismatch K D
  differ : K → D → D → Mismatch K D
  no_first : K → D → Mismatch K D

-- Decimals are compared by value, so that `Cmp` is 0 on equal ones; `IsZero` compares with `zero`.
module _ {K D : Type 0} ⦃key : Comparable K⦄ ⦃decimal : Comparable D⦄ (zero : D) where
  -- The second loop of `check`, over what is left of the second map.
  unfoldable pub check_rest : Map K D → Option (Mismatch K D)
  check_rest [] = none
  check_rest ((address2, info2) ∷ b2) =
      let rest = check_rest b2 in if info2 == zero then rest else some (no_first address2 info2)

  -- The first loop, over the entries of the first map, and then the second.
  unfoldable pub check_from : Map K D → Map K D → Option (Mismatch K D)
  unfolding check_rest
  check_from [] b2 = check_rest b2
  check_from ((address1, info1) ∷ b1) b2 =
      let rest = check_from b1 (erase address1 b2) in
      elim (lookup address1 b2) [
        | none ↦ if info1 == zero then rest else some (no_second address1 info1)
        | some info2 ↦ if info1 == info2 then rest else some (differ address1 info1 info2)
      ]

  -- An address that a map does not have counts as zero.
  abbrev pub balance_at : K → Map K D → D
  balance_at a m = elim (lookup a m) [ none ↦ zero | some d ↦ d ]

  balance_at-cons :
      (a j : K) (d : D) (m : Map K D)
      → balance_at a ((j, d) ∷ m) ≡ (if a == j then d else balance_at a m)
  unfolding lookup
  balance_at-cons a j d m = ground arith

  balance_at-erase :
      (k a : K) (m : Map K D) → balance_at a (erase k m) ≡ (if k == a then zero else balance_at a m)
  balance_at-erase k a m = ground (arith, lookup-erase k a m)

  check_rest_iff :
      (m : Map K D) → IsMap m → (check_rest m ≡ none) ↔ ((a : K) → balance_at a m ≡ zero)
  unfolding check_rest lookup
  check_rest_iff [] h = ((λ e a. refl), (λ k. refl))
  check_rest_iff ((j, d) ∷ m) h =
      let ih = check_rest_iff m (h.1) in
      (
        (λ e a.
            let rest : check_rest m ≡ none = ground arith in
            ground (arith, balance_at-cons a j d m, decimal.decides d zero, ih.0 rest a)),
        (λ k.
            let here : d ≡ zero = ground (arith, k j, balance_at-cons j j d m, key.decides j j) in
            let rest : check_rest m ≡ none = ih.1 (λ a. ground (
              arith,
              k a,
              balance_at-cons a j d m,
              key.decides a j,
              ap (λ i. lookup i m) {x = a} {y = j},
            )) in
            ground (arith, decimal.decides d zero)),
      )

  -- The step of the first loop.
  check_from-cons :
      (j : K) (d : D) (b1 b2 : Map K D)
      → (check_from ((j, d) ∷ b1) b2 ≡ none)
        ↔ ((d ≡ balance_at j b2) × (check_from b1 (erase j b2) ≡ none))
  unfolding check_from
  check_from-cons j d b1 b2 = elim (Option-cases (lookup j b2)) [
    | inl e ↦ ground (arith, decimal.decides d zero)
    | inr (d', e) ↦ ground (arith, decimal.decides d d')
  ]

  -- The check finds nothing just where the two maps give every address the same balance, one that is
  -- missing counting as zero. The order in which the maps are gone through does not matter.
  pub check_from_iff :
      (b1 b2 : Map K D)
      → IsMap b1
      → IsMap b2
      → (check_from b1 b2 ≡ none) ↔ ((a : K) → balance_at a b1 ≡ balance_at a b2)
  unfolding check_from lookup
  check_from_iff [] b2 h1 h2 = (
    (λ e a. sym ((check_rest_iff b2 h2).0 e a)),
    (λ k. (check_rest_iff b2 h2).1 (λ a. sym (k a))),
  )
  check_from_iff ((j, d) ∷ b1) b2 h1 h2 =
      let ih = check_from_iff b1 (erase j b2) (h1.1) (erase-IsMap j b2 h2) in
      let step = check_from-cons j d b1 b2 in
      (
        (λ e a. ground (
          arith,
          balance_at-cons a j d b1,
          balance_at-erase j a b2,
          step.0 e,
          ih.0 ((step.0 e).1) a,
          key.decides a j,
          key.decides j a,
          ap (λ i. lookup i b2) {x = a} {y = j},
        )),
        (λ k. step.1 (
          ground (arith, k j, balance_at-cons j j d b1, key.decides j j),
          ih.1 (λ a. ground (
            arith,
            k a,
            balance_at-cons a j d b1,
            balance_at-erase j a b2,
            key.decides a j,
            key.decides j a,
            ap (λ i. lookup i b1) {x = a} {y = j},
          )),
        )),
      )
