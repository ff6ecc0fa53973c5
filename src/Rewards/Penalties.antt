-- ===== src/Rewards/Penalties.antt =====
-- context.go, `incPenalizedDelegators`: the index of the delegatees stays right, and each call counts for
-- one delegatee.
use idena_indexer.Base.{
  ℕ, ◌+◌, ◌%◌, ◌^◌, map, List, true, length-append, ◌≡◌, ◌≢◌, refl, sym, ap, ◌∙◌, subst, false,
  Option, none, some, [], ◌∷◌, arith, length, get_elem?, set, get_elem?-set_self, get_elem?-set_ne,
  Option-cases, Bool-cases, inl, inr, ◌==◌, ==_iff, if◌then◌else◌,
}
use idena_indexer.Base.Eq.{number_key}
use idena_indexer.Base.Map.{Map, lookup, lookup-insert, IsMap}
use idena_indexer.Node.{Address}
use idena_indexer.Base.Positions.{get_elem?-append_end, get_elem?-append_some, get_elem?-bound}
use idena_indexer.Rewards.Delegatees.{
  DelegateeEpochRewards, Wrapper, append, penalized, inc_penalized_delegators, row_at, IsIndexed,
  DelegationEpochReward, convert_total, convert_delegators, RewardsByType, convert_into,
  convert_delegatees_epoch_rewards, new_wrapper,
}

-- The row of an address after an item is added.
row_at-append :
    (item : DelegateeEpochRewards) (w : Wrapper) (a : Address)
    → IsIndexed w
    → row_at a (append item w) ≡ (if item.address == a then some item else row_at a w)
unfolding append
row_at-append item w a h = elim (Bool-cases (item.address == a)) [
  | inl e ↦
      rw (lookup-insert item.address a (length w.rewards) w.indexes_by_delegatee, row_at)
        (rw e (get_elem?-append_end w.rewards item))
  | inr e ↦
      rw (lookup-insert item.address a (length w.rewards) w.indexes_by_delegatee, row_at)
        (rw e (elim (Option-cases (lookup a w.indexes_by_delegatee)) [
          | inl n ↦ rw (n, row_at) refl
          | inr (i, n) ↦
              let found = h a i n in
              rw (n, row_at)
                (get_elem?-append_some w.rewards (item ∷ []) i (found.0) (found.1) ∙ sym (found.1))
        ]))
]

other_index :
    (w : Wrapper) (d a : Address) (i j : ℕ)
    → IsIndexed w
    → lookup d w.indexes_by_delegatee ≡ some i
    → lookup a w.indexes_by_delegatee ≡ some j
    → (d == a) ≡ false
    → i ≢ j
other_index w d a i j h l n e same =
    let at_d = h d i l in
    let at_a = h a j n in
    let one : some (at_d.0) ≡ some (at_a.0) =
      sym (at_d.1) ∙ ap (get_elem? w.rewards) same ∙ at_a.1 in
    let address_or : Option DelegateeEpochRewards → Address =
      λ o. elim o [ none ↦ d | some r ↦ r.address ] in
    let d_is_a : d ≡ a = sym (at_d.2) ∙ ap address_or one ∙ at_a.2 in
    ground (arith, (==_iff d a).1 d_is_a)

-- The row of an address after one row is changed.
row_at-set :
    (w : Wrapper) (d a : Address) (i : ℕ) (r r' : DelegateeEpochRewards)
    → IsIndexed w
    → lookup d w.indexes_by_delegatee ≡ some i
    → get_elem? w.rewards i ≡ some r
    → row_at a (record w { rewards = set w.rewards i r' })
      ≡ (if d == a then some r' else row_at a w)
row_at-set w d a i r r' h l g = elim (Bool-cases (d == a)) [
  | inl e ↦
      let here : lookup a w.indexes_by_delegatee ≡ some i =
        subst (λ b. lookup b w.indexes_by_delegatee ≡ some i) ((==_iff d a).0 e) l in
      rw (here, row_at) (rw e (get_elem?-set_self w.rewards i r' (get_elem?-bound w.rewards i r g)))
  | inr e ↦ elim (Option-cases (lookup a w.indexes_by_delegatee)) [
    | inl n ↦ rw (n, row_at) (rw e refl)
    | inr (j, n) ↦
        rw (n, row_at) (rw e (get_elem?-set_ne w.rewards r' (other_index w d a i j h l n e)))
  ]
]

row_at_index :
    (w : Wrapper) (a : Address) (i : ℕ)
    → lookup a w.indexes_by_delegatee ≡ some i
    → row_at a w ≡ get_elem? w.rewards i
row_at_index w a i l = rw (l, row_at) refl

append-IsIndexed :
    (item : DelegateeEpochRewards) (w : Wrapper) → IsIndexed w → IsIndexed (append item w)
unfolding append
append-IsIndexed item w h a i l =
    let row = sym (row_at_index (append item w) a i l) ∙ row_at-append item w a h in
    elim (Bool-cases (item.address == a)) [
      | inl e ↦ (item, row ∙ rw e refl, (==_iff item.address a).0 e)
      | inr e ↦
          let before : lookup a w.indexes_by_delegatee ≡ some i =
            ground
              (arith, lookup-insert item.address a (length w.rewards) w.indexes_by_delegatee) in
          let found = h a i before in
          (found.0, row ∙ rw e (row_at_index w a i before ∙ found.1), found.2)
    ]

set-IsIndexed :
    (w : Wrapper) (d : Address) (i : ℕ) (r r' : DelegateeEpochRewards)
    → IsIndexed w
    → lookup d w.indexes_by_delegatee ≡ some i
    → get_elem? w.rewards i ≡ some r
    → r'.address ≡ d
    → IsIndexed (record w { rewards = set w.rewards i r' })
set-IsIndexed w d i r r' h l g same a j n =
    let row =
      sym (row_at_index (record w { rewards = set w.rewards i r' }) a j n)
      ∙ row_at-set w d a i r r' h l g in
    elim (Bool-cases (d == a)) [
      | inl e ↦ (r', row ∙ rw e refl, same ∙ (==_iff d a).0 e)
      | inr e ↦
          let found = h a j n in (found.0, row ∙ rw e (row_at_index w a j n ∙ found.1), found.2)
    ]

-- The row of a delegatee after one more of its delegators is penalized.
abbrev pub counted : Address → Option DelegateeEpochRewards → DelegateeEpochRewards
counted d none = record {
  address = d;
  total_rewards = [];
  delegator_rewards = [];
  penalized_delegators = 1;
}
counted d (some r) = penalized r

-- Where each index is that of a row of its address, `incPenalizedDelegators` does not go out of range,
-- keeps that so, adds one to the penalized delegators of the delegatee's row, modulo 2 ^ 32, or gives it
-- a row with one, and leaves the rows of all others alone.
pub inc_penalized_delegators_lem :
    (d : Address) (w : Wrapper)
    → IsIndexed w
    → (w' : Wrapper) × (inc_penalized_delegators d w ≡ some w')
      × IsIndexed w'
      × ((a : Address)
          → row_at a w' ≡ (if d == a then some (counted d (row_at d w)) else row_at a w))
unfolding inc_penalized_delegators
inc_penalized_delegators_lem d w h = elim (Option-cases (lookup d w.indexes_by_delegatee)) [
  | inl n ↦ (
    append (counted d none) w,
    rw (n, inc_penalized_delegators) refl,
    append-IsIndexed (counted d none) w h,
    (λ a. rw (n, row_at) (row_at-append (counted d none) w a h)),
  )
  | inr (i, n) ↦
      let found = h d i n in
      let r = found.0 in
      (
        record w { rewards = set w.rewards i (penalized r) },
        rw (n, inc_penalized_delegators) (rw (found.1) refl),
        set-IsIndexed w d i r (penalized r) h n (found.1) (found.2),
        (λ a.
            row_at-set w d a i r (penalized r) h n (found.1)
            ∙ ap (λ o. if d == a then some (counted d o) else row_at a w)
                (sym (row_at_index w d i n ∙ found.1))),
      )
]

convert_into-IsIndexed :
    (m : Map Address (RewardsByType × Map Address RewardsByType)) (w : Wrapper)
    → IsIndexed w
    → IsIndexed (convert_into m w)
unfolding convert_into
convert_into-IsIndexed [] w h = h
convert_into-IsIndexed ((a, (total, delegators)) ∷ ms) w h =
    convert_into-IsIndexed ms _ (append-IsIndexed _ w h)

pub convert_delegatees_epoch_rewards-IsIndexed :
    (m : Map Address (RewardsByType × Map Address RewardsByType))
    → IsIndexed (convert_delegatees_epoch_rewards m)
unfolding convert_delegatees_epoch_rewards lookup
convert_delegatees_epoch_rewards-IsIndexed m =
    convert_into-IsIndexed m new_wrapper (λ a i l. ground arith)

-- The rewards by type as rows, and the row that the statistics of a delegatee come to.
abbrev pub rows_of : RewardsByType → List DelegationEpochReward
rows_of m = map (λ p. record { balance = p.1; reward_type = p.0 % 2 ^ 8 }) m

abbrev pub row_of : Address → RewardsByType × Map Address RewardsByType → DelegateeEpochRewards
row_of a s = record {
  address = a;
  total_rewards = rows_of s.0;
  delegator_rewards = map (λ p. record { address = p.0; total_rewards = rows_of p.1 }) s.1;
  penalized_delegators = 0;
}

convert_total_lem : (m : RewardsByType) → convert_total m ≡ rows_of m
unfolding convert_total
convert_total_lem [] = refl
convert_total_lem ((t, b) ∷ m) =
    ap (λ r. record { balance = b; reward_type = t % 2 ^ 8 } ∷ r) (convert_total_lem m)

convert_delegators_lem :
    (ms : Map Address RewardsByType)
    → convert_delegators ms ≡ map (λ p. record { address = p.0; total_rewards = rows_of p.1 }) ms
unfolding convert_delegators
convert_delegators_lem [] = refl
convert_delegators_lem ((a, m) ∷ ms) = rw (convert_total_lem m, convert_delegators_lem ms) refl

-- The first entry has its row; the other rows are those of the rest.
row_of_first :
    (a b : Address) (s : RewardsByType × Map Address RewardsByType) (item : DelegateeEpochRewards)
    (ms : Map Address (RewardsByType × Map Address RewardsByType)) (w : Wrapper)
    → IsIndexed w
    → item ≡ row_of b s
    → lookup b ms ≡ none
    → (elim (lookup a ms) [ none ↦ row_at a (append item w) | some r ↦ some (row_of a r) ])
      ≡ (elim (lookup a ((b, s) ∷ ms)) [ none ↦ row_at a w | some r ↦ some (row_of a r) ])
unfolding lookup
row_of_first a b s item ms w k made absent =
    let at_b : item.address ≡ b = ap (λ (r : DelegateeEpochRewards). r.address) made in
    elim (Bool-cases (a == b)) [
      | inl e ↦
          let same : a ≡ b = (==_iff a b).0 e in
          let gone : lookup a ms ≡ none = rw same absent in
          let found : (item.address == a) ≡ true = (==_iff item.address a).1 (at_b ∙ sym same) in
          rw (gone, e) (row_at-append item w a k ∙ rw found (ap some (made ∙ rw same refl)))
      | inr e ↦
          let other : (item.address == a) ≡ false = rw at_b (ground (arith, e)) in
          rw e (
            ap (λ o. elim (lookup a ms) [ none ↦ o | some r ↦ some (row_of a r) ])
              (row_at-append item w a k ∙ rw other refl))
    ]

convert_into_lem :
    (m : Map Address (RewardsByType × Map Address RewardsByType)) (w : Wrapper)
    → IsMap m
    → IsIndexed w
    → (length (convert_into m w).rewards ≡ length w.rewards + length m)
      × ((a : Address)
          → row_at a (convert_into m w)
            ≡ (elim (lookup a m) [ none ↦ row_at a w | some s ↦ some (row_of a s) ]))
unfolding convert_into lookup append
convert_into_lem [] w h k = (omega arith, λ a. refl)
convert_into_lem ((b, (total, delegators)) ∷ ms) w h k =
    let item : DelegateeEpochRewards = record {
      address = b;
      total_rewards = convert_total total;
      delegator_rewards = convert_delegators delegators;
      penalized_delegators = 0;
    } in
    let made : item ≡ row_of b (total, delegators) =
      rw (convert_total_lem total, convert_delegators_lem delegators) refl in
    let (count, rows) = convert_into_lem ms (append item w) h.1 (append-IsIndexed item w k) in
    (
      omega (arith, count, length-append w.rewards (item ∷ [])),
      λ a. rows a ∙ row_of_first a b (total, delegators) item ms w k made h.0,
    )

-- Of the statistics of delegatees, with one entry for each, `convertDelegateesEpochRewards` makes as many
-- rows, indexed by their addresses: the row of a delegatee has its rewards by type, with the types as
-- bytes, and those of each of its delegators, and no penalized delegators; other addresses have no row.
pub convert_delegatees_epoch_rewards_lem :
    (m : Map Address (RewardsByType × Map Address RewardsByType))
    → IsMap m
    → let w = convert_delegatees_epoch_rewards m in
      IsIndexed w
      × (length w.rewards ≡ length m)
      × ((a : Address)
          → row_at a w ≡ (elim (lookup a m) [ none ↦ none | some s ↦ some (row_of a s) ]))
unfolding convert_delegatees_epoch_rewards lookup
convert_delegatees_epoch_rewards_lem m h =
    let empty : IsIndexed new_wrapper = λ a i l. ground arith in
    let (count, rows) = convert_into_lem m new_wrapper h empty in
    (convert_into-IsIndexed m new_wrapper empty, omega (arith, count), rows)
