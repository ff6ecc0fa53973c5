-- ===== src/TxStates/Candidates.antt =====
-- collector.go: the difference in the number of candidates over the transactions of a block.
use idena_indexer.Base.{
  ℕ, suc, ◌+◌, ◌≡◌, refl, ap, ◌∙◌, sym, subst, Bool, true, false, none, some, List, [], ◌∷◌, ◌==◌,
  if◌then◌else◌, arith, Bool-cases, Option-cases, inl, inr, length,
}
use idena_indexer.Base.Int.{ℤ, pos, ◌+ℤ◌, int_laws}
use idena_indexer.Base.Map.{Map, insert, erase}
use idena_indexer.Base.Eq.{number_key}
use idena_indexer.Base.SumBy.{+ℤ_zero, zero_+ℤ}
use idena_indexer.Node.{Address}
use idena_indexer.TxStates.{
  IdentityState, Tx, IdentityStateChange, StateStats, other_recipient, begin_applying_tx,
  add_change, changes_by_address, diff_of, count_changes, complete_applying_tx,
}

swap_steps : (d x y : ℤ) → d +ℤ y +ℤ x ≡ d +ℤ (x +ℤ y)
swap_steps d x y = omega int_laws

apart : (tx : Tx) (a : Address) → other_recipient tx ≡ some a → (a == tx.sender) ≡ false
unfolding other_recipient
apart tx a e = elim (Option-cases tx.to) [
  | inl q ↦ ground (arith, e, q)
  | inr (b, q) ↦ ground (arith, e, q)
]

swap_front : (x y c : ℤ) → x +ℤ y +ℤ c ≡ y +ℤ (x +ℤ c)
swap_front x y c = omega int_laws

apart_sym : (tx : Tx) (a : Address) → other_recipient tx ≡ some a → (tx.sender == a) ≡ false
apart_sym tx a e = ground (arith, apart tx a e)

==-refl : (s : Address) → (s == s) ≡ true
==-refl s = ground arith

module _ (is_candidate : IdentityState → Bool) where
  -- The candidates among some addresses, and how often an address is one of them.
  unfoldable pub candidates : (Address → IdentityState) → List Address → ℕ
  candidates state_of [] = 0
  candidates state_of (a ∷ as') =
      let rest = candidates state_of as' in if is_candidate (state_of a) then suc rest else rest

  unfoldable pub occurs : Address → List Address → ℕ
  occurs x [] = 0
  occurs x (a ∷ as') = let rest = occurs x as' in if x == a then suc rest else rest

  at_point :
      (f g : Address → IdentityState) (x : Address) (addrs : List Address)
      → candidates g addrs + (if is_candidate (f x) then occurs x addrs else 0)
        ≡ candidates f addrs + (if is_candidate (g x) then occurs x addrs else 0)
      → candidates g (x ∷ addrs) + (if is_candidate (f x) then occurs x (x ∷ addrs) else 0)
        ≡ candidates f (x ∷ addrs) + (if is_candidate (g x) then occurs x (x ∷ addrs) else 0)
  unfolding candidates occurs
  at_point f g x addrs h = ground (arith, h)

  -- Two views of the states that differ in one address at most.
  one_point :
      (f g : Address → IdentityState) (x : Address)
      → ((y : Address) → (x == y) ≡ false → g y ≡ f y)
      → (addrs : List Address)
      → candidates g addrs + (if is_candidate (f x) then occurs x addrs else 0)
        ≡ candidates f addrs + (if is_candidate (g x) then occurs x addrs else 0)
  unfolding candidates occurs
  one_point f g x agree [] = ground arith
  one_point f g x agree (a ∷ as') = elim (Bool-cases (x == a)) [
    | inl same ↦
        let equal : x ≡ a = ground arith in
        subst
          (λ z.
            candidates g (z ∷ as') + (if is_candidate (f x) then occurs x (z ∷ as') else 0)
            ≡ candidates f (z ∷ as') + (if is_candidate (g x) then occurs x (z ∷ as') else 0))
          equal (at_point f g x as' (one_point f g x agree as'))
    | inr other ↦
        let same_state : is_candidate (g a) ≡ is_candidate (f a) =
          ap is_candidate (agree a other) in
        ground (arith, same_state, one_point f g x agree as', other)
  ]

  change : (Address → IdentityState) → (Address → IdentityState) → Address → ℤ
  change f g x = diff_of is_candidate (record { prev_state = f x; new_state = g x })

  -- One address, which occurs once, is changed.
  point_change :
      (f g : Address → IdentityState) (x : Address) (addrs : List Address)
      → ((y : Address) → (x == y) ≡ false → g y ≡ f y)
      → occurs x addrs ≡ 1
      → change f g x +ℤ pos (candidates f addrs) ≡ pos (candidates g addrs)
  unfolding change ◌+ℤ◌
  point_change f g x addrs agree once = ground (arith, one_point f g x agree addrs, once)

  -- The transaction changes the states of no others than its sender and its recipient.
  abbrev pub ChangesOwn : Tx → (Address → IdentityState) → (Address → IdentityState) → Type 0
  ChangesOwn tx f g =
      (y : Address)
      → (tx.sender == y) ≡ false
      → (elim (other_recipient tx) [ none ↦ false | some a ↦ a == y ]) ≡ false
      → g y ≡ f y

  -- The sum of the changes of a transaction.
  pub tx_change : Tx → (Address → IdentityState) → (Address → IdentityState) → ℤ
  tx_change tx f g = elim (other_recipient tx) [
    | none ↦ change f g tx.sender
    | some a ↦ change f g tx.sender +ℤ change f g a
  ]

  abbrev step_of : IdentityState → IdentityState → ℤ
  step_of p n = diff_of is_candidate (record { prev_state = p; new_state = n })

  step_of-same : (p n : IdentityState) → (p == n) ≡ true → step_of p n ≡ pos 0
  step_of-same p n same =
      let equal : n ≡ p = ground arith in
      ap (step_of p) equal
      ∙ elim (Bool-cases (is_candidate p)) [ inl e ↦ rw e refl | inr e ↦ rw e refl ]

  count-one :
      (s : Address) (p n : IdentityState) (d : ℤ)
      → count_changes is_candidate (add_change s p n []) d ≡ d +ℤ step_of p n
  unfolding count_changes insert erase
  count-one s p n d = elim (Bool-cases (p == n)) [
    | inl same ↦ rw (same, step_of-same p n same) (sym (+ℤ_zero d))
    | inr other ↦ rw other refl
  ]

  count-two :
      (s a : Address) (p n p' n' : IdentityState) (d : ℤ)
      → (a == s) ≡ false
      → count_changes is_candidate (add_change a p' n' (add_change s p n [])) d
        ≡ d +ℤ (step_of p n +ℤ step_of p' n')
  unfolding count_changes insert erase
  count-two s a p n p' n' d apart = elim (Bool-cases (p' == n')) [
    | inl same ↦ rw (same, step_of-same p' n' same, +ℤ_zero (step_of p n)) (count-one s p n d)
    | inr other ↦ elim (Bool-cases (p == n)) [
      | inl same ↦ rw (other, same, step_of-same p n same, zero_+ℤ (step_of p' n')) refl
      | inr too ↦ rw (other, too, apart) (swap_steps d (step_of p n) (step_of p' n'))
    ]
  ]

  -- The statistics with the changes of a transaction.
  abbrev after : Tx → Map Address IdentityStateChange → StateStats → StateStats
  after tx changes st = if length changes == 0 then st else record {
    identity_state_changes = insert tx.hash changes st.identity_state_changes;
    candidate_count_diff = count_changes is_candidate changes st.candidate_count_diff;
  }

  finish :
      (tx : Tx) (changes : Map Address IdentityStateChange) (st : StateStats)
      → (after tx changes st).candidate_count_diff
        ≡ count_changes is_candidate changes st.candidate_count_diff
  unfolding count_changes
  finish tx [] st = refl
  finish tx (x ∷ changes) st = ground arith

  begin-alone :
      (tx : Tx) (f : Address → IdentityState)
      → other_recipient tx ≡ none
      → begin_applying_tx tx f ≡ f tx.sender ∷ []
  unfolding begin_applying_tx
  begin-alone tx f e = rw (e, begin_applying_tx) refl

  begin-both :
      (tx : Tx) (f : Address → IdentityState) (a : Address)
      → other_recipient tx ≡ some a
      → begin_applying_tx tx f ≡ f tx.sender ∷ f a ∷ []
  unfolding begin_applying_tx
  begin-both tx f a e = rw (e, begin_applying_tx) refl

  changes-alone :
      (tx : Tx) (f g : Address → IdentityState)
      → other_recipient tx ≡ none
      → changes_by_address tx (begin_applying_tx tx f) g
        ≡ some (add_change tx.sender (f tx.sender) (g tx.sender) [])
  unfolding changes_by_address
  changes-alone tx f g e = rw (begin-alone tx f e, e, changes_by_address) refl

  changes-both :
      (tx : Tx) (f g : Address → IdentityState) (a : Address)
      → other_recipient tx ≡ some a
      → changes_by_address tx (begin_applying_tx tx f) g
        ≡ some (add_change a (f a) (g a) (add_change tx.sender (f tx.sender) (g tx.sender) []))
  unfolding changes_by_address
  changes-both tx f g a e =
      rw (begin-both tx f a e, e, changes_by_address) (rw (begin-both tx f a e) refl)

  complete-changes :
      (tx : Tx) (before : List IdentityState) (g : Address → IdentityState) (st : StateStats)
      (m : Map Address IdentityStateChange)
      → changes_by_address tx before g ≡ some m
      → complete_applying_tx is_candidate tx before g st ≡ some (after tx m st)
  unfolding complete_applying_tx
  complete-changes tx before g st m e = rw (e, complete_applying_tx) refl

  pub complete_lem :
      (tx : Tx) (f g : Address → IdentityState) (st : StateStats)
      → (st' : StateStats) × (complete_applying_tx is_candidate tx (begin_applying_tx tx f) g st
          ≡ some st')
        × (st'.candidate_count_diff ≡ st.candidate_count_diff +ℤ tx_change tx f g)
  unfolding tx_change change
  complete_lem tx f g st =
      let s = tx.sender in
      elim (Option-cases (other_recipient tx)) [
        | inl e ↦
            let changes = add_change s (f s) (g s) [] in
            (
              after tx changes st,
              complete-changes tx (begin_applying_tx tx f) g st changes (changes-alone tx f g e),
              rw (e, tx_change)
                  (finish tx changes st ∙ count-one s (f s) (g s) st.candidate_count_diff),
            )
        | inr (a, e) ↦
            let changes = add_change a (f a) (g a) (add_change s (f s) (g s) []) in
            (
              after tx changes st,
              complete-changes tx (begin_applying_tx tx f) g st changes (changes-both tx f g a e),
              rw (e, tx_change)
                  (finish tx changes st
                    ∙ count-two s a (f s) (g s) (f a) (g a) st.candidate_count_diff (apart tx a e)),
            )
      ]

  -- The view of the states in which only one address has changed.
  abbrev with_one :
      (Address → IdentityState) → (Address → IdentityState) → Address → Address → IdentityState
  with_one f g x y = if x == y then g y else f y

  two_points :
      (f h g : Address → IdentityState) (s a : Address) (addrs : List Address)
      → h s ≡ g s
      → h a ≡ f a
      → change f h s +ℤ pos (candidates f addrs) ≡ pos (candidates h addrs)
      → change h g a +ℤ pos (candidates h addrs) ≡ pos (candidates g addrs)
      → (change f g s +ℤ change f g a) +ℤ pos (candidates f addrs) ≡ pos (candidates g addrs)
  unfolding change
  two_points f h g s a addrs at_s at_a first second =
      let first' : change f g s +ℤ pos (candidates f addrs) ≡ pos (candidates h addrs) =
        subst (λ z. step_of (f s) z +ℤ pos (candidates f addrs) ≡ pos (candidates h addrs)) at_s
          first in
      let second' : change f g a +ℤ pos (candidates h addrs) ≡ pos (candidates g addrs) =
        subst (λ z. step_of z (g a) +ℤ pos (candidates h addrs) ≡ pos (candidates g addrs)) at_a
          second in
      swap_front (change f g s) (change f g a) (pos (candidates f addrs))
      ∙ ap (λ z. change f g a +ℤ z) first'
      ∙ second'

  -- The number of candidates after a transaction is the number before it and its changes.
  pub tx_change_lem :
      (tx : Tx) (f g : Address → IdentityState) (addrs : List Address)
      → ChangesOwn tx f g
      → occurs tx.sender addrs ≡ 1
      → ((a : Address) → other_recipient tx ≡ some a → occurs a addrs ≡ 1)
      → tx_change tx f g +ℤ pos (candidates f addrs) ≡ pos (candidates g addrs)
  unfolding tx_change
  tx_change_lem tx f g addrs own sender_once to_once =
      let s = tx.sender in
      elim (Option-cases (other_recipient tx)) [
        | inl e ↦
            let agree : (y : Address) → (s == y) ≡ false → g y ≡ f y = λ y n. own y n (rw e refl) in
            rw (e, tx_change) (point_change f g s addrs agree sender_once)
        | inr (a, e) ↦
            let h : Address → IdentityState = λ y. if s == y then g y else f y in
            let to_h : (y : Address) → (s == y) ≡ false → h y ≡ f y = λ y n. rw n refl in
            let from_h : (y : Address) → (a == y) ≡ false → g y ≡ h y = λ y n.
              elim (Bool-cases (s == y)) [
                | inl same ↦ rw same refl
                | inr other ↦ rw other (own y other (rw e n))
              ] in
            rw (e, tx_change)
              (two_points f h g s a addrs (rw (==-refl s) refl) (rw (apart_sym tx a e) refl)
                (point_change f h s addrs to_h sender_once)
                (point_change h g a addrs from_h (to_once a e)))
      ]
