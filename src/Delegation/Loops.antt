-- ===== src/Delegation/Loops.antt =====
-- delegation.go, `detectDelegationSwitches`: its three loops, and the function as a whole.
use idena_indexer.Base.{
  ℕ, ◌≡◌, refl, sym, ap, ◌∙◌, Bool, true, false, none, some, List, [], ◌∷◌, map, arith,
  Option-cases, Bool-cases, inl, inr, ◌==◌, ==_iff, if◌then◌else◌,
}
use idena_indexer.Base.Eq.{number_key}
use idena_indexer.Base.Map.{Map, lookup, insert, lookup-insert}
use idena_indexer.Node.{Address, Transaction, Node}
use idena_indexer.Delegation.{
  State, Block, KilledInfo, DelegationSwitch, Found, Mark, mark, killed_loop, handle, is_key,
  delegations_loop, txs_loop, detect_delegation_switches,
}
use idena_indexer.Delegation.Switches.{
  table_of, target, apply_switches, IsCoherent, Leads, Leads-kept, Leads-switched, handle-Leads,
}

abbrev pub listed : Address → List Address → Bool
listed a [] = false
listed a (b ∷ bs) = let rest = listed a bs in if a == b then true else rest

-- The addresses seen so far, and some more.
abbrev pub also : (Address → Bool) → (Address → Bool) → Address → Bool
also more seen a = if more a then true else seen a

Leads-as :
    (prev new : State) (seen seen' : Address → Bool) (ss : List DelegationSwitch)
    → ((a : Address) → seen a ≡ seen' a)
    → Leads prev new seen ss
    → Leads prev new seen' ss
Leads-as prev new seen seen' ss same l = record {
  leads = λ a. l.leads a ∙ ap (λ b. if b then table_of new a else table_of prev a) (same a);
}

is_key-cons :
    {V : Type 0} (a j : Address) (v : V) (m : Map Address V)
    → is_key a ((j, v) ∷ m) ≡ (if a == j then true else is_key a m)
unfolding is_key lookup
is_key-cons a j v m = ground arith

is_key-insert :
    {V : Type 0} (a j : Address) (v : V) (m : Map Address V)
    → is_key a (insert j v m) ≡ (if a == j then true else is_key a m)
unfolding is_key
is_key-insert a j v m = ground (arith, lookup-insert j a v m, ==_iff a j, ==_iff j a)

killed_loop-Leads :
    (height : ℕ) (prev new : State) (killed : Map Address KilledInfo) (found : Found)
    (seen : Address → Bool)
    → ((a : Address) → is_key a killed ≡ true → new.delegatee a ≡ none)
    → Leads prev new seen (found.0)
    → Leads prev new (also (λ a. is_key a killed) seen) ((killed_loop height prev killed found).0)
unfolding killed_loop is_key lookup
killed_loop-Leads height prev new [] found seen gone l = l
killed_loop-Leads height prev new ((j, info) ∷ killed) found seen gone l =
    let gone' : new.delegatee j ≡ none =
      gone j (ground (arith, is_key-cons j j info killed, (==_iff j j).1 refl)) in
    let rest : (a : Address) → is_key a killed ≡ true → new.delegatee a ≡ none =
      λ a h. gone a (ground (arith, is_key-cons a j info killed)) in
    let order : (a : Address)
        → also (λ b. is_key b killed) (also (λ b. b == j) seen) a
          ≡ also (λ b. is_key b ((j, info) ∷ killed)) seen a =
      λ a. ground (arith, is_key-cons a j info killed) in
    elim (Option-cases (prev.delegatee j)) [
      | inl e ↦
          rw (e, killed_loop)
            (Leads-as prev new _ _ _ order (
              killed_loop-Leads height prev new killed found (also (λ a. a == j) seen) rest
                (Leads-kept prev new j (found.0) seen (ap target (gone' ∙ sym e)) l)))
      | inr (p, e) ↦
          rw (e, killed_loop)
            (Leads-as prev new _ _ _ order (
              killed_loop-Leads height prev new killed _ (also (λ a. a == j) seen) rest
                (Leads-switched prev new j _ (found.0) seen refl (ap target (sym gone')) l)))
    ]

-- The addresses of a set have been seen.
abbrev Seen : {V : Type 0} → Map Address V → (Address → Bool) → Type 0
Seen m seen = (a : Address) → is_key a m ≡ true → seen a ≡ true

listed_seen :
    (d : Address) (ds : List Address) (seen : Address → Bool)
    → seen d ≡ true
    → (a : Address) → also (λ b. listed b ds) seen a ≡ also (λ b. listed b (d ∷ ds)) seen a
listed_seen d ds seen h a = elim (Bool-cases (a == d)) [
  | inl e ↦ let here : seen a ≡ true = ap seen ((==_iff a d).0 e) ∙ h in ground arith
  | inr e ↦ ground arith
]

delegations_loop-Leads :
    (height : ℕ) (prev new : State) (killed : Map Address KilledInfo) (ds : List Address)
    (found : Found) (handled : Map Address Mark) (seen : Address → Bool)
    → IsCoherent prev new
    → Seen killed seen
    → Seen handled seen
    → Leads prev new seen (found.0)
    → let r = delegations_loop height prev new killed ds (found, handled) in
      Leads prev new (also (λ a. listed a ds) seen) (r.0.0)
      × Seen (r.1) (also (λ a. listed a ds) seen)
unfolding delegations_loop
delegations_loop-Leads height prev new killed [] found handled seen c k h l = (l, h)
delegations_loop-Leads height prev new killed (d ∷ ds) found handled seen c k h l =
    elim (Bool-cases (is_key d killed)) [
      | inl e ↦
          let ih = delegations_loop-Leads height prev new killed ds found handled seen c k h l in
          let order = listed_seen d ds seen (k d e) in
          rw (e, delegations_loop)
            (Leads-as prev new _ _ _ order (ih.0), (λ a i. sym (order a) ∙ ih.1 a i))
      | inr e ↦
          let ih =
            delegations_loop-Leads height prev new killed ds (handle height prev new d true found)
              (insert d mark handled) (also (λ a. a == d) seen) c (λ a i. ground (arith, k a))
              (λ a i. ground (arith, h a, is_key-insert a d mark handled))
              (handle-Leads height prev new d true found seen c l) in
          let order : (a : Address)
              → also (λ b. listed b ds) (also (λ b. b == d) seen) a
                ≡ also (λ b. listed b (d ∷ ds)) seen a =
            λ a. ground arith in
          rw (e, delegations_loop)
            (Leads-as prev new _ _ _ order (ih.0), (λ a i. sym (order a) ∙ ih.1 a i))
    ]

txs_loop-Leads :
    (n : Node) (delegate_tx height : ℕ) (prev new : State) (killed : Map Address KilledInfo)
    (handled : Map Address Mark) (txs : List Transaction) (found : Found) (seen : Address → Bool)
    → IsCoherent prev new
    → Seen killed seen
    → Seen handled seen
    → Leads prev new seen (found.0)
    → Leads prev new
        (also (λ a. listed a (map n.sender txs)) seen)
        ((txs_loop n delegate_tx height prev new killed handled txs found).0)
unfolding txs_loop
txs_loop-Leads n delegate_tx height prev new killed handled [] found seen c k h l = l
txs_loop-Leads n delegate_tx height prev new killed handled (tx ∷ txs) found seen c k h l =
    let d = n.sender tx in
    let skip = λ (e : seen d ≡ true).
      Leads-as prev new _ _ _ (listed_seen d (map n.sender txs) seen e)
        (txs_loop-Leads n delegate_tx height prev new killed handled txs found seen c k h l) in
    elim (Bool-cases (is_key d killed)) [
      | inl e ↦ rw (e, txs_loop) (skip (k d e))
      | inr e ↦
          rw (e, txs_loop)
            (elim (Bool-cases (is_key d handled)) [
              | inl e' ↦ rw e' (skip (h d e'))
              | inr e' ↦ rw e' (
                  Leads-as prev new _ _ _ (λ a. ground arith)
                    (txs_loop-Leads n delegate_tx height prev new killed handled txs _
                      (also (λ a. a == d) seen) c (λ a i. ground (arith, k a))
                      (λ a i. ground (arith, h a))
                      (handle-Leads height prev new d (tx.tx_type == delegate_tx) found seen c l)))
            ])
    ]

-- The addresses whose delegation a block may change.
abbrev pub may_switch : Node → State → Map Address KilledInfo → List Transaction → Address → Bool
may_switch n prev killed txs =
    also (λ a. listed a (map n.sender txs))
      (also (λ a. listed a prev.delegations) (also (λ a. is_key a killed) (λ a. false)))

-- In a block with an identity update, the switches that are found, each overwriting the delegatee of
-- its delegator, turn the delegations of the state before into those of the state after. Killed addresses
-- delegate to nobody after the block; only they, those with a pending switch and the senders of the
-- block's switching transactions change their delegation; and equal pointers point to the same address.
pub detect_delegation_switches-Leads :
    (n : Node) (delegate_tx : ℕ) (b : Block) (prev new : State) (killed : Map Address KilledInfo)
    (txs : List Transaction)
    → b.identity_update ≡ true
    → IsCoherent prev new
    → ((a : Address) → is_key a killed ≡ true → new.delegatee a ≡ none)
    → ((a : Address) → may_switch n prev killed txs a ≡ false → table_of new a ≡ table_of prev a)
    → (a : Address)
    → apply_switches
        ((detect_delegation_switches n delegate_tx (some b) prev new killed txs).0)
        (table_of prev)
        a
      ≡ table_of new a
unfolding detect_delegation_switches is_key lookup
detect_delegation_switches-Leads n delegate_tx b prev new killed txs u c gone kept a =
    let first =
      killed_loop-Leads b.height prev new killed ([], []) (λ a. false) gone
        (record { leads = λ a. refl }) in
    let second =
      delegations_loop-Leads b.height prev new killed prev.delegations
        (killed_loop b.height prev killed ([], [])) [] (also (λ a. is_key a killed) (λ a. false)) c
        (λ a i. ground arith) (λ a i. ground arith) first in
    let third =
      txs_loop-Leads n delegate_tx b.height prev new killed _ txs _ _ c (λ a i. ground arith)
        (second.1) (second.0) in
    rw (u, detect_delegation_switches)
      (third.leads a ∙ elim (Bool-cases (may_switch n prev killed txs a)) [
        | inl e ↦ rw e refl
        | inr e ↦ rw e (sym (kept a e))
      ])
