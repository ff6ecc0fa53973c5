-- ===== src/Delegation/Switches.antt =====
-- delegation.go, `detectDelegationSwitches`: the switches lead from the delegations of the state before
-- a block to those of the state after it.
use idena_indexer.Base.{
  ℕ, ◌≡◌, refl, sym, ap, ◌∙◌, subst, Bool, true, false, Option, none, some, List, [], ◌∷◌, ◌++◌,
  Option-cases, Bool-cases, inl, inr, ◌==◌, ==_iff, if◌then◌else◌,
}
use idena_indexer.Base.Eq.{number_key}
use idena_indexer.Node.{Address}
use idena_indexer.Delegation.{
  Pointer, State, DelegationSwitch, Found, detect_delegation_switch,
  build_delegation_history_update, applying_failure, handle,
}

-- Whom each address delegates to.
abbrev pub Table : Type 0
Table = Address → Option Address

abbrev pub target : Option Pointer → Option Address
target none = none
target (some p) = some p.address

abbrev pub table_of : State → Table
table_of s a = target (s.delegatee a)

-- What the database does with the switches: each overwrites the delegatee of its delegator.
abbrev pub apply_switches : List DelegationSwitch → Table → Table
apply_switches [] t a = t a
apply_switches (s ∷ ss) t a =
    apply_switches ss (λ b. if b == s.delegator then target s.delegatee else t b) a

apply_switches-append :
    (ss : List DelegationSwitch) (s : DelegationSwitch) (t : Table) (a : Address)
    → apply_switches (ss ++ s ∷ []) t a
      ≡ (if a == s.delegator then target s.delegatee else apply_switches ss t a)
apply_switches-append [] s t a = refl
apply_switches-append (r ∷ ss) s t a =
    apply_switches-append ss s (λ b. if b == r.delegator then target r.delegatee else t b) a

-- Equal pointers point to the same address.
abbrev pub IsCoherent : State → State → Type 0
IsCoherent prev new =
    (a : Address) (p p' : Pointer)
    → prev.delegatee a ≡ some p
    → new.delegatee a ≡ some p'
    → p.location ≡ p'.location
    → p.address ≡ p'.address

-- The switch of an address, if there is one, is to its new delegatee; if there is none, it is kept.
abbrev IsSwitchOf : Address → State → State → Option DelegationSwitch → Type 0
IsSwitchOf a prev new none = table_of new a ≡ table_of prev a
IsSwitchOf a prev new (some s) = (s.delegator ≡ a) × (target s.delegatee ≡ table_of new a)

detect_delegation_switch_lem :
    (a : Address) (prev new : State)
    → IsCoherent prev new
    → IsSwitchOf a prev new (detect_delegation_switch a prev new)
unfolding detect_delegation_switch
detect_delegation_switch_lem a prev new c = elim (Option-cases (prev.delegatee a)) [
  | inl e ↦ elim (Option-cases (new.delegatee a)) [
    | inl e' ↦ rw (e, e', detect_delegation_switch) (ap target (e' ∙ sym e))
    | inr (p', e') ↦ rw (e, e', detect_delegation_switch) (refl, ap target (sym e'))
  ]
  | inr (p, e) ↦ elim (Option-cases (new.delegatee a)) [
    | inl e' ↦ rw (e, e', detect_delegation_switch) (refl, ap target (sym e'))
    | inr (p', e') ↦
        rw (e, e', detect_delegation_switch)
          (elim (Bool-cases (p.location == p'.location)) [
            | inl l ↦ rw l (
                ap target e'
                ∙ ap some (sym (c a p p' e e' ((==_iff p.location p'.location).0 l)))
                ∙ ap target (sym e))
            | inr l ↦ rw l (refl, ap target (sym e'))
          ])
  ]
]

-- The switches so far lead to the new delegatees of the addresses that were seen.
pub record Leads (prev new : State) (seen : Address → Bool) (ss : List DelegationSwitch)
    : Type 0 where
  pub leads :
      (a : Address)
      → apply_switches ss (table_of prev) a ≡ (if seen a then table_of new a else table_of prev a)

if_other : {A : Type 0} (b : Bool) {x y : A} → x ≡ y → (if b then x else y) ≡ x
if_other true h = refl
if_other false h = sym h

pub Leads-kept :
    (prev new : State) (d : Address) (ss : List DelegationSwitch) (seen : Address → Bool)
    → table_of new d ≡ table_of prev d
    → Leads prev new seen ss
    → Leads prev new (λ a. if a == d then true else seen a) ss
Leads-kept prev new d ss seen same l = record {
  leads = λ a. elim (Bool-cases (a == d)) [
    | inl e ↦
        let here : table_of new a ≡ table_of prev a =
          subst (λ b. table_of new b ≡ table_of prev b) (sym ((==_iff a d).0 e)) same in
        rw e (l.leads a ∙ if_other (seen a) here)
    | inr e ↦ rw e (l.leads a)
  ];
}

pub Leads-switched :
    (prev new : State) (d : Address) (s : DelegationSwitch) (ss : List DelegationSwitch)
    (seen : Address → Bool)
    → s.delegator ≡ d
    → target s.delegatee ≡ table_of new d
    → Leads prev new seen ss
    → Leads prev new (λ a. if a == d then true else seen a) (ss ++ s ∷ [])
Leads-switched prev new d s ss seen at to l = record {
  leads = λ a. apply_switches-append ss s (table_of prev) a ∙ elim (Bool-cases (a == d)) [
    | inl e ↦
        let e' : (a == s.delegator) ≡ true = ap (λ x. a == x) at ∙ e in
        rw (e, e') (to ∙ ap (table_of new) (sym ((==_iff a d).0 e)))
    | inr e ↦
        let e' : (a == s.delegator) ≡ false = ap (λ x. a == x) at ∙ e in rw (e, e') (l.leads a)
  ];
}

pub handle-Leads :
    (height : ℕ) (prev new : State) (d : Address) (reports : Bool) (found : Found)
    (seen : Address → Bool)
    → IsCoherent prev new
    → Leads prev new seen (found.0)
    → Leads prev new
        (λ a. if a == d then true else seen a)
        ((handle height prev new d reports found).0)
unfolding handle
handle-Leads height prev new d reports found seen c l =
    elim (detect_delegation_switch d prev new)
        as (λ o.
          IsSwitchOf d prev new o
          → (let r : Found = elim o [
            | some s ↦ (found.0 ++ s ∷ [], found.1 ++ build_delegation_history_update s height ∷ [])
            | none ↦ if reports then (found.0, found.1 ++ applying_failure d height ∷ []) else found
          ] in
              Leads prev new (λ a. if a == d then true else seen a) (r.0))) [
                | some s ↦ λ h. Leads-switched prev new d s (found.0) seen (h.0) (h.1) l
                | none ↦ λ h. elim (Bool-cases reports) [
                  | inl r ↦ rw r (Leads-kept prev new d (found.0) seen h l)
                  | inr r ↦ rw r (Leads-kept prev new d (found.0) seen h l)
                ]
              ]
      (detect_delegation_switch_lem d prev new c)
