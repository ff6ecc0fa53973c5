-- ===== src/TxStates.antt =====
-- core/stats/collector.go, BeginApplyingTx and CompleteApplyingTx: the changes of identity states by each
-- transaction, and how the number of candidates changes with them.
pub mod Block
pub mod Candidates
mod Tests
use idena_indexer.Base.{
  ℕ, ◌+◌, Bool, true, false, ◌&&◌, not, Option, none, some, List, [], ◌∷◌, ◌++◌, ◌==◌,
  if◌then◌else◌, get_elem?, length,
}
use idena_indexer.Base.Int.{ℤ, pos, negsuc, ◌+ℤ◌}
use idena_indexer.Base.Eq.{number_key}
use idena_indexer.Base.Map.{Map, lookup, insert}
use idena_indexer.Node.{Address, Hash}

-- `state.IdentityState` of idena-go, by its number, and `state.Candidate`.
abbrev pub IdentityState : Type 0
IdentityState = ℕ

-- A transaction, as far as these calls read it.
pub record Tx : Type 0 where
  pub hash : Hash
  pub sender : Address
  pub to : Option Address

pub record IdentityStateChange : Type 0 where
  pub prev_state : IdentityState
  pub new_state : IdentityState

pub record StateStats : Type 0 where
  pub identity_state_changes : Map Hash (Map Address IdentityStateChange)
  pub candidate_count_diff : ℤ

-- `tx.To != nil && *tx.To != sender`
unfoldable pub other_recipient : Tx → Option Address
other_recipient tx = elim tx.to [ none ↦ none | some a ↦ if a == tx.sender then none else some a ]

-- `c.pending.identityStates`
unfoldable pub begin_applying_tx : Tx → (Address → IdentityState) → List IdentityState
begin_applying_tx tx state_of = elim (other_recipient tx) [
  | none ↦ state_of tx.sender ∷ []
  | some a ↦ state_of tx.sender ∷ state_of a ∷ []
]

abbrev pub add_change :
    Address
    → IdentityState
    → IdentityState
    → Map Address IdentityStateChange
    → Map Address IdentityStateChange
add_change a prev new m =
    if prev == new then m else insert a (record { prev_state = prev; new_state = new }) m

-- `none` where the states before are fewer than are read.
unfoldable pub changes_by_address :
    Tx → List IdentityState → (Address → IdentityState) → Option (Map Address IdentityStateChange)
changes_by_address tx before state_of = elim (get_elem? before 0) [
  | none ↦ none
  | some prev ↦
      let changes = add_change tx.sender prev (state_of tx.sender) [] in
      elim (other_recipient tx) [
        | none ↦ some changes
        | some a ↦ elim (get_elem? before 1) [
          | none ↦ none
          | some prev' ↦ some (add_change a prev' (state_of a) changes)
        ]
      ]
]

-- `is_candidate` is the test for `state.Candidate`.
module _ (is_candidate : IdentityState → Bool) where
  abbrev pub diff_of : IdentityStateChange → ℤ
  diff_of c =
      if is_candidate c.prev_state && not (is_candidate c.new_state)
      then negsuc 0
      else if is_candidate c.new_state && not (is_candidate c.prev_state)
      then pos 1
      else pos 0

  unfoldable pub count_changes : Map Address IdentityStateChange → ℤ → ℤ
  count_changes [] diff = diff
  count_changes ((a, c) ∷ m) diff = count_changes m (diff +ℤ diff_of c)

  unfoldable pub complete_applying_tx :
      Tx → List IdentityState → (Address → IdentityState) → StateStats → Option StateStats
  unfolding count_changes changes_by_address
  complete_applying_tx tx before state_of st = elim (changes_by_address tx before state_of) [
    | none ↦ none
    | some changes ↦ some (
        if length changes == 0 then st else record {
          identity_state_changes = insert tx.hash changes st.identity_state_changes;
          candidate_count_diff = count_changes changes st.candidate_count_diff;
        })
  ]
