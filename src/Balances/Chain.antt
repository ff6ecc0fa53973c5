-- ===== src/Balances/Chain.antt =====
-- indexer.go: the totals over a chain of blocks, between which the database may be reset.
use idena_indexer.Base.{◌≡◌, refl, sym, subst, Option, none, some, List, [], ◌∷◌, inl, inr}
use idena_indexer.Balances.{AppState, IndexerState, BlockInput, index_totals}
use idena_indexer.Balances.Totals.{IsInput, Tracks, IsNil, index_totals-Tracks}

-- A block goes through `indexBlock`, or `resetTo` has the state loaded anew, with nil totals.
pub data Event : Type 0 where
  block_indexed : BlockInput → Event
  state_loaded : Event

abbrev pub loaded : IndexerState
loaded = record { total_balance = none; total_stake = none }

unfoldable pub apply : Event → IndexerState → Option IndexerState
apply (block_indexed i) st = elim (index_totals i st) [
  | none ↦ none
  | some (rows, coins, st') ↦ some st'
]
apply state_loaded st = some loaded

-- `none` where a nil total is read.
unfoldable pub run : List Event → IndexerState → Option IndexerState
unfolding apply
run [] st = some st
run (e ∷ es) st = elim (apply e st) [ none ↦ none | some st' ↦ run es st' ]

-- The state of the chain that the totals are for, none after a reset.
abbrev pub state_after : Event → Option AppState
state_after (block_indexed i) = some i.new
state_after state_loaded = none

abbrev pub last_state : Option AppState → List Event → Option AppState
last_state cur [] = cur
last_state cur (e ∷ es) = last_state (state_after e) es

abbrev pub Fits : Option AppState → Event → Type 0
Fits none (block_indexed i) = IsInput i
Fits (some s) (block_indexed i) = IsInput i × (i.prev ≡ s)
Fits cur state_loaded = Unit

-- Each block starts from the state that the block before it ends in, unless there was a reset.
abbrev pub IsChain : Option AppState → List Event → Type 0
IsChain cur [] = Unit
IsChain cur (e ∷ es) = Fits cur e × IsChain (state_after e) es

abbrev pub IsFor : Option AppState → IndexerState → Type 0
IsFor none st = IsNil st
IsFor (some s) st = Tracks s st

apply-IsFor :
    (cur : Option AppState) (e : Event) (st : IndexerState)
    → Fits cur e
    → IsFor cur st
    → (st' : IndexerState) × (apply e st ≡ some st') × IsFor (state_after e) st'
unfolding apply
apply-IsFor none (block_indexed i) st f t =
    let (c, (st', e, t', same_balance, same_stake)) = index_totals-Tracks i st f (inl t) in
    (st', rw (e, apply) refl, t')
apply-IsFor (some s) (block_indexed i) st f t =
    let (c, (st', e, t', same_balance, same_stake)) =
      index_totals-Tracks i st (f.0) (inr (subst (λ r. Tracks r st) (sym (f.1)) t)) in
    (st', rw (e, apply) refl, t')
apply-IsFor none state_loaded st f t = (loaded, refl, (refl, refl))
apply-IsFor (some s) state_loaded st f t = (loaded, refl, (refl, refl))

-- Over any chain of blocks, with resets at any place, no nil total is read, and the totals of balance
-- and stake are the sums over all accounts of the last block's state, or nil where a reset came last.
-- The states are those of accounts without repetition outside which there is nothing, and the addresses
-- that the node reports for a block have no repetition and hold all that changes.
pub run-IsFor :
    (cur : Option AppState) (es : List Event) (st : IndexerState)
    → IsChain cur es
    → IsFor cur st
    → (st' : IndexerState) × (run es st ≡ some st') × IsFor (last_state cur es) st'
unfolding run
run-IsFor cur [] st c t = (st, refl, t)
run-IsFor cur (e ∷ es) st c t =
    let (st', eq, t') = apply-IsFor cur e st (c.0) t in
    let (st'', eq', t'') = run-IsFor (state_after e) es st' (c.1) t' in
    (st'', rw (eq, run) eq', t'')
