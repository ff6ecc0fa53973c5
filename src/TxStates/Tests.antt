-- ===== src/TxStates/Tests.antt =====
-- A block in which an invited identity becomes a candidate and another candidate is killed.
use idena_indexer.Base.{zero, Bool, some, List, [], ◌∷◌, ◌==◌, if◌then◌else◌}
use idena_indexer.Base.Int.{pos}
use idena_indexer.Node.{Address}
use idena_indexer.TxStates.{IdentityState, Tx, StateStats}
use idena_indexer.TxStates.Block.{Applied}

-- Here a candidate has number 2, who is invited 1, and 5 stands for a state after both.
abbrev is_candidate : IdentityState → Bool
is_candidate s = s == 2

abbrev before : Address → IdentityState
before a = if a == 7 then 1 else if a == 8 then 2 else 0

abbrev activated : Address → IdentityState
activated a = if a == 7 then 5 else if a == 9 then 2 else before a

abbrev killed : Address → IdentityState
killed a = if a == 8 then 5 else activated a

abbrev activation : Tx
activation = record { hash = 100; sender = 7; to = some 9 }

abbrev kill : Tx
kill = record { hash = 101; sender = 8; to = some 8 }

abbrev txs : List Applied
txs = (activation, activated) ∷ (kill, killed) ∷ []

abbrev addrs : List Address
addrs = 7 ∷ 8 ∷ 9 ∷ []

abbrev no_stats : StateStats
no_stats = record { identity_state_changes = []; candidate_count_diff = pos zero }
