-- ===== src/Timestamps/Tests.antt =====
-- The timestamps on a run in which a save fails while a listener is at work.
use mathlib.Core.List.{Perm}
use idena_indexer.Base.{ℕ, ◌≡◌, refl, true, List, [], ◌∷◌, ◌++◌}
use idena_indexer.Timestamps.{
  MemPoolActionTimestamp, flip_key, no_timestamps, list_of, set_list, add_timestamp, add_timestamps,
  timestamps_to_save, is_empty,
}
use idena_indexer.Timestamps.Steps.{
  idle, System, init, Event, observed, advanced, run, step, observe, take_kind, save, return_kind,
  hand_over, save_data_at,
}
use idena_indexer.Timestamps.Conserve.{held, run_conserves, round, run-round}

abbrev at_time : ℕ → MemPoolActionTimestamp
at_time t = record { address = "0x01"; epoch = 7; time = t }

-- One timestamp is taken, another comes in, the save fails, and the first goes back behind it.
abbrev failed_save : List Event
failed_save =
    observed flip_key (at_time 1)
    ∷ advanced true
    ∷ advanced true
    ∷ advanced true
    ∷ advanced true
    ∷ advanced true
    ∷ observed flip_key (at_time 2)
    ∷ advanced true
    ∷ advanced true
    ∷ advanced true
    ∷ []

run-failed_save : list_of flip_key (run failed_save init).cache ≡ at_time 2 ∷ at_time 1 ∷ []
unfolding run step observe save_data_at take_kind save return_kind add_timestamp add_timestamps
    timestamps_to_save set_list hand_over is_empty
run-failed_save = refl

run_conserves_example :
    Perm (list_of flip_key (run failed_save init).seen) (held flip_key (run failed_save init))
run_conserves_example = run_conserves failed_save flip_key

abbrev cached : System
cached = record init { cache = record no_timestamps { flip_key_timestamps = at_time 1 ∷ [] } }

run-round_example :
    ((run round cached).phase ≡ idle)
    × (list_of flip_key (run round cached).handed_over ≡ [] ++ at_time 1 ∷ [])
    × (list_of flip_key (run round cached).cache ≡ [])
run-round_example = run-round cached refl flip_key
