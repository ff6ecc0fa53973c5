-- ===== src/Timestamps/Steps.antt =====
-- The interleavings of `saveData`, one call at a time by its mutex, with the listeners that add
-- timestamps: each access to a list holds that list's own mutex and is one step.
use idena_indexer.Base.{Bool, Option, none, some, List, [], ◌∷◌, ◌++◌, if◌then◌else◌}
use idena_indexer.Timestamps.{
  MemPoolActionTimestamp, Kind, flip_private_keys_package, flip_key, answers_hash_tx,
  short_answers_tx, Timestamps, no_timestamps, add_timestamp, add_timestamps, timestamps_to_save,
  list_of, set_list, is_empty,
}

-- Where `saveData` stands: about to take the list of a kind into its local `data`, about to call the
-- database with `data`, or, after the call failed, about to give the list of a kind back.
pub data Phase : Type 0 where
  idle : Phase
  taking : Kind → Timestamps → Phase
  saving : Timestamps → Phase
  returning : Kind → Timestamps → Phase

-- `handed_over` is what `SaveMemPoolData` was called with where it gave no error, whatever the tables
-- keep of it (a row of the same address and epoch as another is dropped there); `seen` is all that the
-- listeners have added.
pub record System : Type 0 where
  pub cache : Timestamps
  pub phase : Phase
  pub handed_over : Timestamps
  pub seen : Timestamps

abbrev pub init : System
init = record {
  cache = no_timestamps;
  phase = idle;
  handed_over = no_timestamps;
  seen = no_timestamps;
}

-- The order in which `saveData` takes the lists, and in which it gives them back.
abbrev pub next_kind : Kind → Option Kind
next_kind flip_private_keys_package = some flip_key
next_kind flip_key = some answers_hash_tx
next_kind answers_hash_tx = some short_answers_tx
next_kind short_answers_tx = none

-- The lists of a call that the database accepts come behind those of the calls before.
unfoldable pub hand_over : Timestamps → Timestamps → Timestamps
hand_over d handed_over = record {
  flip_private_keys_package_timestamps =
      handed_over.flip_private_keys_package_timestamps ++ d.flip_private_keys_package_timestamps;
  flip_key_timestamps = handed_over.flip_key_timestamps ++ d.flip_key_timestamps;
  answers_hash_tx_timestamps =
      handed_over.answers_hash_tx_timestamps ++ d.answers_hash_tx_timestamps;
  short_answers_tx_timestamps =
      handed_over.short_answers_tx_timestamps ++ d.short_answers_tx_timestamps;
}

-- `data.X = indexer.getXToSave()`
unfoldable pub take_kind : Kind → Timestamps → System → System
unfolding timestamps_to_save
take_kind k d s =
    let (ts, c) = timestamps_to_save k s.cache in
    let d' = set_list k ts d in
    record s { cache = c; phase = elim (next_kind k) [ none ↦ saving d' | some k' ↦ taking k' d' ] }

-- Nothing to save ends the call; otherwise the database is called, and may fail.
unfoldable pub save : Bool → Timestamps → System → System
save failed d s =
    if is_empty d
    then record s { phase = idle }
    else if failed
    then record s { phase = returning flip_private_keys_package d }
    else record s { phase = idle; handed_over = hand_over d s.handed_over }

-- `indexer.addXs(data.X)`
unfoldable pub return_kind : Kind → Timestamps → System → System
unfolding add_timestamps
return_kind k d s = record s {
  cache = add_timestamps k (list_of k d) s.cache;
  phase = elim (next_kind k) [ none ↦ idle | some k' ↦ returning k' d ];
}

-- The next statement of `saveData`; `failed` is the database's answer, if it is called there.
unfoldable pub save_data_at : Phase → Bool → System → System
unfolding take_kind save return_kind
save_data_at idle failed s = record s { phase = taking flip_private_keys_package no_timestamps }
save_data_at (taking k d) failed s = take_kind k d s
save_data_at (saving d) failed s = save failed d s
save_data_at (returning k d) failed s = return_kind k d s

-- A listener adds one timestamp.
unfoldable pub observe : Kind → MemPoolActionTimestamp → System → System
unfolding add_timestamp
observe k t s = record s { cache = add_timestamp k t s.cache; seen = add_timestamp k t s.seen }

pub data Event : Type 0 where
  observed : Kind → MemPoolActionTimestamp → Event
  advanced : Bool → Event

unfoldable pub step : Event → System → System
unfolding observe save_data_at
step (observed k t) s = observe k t s
step (advanced failed) s = save_data_at s.phase failed s

unfoldable pub run : List Event → System → System
unfolding step
run [] s = s
run (e ∷ es) s = run es (step e s)
