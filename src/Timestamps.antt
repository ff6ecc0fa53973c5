-- ===== src/Timestamps.antt =====
-- core/mempool/mempool.go: the times at which the pool first saw an action, collected in four lists
-- and handed to the database every ten seconds.
pub mod Steps
pub mod Conserve
mod Tests
use Prim.Native.String.{String}
use idena_indexer.Base.{ℕ, ◌+◌, Bool, List, [], ◌∷◌, ◌++◌, length, ◌==◌}

-- `db.MemPoolActionTimestamp`.
pub record MemPoolActionTimestamp : Type 0 where
  pub address : String
  pub epoch : ℕ
  pub time : ℕ

-- The four kinds of action, one list for each.
pub data Kind : Type 0 where
  flip_private_keys_package flip_key answers_hash_tx short_answers_tx : Kind

-- `indexerCache`, and also `db.MemPoolData`, which has the same four lists.
pub record Timestamps : Type 0 where
  pub flip_private_keys_package_timestamps : List MemPoolActionTimestamp
  pub flip_key_timestamps : List MemPoolActionTimestamp
  pub answers_hash_tx_timestamps : List MemPoolActionTimestamp
  pub short_answers_tx_timestamps : List MemPoolActionTimestamp

abbrev pub no_timestamps : Timestamps
no_timestamps = record {
  flip_private_keys_package_timestamps = [];
  flip_key_timestamps = [];
  answers_hash_tx_timestamps = [];
  short_answers_tx_timestamps = [];
}

-- The list of one kind.
abbrev pub list_of : Kind → Timestamps → List MemPoolActionTimestamp
list_of flip_private_keys_package c = c.flip_private_keys_package_timestamps
list_of flip_key c = c.flip_key_timestamps
list_of answers_hash_tx c = c.answers_hash_tx_timestamps
list_of short_answers_tx c = c.short_answers_tx_timestamps

-- An assignment to the list of one kind.
unfoldable pub set_list : Kind → List MemPoolActionTimestamp → Timestamps → Timestamps
set_list flip_private_keys_package ts c = record c { flip_private_keys_package_timestamps = ts }
set_list flip_key ts c = record c { flip_key_timestamps = ts }
set_list answers_hash_tx ts c = record c { answers_hash_tx_timestamps = ts }
set_list short_answers_tx ts c = record c { short_answers_tx_timestamps = ts }

-- `addFlipKeyTimestamps` and its three siblings.
unfoldable pub add_timestamps : Kind → List MemPoolActionTimestamp → Timestamps → Timestamps
unfolding set_list
add_timestamps k ts c = set_list k (list_of k c ++ ts) c

-- `addFlipKeyTimestamp` and its siblings.
unfoldable pub add_timestamp : Kind → MemPoolActionTimestamp → Timestamps → Timestamps
unfolding set_list
add_timestamp k t c = set_list k (list_of k c ++ t ∷ []) c

-- `getFlipKeyTimestampsToSave` and its siblings: what was cached, and the cache with nil for it.
unfoldable pub timestamps_to_save : Kind → Timestamps → List MemPoolActionTimestamp × Timestamps
unfolding set_list
timestamps_to_save k c = (list_of k c, set_list k [] c)

-- The sum of lengths that `saveData` tests.
unfoldable pub is_empty : Timestamps → Bool
is_empty d =
    length d.flip_private_keys_package_timestamps
      + length d.flip_key_timestamps
      + length d.answers_hash_tx_timestamps
      + length d.short_answers_tx_timestamps
    == 0
