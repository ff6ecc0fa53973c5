-- ===== src/IndexBlock.antt =====
-- indexer/indexer.go, `indexBlock`: the loop that brings the database to an incoming block, going back
-- over blocks that the chain dropped and over a change of genesis.
pub mod Table
pub mod Order
pub mod Genesis
pub mod Progress
pub mod Paths
mod Tests
use idena_indexer.Base.{
  ℕ, ◌+◌, ◌-◌, ◌%◌, ◌^◌, Bool, true, false, ◌&&◌, ◌||◌, not, Option, none, some, List, [], ◌∷◌, ltb,
  leb, ◌==◌, if◌then◌else◌,
}
use idena_indexer.Node.{Hash}

-- The parts of `types.Block` that the loop reads. A block stands also for the row that
-- `convertIncomingData` makes of it.
pub record Block : Type 0 where
  pub height : ℕ
  pub hash : Hash
  pub parent_hash : Hash

-- What the loop does to the database, beside reading from it.
pub data Effect : Type 0 where
  saved : Block → Effect
  restored : Effect
  reset : ℕ → Effect

-- The fields of `Indexer` and `indexerState` that the loop reads and writes, the table of blocks, and
-- the effects so far, the latest first. The state is loaded, since `Start` loads it.
pub record Indexer : Type 0 where
  pub enabled : Bool
  pub blocks : List Block
  pub last_indexed_height : ℕ
  pub restore : Bool
  pub first_block_height : ℕ
  pub first_block_height_initialized : Bool
  pub log : List Effect

-- What the outside does in one pass of the loop: the genesis block that the node gives, nil or not;
-- whether `ResetTo` fails; and whether a state cannot be read, on which the code panics. Some calls of
-- the database are repeated until they succeed, and change nothing until then: whether they ever do,
-- for the reads of `loadState` and for `Save` of the genesis block and of the incoming one.
pub record Pass : Type 0 where
  pub loads : Bool
  pub genesis_saves : Bool
  pub saves : Bool
  pub genesis : Option Block
  pub reset_fails : Bool
  pub state_fails : Bool

-- `uint64` subtraction.
abbrev pub sub_uint64 : ℕ → ℕ → ℕ
sub_uint64 a b = (a + 2 ^ 64 - b) % 2 ^ 64

-- `SELECT COALESCE(MAX(HEIGHT), 0) FROM BLOCKS`
unfoldable pub max_height : List Block → ℕ
max_height [] = 0
max_height (b ∷ bs) = let rest = max_height bs in if leb rest b.height then b.height else rest

-- `reset_to` deletes the blocks above a height.
unfoldable pub blocks_up_to : ℕ → List Block → List Block
blocks_up_to h [] = []
blocks_up_to h (b ∷ bs) = let rest = blocks_up_to h bs in if leb b.height h then b ∷ rest else rest

-- `initFirstBlockHeight`; `none` is the panic on a nil genesis block.
unfoldable pub init_first_block_height : Option Block → Indexer → Option Indexer
init_first_block_height genesis ix =
    if ix.first_block_height_initialized
    then some ix
    else if ix.last_indexed_height == 0
    then elim genesis [
      | none ↦ none
      | some g ↦
          some (record ix { first_block_height = g.height; first_block_height_initialized = true })
    ]
    else some (record ix { first_block_height = 1; first_block_height_initialized = true })

-- `resetTo` once the database has done it and `loadState` has returned.
unfoldable pub reset_to : Option Block → ℕ → Indexer → Option Indexer
unfolding max_height blocks_up_to
reset_to genesis height ix =
    let kept = blocks_up_to height ix.blocks in
    init_first_block_height genesis (record ix {
      blocks = kept;
      last_indexed_height = max_height kept;
      first_block_height_initialized = false;
      log = reset height ∷ ix.log;
    })

-- `saveData`, which tries again until the database accepts; `none` where it never does.
unfoldable pub save_data : Bool → Block → Indexer → Option Indexer
save_data accepts b ix =
    if accepts then some (record ix { blocks = b ∷ ix.blocks; log = saved b ∷ ix.log }) else none

-- How a pass ends: with another pass, and the local `genesisBlock` for it; with the block indexed; in a
-- panic; or never, in a loop within it that does not end.
pub data Outcome : Type 0 where
  retry : Option Block → Indexer → Outcome
  done : Indexer → Outcome
  panicked : Outcome
  hangs : Indexer → Outcome

unfoldable pub restore_if_needed : Indexer → Indexer
restore_if_needed ix =
    if ix.restore then record ix { restore = false; log = restored ∷ ix.log } else ix

-- The restoring if it is due, and the block.
unfoldable pub process_block : Pass → Block → Indexer → Outcome
unfolding save_data
process_block p b ix =
    let ready : Indexer = restore_if_needed ix in
    elim (save_data p.saves b ready) [
      | none ↦ hangs ready
      | some ix' ↦ done (record ix' { last_indexed_height = b.height })
    ]

-- The rest of the loop's body, where the height is the expected one: the genesis block if there is a
-- new one, the restoring if it is due, and the block.
unfoldable pub process : Pass → Block → Option Block → Indexer → Outcome
unfolding save_data
process p b genesis ix = if p.state_fails then panicked else elim genesis [
  | none ↦ process_block p b ix
  | some g ↦ elim (save_data p.genesis_saves g ix) [
    | none ↦ hangs ix
    | some ix' ↦ process_block p b ix'
  ]
]

-- The database is reset, and no state is loaded for it.
abbrev pub reset_only : ℕ → Indexer → Indexer
reset_only height ix = record ix {
  blocks = blocks_up_to height ix.blocks;
  log = reset height ∷ ix.log;
}

unfoldable pub after_reset : Pass → Block → ℕ → Option Block → Indexer → Outcome
after_reset p b height genesis ix =
    if p.reset_fails
    then retry genesis ix
    else if not p.loads
    then hangs (reset_only height ix)
    else elim (reset_to p.genesis height ix) [
      | none ↦ panicked
      | some ix' ↦
          retry genesis
            (record ix' { restore = ix'.restore || not (b.height == ix'.first_block_height) })
    ]

-- The block is the first after a new genesis, and not the first of all.
unfoldable pub follows_new_genesis : Hash → Block → Indexer → Bool
follows_new_genesis genesis_hash b ix =
    not (b.height == ix.first_block_height) && b.parent_hash == genesis_hash

-- The branch for a height below the expected one.
unfoldable pub roll_back : Pass → Hash → Block → Option Block → Indexer → Outcome
roll_back p genesis_hash b genesis ix =
    let height = sub_uint64 b.height 1 in
    if follows_new_genesis genesis_hash b ix
    then elim p.genesis [
      | none ↦ retry none ix
      | some g ↦ after_reset p b (sub_uint64 height 1) (some g) ix
    ]
    else after_reset p b height genesis ix

unfoldable pub height_to_index : Option Block → Indexer → ℕ
height_to_index genesis ix = ix.last_indexed_height + 1 + elim genesis [ none ↦ 0 | some _ ↦ 1 ]

-- One pass of the loop.
unfoldable pub pass : Pass → Hash → Block → Option Block → Indexer → Outcome
pass p genesis_hash b genesis ix =
    if ltb (height_to_index genesis ix) b.height
    then elim p.genesis [
      | none ↦ retry none ix
      | some g ↦ if b.height == g.height + 1 then process p b (some g) ix else panicked
    ]
    else if ltb b.height (height_to_index genesis ix)
    then roll_back p genesis_hash b genesis ix
    else process p b genesis ix

-- The loop, over what the outside does in its passes; it ends in `retry` where these run out.
unfoldable pub index_from : List Pass → Hash → Block → Option Block → Indexer → Outcome
index_from [] genesis_hash b genesis ix = retry genesis ix
index_from (p ∷ ps) genesis_hash b genesis ix = elim (pass p genesis_hash b genesis ix) [
  | retry genesis' ix' ↦ index_from ps genesis_hash b genesis' ix'
  | done ix' ↦ done ix'
  | panicked ↦ panicked
  | hangs ix' ↦ hangs ix'
]

-- Where the indexer is disabled, the method never returns.
unfoldable pub index_block : Option Block → List Pass → Hash → Block → Indexer → Outcome
unfolding init_first_block_height
index_block genesis ps genesis_hash b ix =
    if not ix.enabled then hangs ix else elim (init_first_block_height genesis ix) [
      | none ↦ panicked
      | some ix' ↦ index_from ps genesis_hash b none ix'
    ]
