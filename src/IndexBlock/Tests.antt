-- ===== src/IndexBlock/Tests.antt =====
-- indexer.go, `indexBlock`, on a table of three blocks, of which the chain replaces the last two.
use idena_indexer.Base.{ℕ, ◌≡◌, refl, true, false, none, some, [], ◌∷◌, arith}
use idena_indexer.Node.{Hash}
use idena_indexer.IndexBlock.{
  Block, Indexer, Pass, done, panicked, saved, restored, reset, index_block,
  init_first_block_height, index_from, pass, height_to_index, roll_back, follows_new_genesis,
  after_reset, reset_to, blocks_up_to, max_height, process, process_block, save_data,
  restore_if_needed,
}
use idena_indexer.IndexBlock.Table.{IsOrdered, IsGenesis}
use idena_indexer.IndexBlock.Order.{Sound}
use idena_indexer.IndexBlock.Paths.{index_block-Sound}

abbrev block : ℕ → Hash → Hash → Block
block h own parent = record { height = h; hash = own; parent_hash = parent }

abbrev first : Block
first = block 1 100 99

abbrev before_fork : Indexer
before_fork = record {
  enabled = true;
  blocks = block 3 103 102 ∷ block 2 102 100 ∷ first ∷ [];
  last_indexed_height = 3;
  restore = false;
  first_block_height = 1;
  first_block_height_initialized = true;
  log = [];
}

abbrev incoming : Block
incoming = block 2 202 100

abbrev failing : Pass
failing = record {
  loads = true;
  genesis_saves = true;
  saves = true;
  genesis = some first;
  reset_fails = true;
  state_fails = false;
}

abbrev good : Pass
good = record {
  loads = true;
  genesis_saves = true;
  saves = true;
  genesis = some first;
  reset_fails = false;
  state_fails = false;
}

before_fork-IsOrdered : IsOrdered before_fork
unfolding max_height
before_fork-IsOrdered = record {
  ascends = (omega arith, (omega arith, (omega arith, tt)));
  last = refl;
}

node-IsGenesis : (p : Pass) → p.genesis ≡ some first → IsGenesis 98 incoming p
node-IsGenesis p h g e = ground arith

-- The genesis block is another one's parent: the fork is an ordinary one.
after_fork :
    index_block none (failing ∷ good ∷ good ∷ []) 98 incoming before_fork
    ≡ done (record before_fork {
      blocks = incoming ∷ first ∷ [];
      last_indexed_height = 2;
      log = saved incoming ∷ restored ∷ reset 1 ∷ [];
    })
unfolding index_block init_first_block_height index_from pass height_to_index roll_back
    follows_new_genesis after_reset reset_to blocks_up_to max_height process process_block save_data
    restore_if_needed
after_fork = refl

-- A block above a gap, with a genesis block that does not stand below it.
gap : index_block none (good ∷ []) 98 (block 9 209 208) before_fork ≡ panicked
unfolding index_block init_first_block_height index_from pass height_to_index
gap = refl

index_block-Sound_example :
    Sound incoming (index_block none (failing ∷ good ∷ good ∷ []) 98 incoming before_fork)
index_block-Sound_example =
    index_block-Sound none (failing ∷ good ∷ good ∷ []) 98 incoming before_fork
      before_fork-IsOrdered
      (node-IsGenesis failing refl, (node-IsGenesis good refl, (node-IsGenesis good refl, tt)))
