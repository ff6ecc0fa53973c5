-- ===== src/IndexBlock/Paths.antt =====
-- indexer.go, `indexBlock`: what becomes of the database as a whole, from the state that `Start` loads.
use idena_indexer.Base.{
  ℕ, ◌≡◌, sym, ap, ◌∙◌, subst, true, false, not, if◌then◌else◌, Option, none, some, List, ◌∷◌,
  Option-cases, inl, inr,
}
use idena_indexer.Node.{Hash}
use idena_indexer.IndexBlock.{
  Block, Indexer, Pass, saved, restored, reset, panicked, hangs, sub_uint64, max_height,
  blocks_up_to, init_first_block_height, index_from, index_block,
}
use idena_indexer.IndexBlock.Table.{Ascends, IsOrdered, AllGenesis, init_first_block_height_keeps}
use idena_indexer.IndexBlock.Order.{Sound, index_from-Sound}

init_first_block_height-IsOrdered :
    (genesis : Option Block) (ix : Indexer) {ix' : Indexer}
    → IsOrdered ix
    → init_first_block_height genesis ix ≡ some ix'
    → IsOrdered ix'
init_first_block_height-IsOrdered genesis ix o e =
    let keeps = init_first_block_height_keeps genesis ix e in
    record {
      ascends = subst Ascends (sym keeps.0) o.ascends;
      last = keeps.1 ∙ o.last ∙ ap max_height (sym keeps.0);
    }

-- Whatever fails between the passes, and however often the loop goes back, `indexBlock` leaves the
-- table of blocks strictly ascending, also where it never returns, because the indexer is disabled or a
-- call of the database is repeated for ever. After each pass that is followed by another the state's
-- height is that of the last block; where it returns, the incoming block is the last of the table, its
-- height the state's, and no restoring is left undone. The node's genesis block has a height above
-- zero, and stands right below a block whose parent it is.
pub index_block-Sound :
    (genesis : Option Block) (ps : List Pass) (genesis_hash : Hash) (b : Block) (ix : Indexer)
    → IsOrdered ix
    → AllGenesis genesis_hash b ps
    → Sound b (index_block genesis ps genesis_hash b ix)
unfolding index_block
index_block-Sound genesis ps genesis_hash b ix o g =
    elim ix.enabled
      as (λ on. Sound b (
        if not on then hangs ix else elim (init_first_block_height genesis ix) [
          | none ↦ panicked
          | some ix' ↦ index_from ps genesis_hash b none ix'
        ])) [
          | false ↦ o.ascends
          | true ↦ elim (Option-cases (init_first_block_height genesis ix)) [
            | inl e ↦ rw e tt
            | inr (ix', e) ↦ rw e (
                index_from-Sound ps genesis_hash b none ix'
                  (init_first_block_height-IsOrdered genesis ix o e) tt g)
          ]
        ]

-- The state after the reset that a reorganisation asks for, and after the block that causes it.
abbrev pub gone_back : Block → Indexer → Indexer
gone_back b ix = record ix {
  blocks = blocks_up_to (sub_uint64 b.height 1) ix.blocks;
  last_indexed_height = sub_uint64 b.height 1;
  restore = true;
  first_block_height = 1;
  first_block_height_initialized = true;
  log = reset (sub_uint64 b.height 1) ∷ ix.log;
}

abbrev replaced : Block → ℕ → Indexer → Indexer
replaced b height ix = record ix {
  blocks = b ∷ blocks_up_to height ix.blocks;
  last_indexed_height = b.height;
  restore = false;
  first_block_height = 1;
  first_block_height_initialized = true;
  log = saved b ∷ restored ∷ reset height ∷ ix.log;
}
