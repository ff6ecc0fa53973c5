-- ===== src/IndexBlock/Table.antt =====
-- indexer.go, `indexBlock`: the table of blocks in order of height, and what
-- the reset of the database leaves of it.
use idena_indexer.Base.{
  ℕ, ◌+◌, ◌≤◌, ◌<◌, ◌≡◌, sym, ap, ◌∙◌, subst, Option, none, some, List, [], ◌∷◌, arith,
}
use idena_indexer.Node.{Hash}
use idena_indexer.IndexBlock.{
  Block, Indexer, Pass, max_height, blocks_up_to, init_first_block_height, reset_to,
}

-- Each block is higher than all before it, and than zero.
abbrev pub Ascends : List Block → Type 0
Ascends [] = Unit
Ascends (b ∷ bs) = (max_height bs < b.height) × Ascends bs

-- The table is in order, and the state's height is that of its last block.
pub record IsOrdered (ix : Indexer) : Type 0 where
  pub ascends : Ascends ix.blocks
  pub last : ix.last_indexed_height ≡ max_height ix.blocks

-- The local `genesisBlock`, if there is one, stands right below the block.
abbrev pub PrecedesBy : Option Block → Block → Type 0
PrecedesBy none b = Unit
PrecedesBy (some g) b = g.height + 1 ≡ b.height

-- What the node promises of its genesis block: it has a height above zero, and a block whose parent
-- it is stands right above it.
abbrev pub IsGenesis : Hash → Block → Pass → Type 0
IsGenesis genesis_hash b p =
    (g : Block)
    → p.genesis ≡ some g
    → (0 < g.height) × (b.parent_hash ≡ genesis_hash → g.height + 1 ≡ b.height)

abbrev pub AllGenesis : Hash → Block → List Pass → Type 0
AllGenesis genesis_hash b [] = Unit
AllGenesis genesis_hash b (p ∷ ps) = IsGenesis genesis_hash b p × AllGenesis genesis_hash b ps

pub max_height-cons :
    (b : Block) (bs : List Block) → max_height bs < b.height → max_height (b ∷ bs) ≡ b.height
unfolding max_height
max_height-cons b bs h = ground arith

pub blocks_up_to_bounds :
    (h : ℕ) (bs : List Block)
    → (max_height (blocks_up_to h bs) ≤ h) × (max_height (blocks_up_to h bs) ≤ max_height bs)
unfolding max_height blocks_up_to
blocks_up_to_bounds h [] = omega arith
blocks_up_to_bounds h (b ∷ bs) = let ih = blocks_up_to_bounds h bs in ground (arith, ih.0, ih.1)

pub blocks_up_to-Ascends : (h : ℕ) (bs : List Block) → Ascends bs → Ascends (blocks_up_to h bs)
unfolding blocks_up_to
blocks_up_to-Ascends h [] a = a
blocks_up_to-Ascends h (b ∷ bs) a =
    ground (arith, blocks_up_to-Ascends h bs a.1, (blocks_up_to_bounds h bs).1)

-- `initFirstBlockHeight` leaves the table and the height alone.
pub init_first_block_height_keeps :
    (genesis : Option Block) (ix : Indexer) {ix' : Indexer}
    → init_first_block_height genesis ix ≡ some ix'
    → (ix'.blocks ≡ ix.blocks) × (ix'.last_indexed_height ≡ ix.last_indexed_height)
unfolding init_first_block_height
init_first_block_height_keeps genesis ix e = ground arith

pub reset_to-IsOrdered :
    (genesis : Option Block) (h : ℕ) (ix ix' : Indexer)
    → IsOrdered ix
    → reset_to genesis h ix ≡ some ix'
    → IsOrdered ix' × (ix'.last_indexed_height ≤ h)
unfolding reset_to
reset_to-IsOrdered genesis h ix ix' o e =
    let kept : (ix'.blocks ≡ blocks_up_to h ix.blocks)
        × (ix'.last_indexed_height ≡ max_height (blocks_up_to h ix.blocks)) =
      init_first_block_height_keeps genesis _ e in
    (
      record {
        ascends = subst Ascends (sym kept.0) (blocks_up_to-Ascends h ix.blocks o.ascends);
        last = kept.1 ∙ ap max_height (sym kept.0);
      },
      rw kept.1 ((blocks_up_to_bounds h ix.blocks).0),
    )
