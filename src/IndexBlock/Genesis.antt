-- ===== src/IndexBlock/Genesis.antt =====
-- indexer.go, `indexBlock`: the local `genesisBlock`. The loop has one only for a block that follows it,
-- whatever fails between the passes.
use idena_indexer.Base.{
  ℕ, ◌+◌, ◌≡◌, ◌⊎◌, refl, true, false, Option, none, some, arith, Option-cases, Bool-cases, ==_iff,
  inl, inr, ltb, ◌==◌,
}
use idena_indexer.Node.{Hash}
use idena_indexer.IndexBlock.{
  Block, Indexer, Pass, Outcome, retry, done, panicked, hangs, sub_uint64, init_first_block_height,
  reset_to, save_data, process, process_block, after_reset, roll_back, follows_new_genesis,
  height_to_index, pass,
}
use idena_indexer.IndexBlock.Table.{IsGenesis}
use idena_indexer.IndexBlock.Order.{follows_new_genesis_parent}

-- Where the loop has a local `genesisBlock`, the block follows it.
abbrev pub Agrees : Hash → Block → Option Block → Indexer → Type 0
Agrees genesis_hash b genesis ix = (genesis ≡ none) ⊎ (follows_new_genesis genesis_hash b ix ≡ true)

-- After a reset the first block is never the one that follows a new genesis.
pub init_first_block_height_value :
    (genesis : Option Block) (ix : Indexer) {ix' : Indexer}
    → ix.first_block_height_initialized ≡ false
    → init_first_block_height genesis ix ≡ some ix'
    → (ix'.first_block_height ≡ 1)
      ⊎ ((g : Block) × (genesis ≡ some g) × (ix'.first_block_height ≡ g.height))
unfolding init_first_block_height
init_first_block_height_value none ix h e = ground arith
init_first_block_height_value (some g) ix h e = elim (Bool-cases (ix.last_indexed_height == 0)) [
  | inl l ↦ inr (g, refl, ground arith)
  | inr l ↦ inl (ground arith)
]

follows_new_genesis_if :
    (genesis_hash : Hash) (b : Block) (ix : Indexer)
    → b.parent_hash ≡ genesis_hash
    → (b.height == ix.first_block_height) ≡ false
    → follows_new_genesis genesis_hash b ix ≡ true
unfolding follows_new_genesis
follows_new_genesis_if genesis_hash b ix h n = ground (arith, ==_iff b.parent_hash genesis_hash)

pub reset_follows :
    (p : Pass) (genesis_hash : Hash) (b g : Block) (h : ℕ) (ix ix' : Indexer)
    → p.genesis ≡ some g
    → IsGenesis genesis_hash b p
    → follows_new_genesis genesis_hash b ix ≡ true
    → reset_to p.genesis h ix ≡ some ix'
    → follows_new_genesis genesis_hash b ix' ≡ true
unfolding reset_to
reset_follows p genesis_hash b g h ix ix' e i f r =
    let parent = follows_new_genesis_parent genesis_hash b ix f in
    let above : g.height + 1 ≡ b.height = (i g e).1 parent in
    let positive = (i g e).0 in
    elim (init_first_block_height_value p.genesis _ refl r) [
      | inl one ↦ follows_new_genesis_if genesis_hash b ix' parent (ground arith)
      | inr (g', e', v) ↦
          let above' = (i g' e').1 parent in
          follows_new_genesis_if genesis_hash b ix' parent (ground arith)
    ]

-- What the loop repeats until the database answers comes to an end in the pass.
pub record Answers (p : Pass) : Type 0 where
  pub loads : p.loads ≡ true
  pub genesis_saves : p.genesis_saves ≡ true
  pub saves : p.saves ≡ true

-- What a pass in which the database answers promises of the local `genesisBlock`; and it does not hang.
abbrev pub Agreeing : Hash → Block → Outcome → Type 0
Agreeing genesis_hash b (retry genesis ix) = Agrees genesis_hash b genesis ix
Agreeing genesis_hash b (done ix) = Unit
Agreeing genesis_hash b panicked = Unit
Agreeing genesis_hash b (hangs ix) = ⊥

after_reset-Agreeing :
    (p : Pass) (genesis_hash : Hash) (b : Block) (height : ℕ) (genesis : Option Block)
    (ix : Indexer)
    → Answers p
    → Agrees genesis_hash b genesis ix
    → ((ix' : Indexer)
        → reset_to p.genesis height ix ≡ some ix'
        → Agrees genesis_hash b genesis ix')
    → Agreeing genesis_hash b (after_reset p b height genesis ix)
unfolding after_reset follows_new_genesis
after_reset-Agreeing p genesis_hash b height genesis ix ok a k = elim (Bool-cases p.reset_fails) [
  | inl l ↦ rw l a
  | inr l ↦
      rw (l, ok.loads)
        (elim (Option-cases (reset_to p.genesis height ix)) [
          | inl r ↦ rw r tt
          | inr (ix', r) ↦ rw r (k ix' r)
        ])
]

roll_back-Agreeing :
    (p : Pass) (genesis_hash : Hash) (b : Block) (genesis : Option Block) (ix : Indexer)
    → Answers p
    → IsGenesis genesis_hash b p
    → Agrees genesis_hash b genesis ix
    → Agreeing genesis_hash b (roll_back p genesis_hash b genesis ix)
unfolding roll_back
roll_back-Agreeing p genesis_hash b genesis ix ok i a =
    elim (Bool-cases (follows_new_genesis genesis_hash b ix)) [
      | inl e ↦ rw e (elim (Option-cases p.genesis) [
        | inl n ↦ rw n (inl refl)
        | inr (g, n) ↦ rw n (
            let height = sub_uint64 (sub_uint64 b.height 1) 1 in
            after_reset-Agreeing p genesis_hash b height (some g) ix ok (inr e)
              (λ ix' r. inr (reset_follows p genesis_hash b g height ix ix' n i e r)))
      ])
      | inr e ↦
          let n : genesis ≡ none = ground arith in
          rw e (
            after_reset-Agreeing p genesis_hash b (sub_uint64 b.height 1) genesis ix ok a
              (λ ix' r. inl n))
    ]

process-Agreeing :
    (p : Pass) (genesis_hash : Hash) (b : Block) (genesis : Option Block) (ix : Indexer)
    → Answers p
    → Agreeing genesis_hash b (process p b genesis ix)
unfolding process process_block save_data
process-Agreeing p genesis_hash b none ix ok = elim (Bool-cases p.state_fails) [
  | inl e ↦ rw e tt
  | inr e ↦ rw e (rw ok.saves tt)
]
process-Agreeing p genesis_hash b (some g) ix ok = elim (Bool-cases p.state_fails) [
  | inl e ↦ rw e tt
  | inr e ↦ rw e (rw (ok.genesis_saves, ok.saves) tt)
]

pub pass-Agreeing :
    (p : Pass) (genesis_hash : Hash) (b : Block) (genesis : Option Block) (ix : Indexer)
    → Answers p
    → IsGenesis genesis_hash b p
    → Agrees genesis_hash b genesis ix
    → Agreeing genesis_hash b (pass p genesis_hash b genesis ix)
unfolding pass
pass-Agreeing p genesis_hash b genesis ix ok i a =
    elim (Bool-cases (ltb (height_to_index genesis ix) b.height)) [
      | inl e ↦ rw e (elim (Option-cases p.genesis) [
        | inl n ↦ rw n (inl refl)
        | inr (g, n) ↦ rw n (elim (Bool-cases (b.height == g.height + 1)) [
          | inl h ↦ rw h (process-Agreeing p genesis_hash b (some g) ix ok)
          | inr h ↦ rw h tt
        ])
      ])
      | inr e ↦ rw e (elim (Bool-cases (ltb b.height (height_to_index genesis ix))) [
        | inl l ↦ rw l (roll_back-Agreeing p genesis_hash b genesis ix ok i a)
        | inr l ↦ rw l (process-Agreeing p genesis_hash b genesis ix ok)
      ])
    ]
