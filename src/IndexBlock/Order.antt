-- ===== src/IndexBlock/Order.antt =====
-- indexer.go, `indexBlock`: the table of blocks stays in order of height, under every sequence of
-- resets, failures and changes of genesis.
use idena_indexer.Base.{
  ℕ, ◌+◌, ◌<◌, ◌≡◌, refl, sym, subst, true, false, Option, none, some, List, [], ◌∷◌, arith,
  Option-cases, Bool-cases, ==_iff, inl, inr, ltb, ◌==◌,
}
use idena_indexer.Node.{Hash}
use idena_indexer.IndexBlock.{
  Block, Indexer, Pass, Outcome, saved, retry, done, panicked, hangs, sub_uint64, max_height,
  reset_to, save_data, restore_if_needed, process, process_block, after_reset, roll_back,
  follows_new_genesis, height_to_index, pass, index_from,
}
use idena_indexer.IndexBlock.Table.{
  Ascends, IsOrdered, PrecedesBy, IsGenesis, AllGenesis, max_height-cons, reset_to-IsOrdered,
  blocks_up_to-Ascends,
}

-- What a pass promises of its outcome: the table stays in order, also where it hangs; a block that counts as indexed is the
-- last of it, and no restoring is due any more.
abbrev pub Sound : Block → Outcome → Type 0
Sound b (retry genesis ix) = IsOrdered ix × PrecedesBy genesis b
Sound b (done ix) =
    IsOrdered ix
    × ((bs : List Block) × (ix.blocks ≡ b ∷ bs))
    × (ix.last_indexed_height ≡ b.height)
    × (ix.restore ≡ false)
Sound b panicked = Unit
Sound b (hangs ix) = Ascends ix.blocks

restore_if_needed_keeps :
    (ix : Indexer)
    → ((restore_if_needed ix).blocks ≡ ix.blocks) × ((restore_if_needed ix).restore ≡ false)
unfolding restore_if_needed
restore_if_needed_keeps ix = ground arith

process_block-Sound :
    (p : Pass) (b : Block) (ix : Indexer)
    → Ascends ix.blocks
    → max_height ix.blocks < b.height
    → Sound b (process_block p b ix)
unfolding process_block save_data
process_block-Sound p b ix a h =
    let keeps = restore_if_needed_keeps ix in
    let fresh : max_height (restore_if_needed ix).blocks < b.height =
      subst (λ bs. max_height bs < b.height) (sym keeps.0) h in
    let before : Ascends (restore_if_needed ix).blocks = subst Ascends (sym keeps.0) a in
    elim (Bool-cases p.saves) [
      | inl e ↦ rw e (
        record {
          ascends = (fresh, before);
          last = sym (max_height-cons b (restore_if_needed ix).blocks fresh);
        },
        ((restore_if_needed ix).blocks, refl),
        refl,
        keeps.1,
      )
      | inr e ↦ rw e before
    ]

-- Where the local `genesisBlock` and the block go into the table.
abbrev pub Fits : Block → Option Block → Indexer → Type 0
Fits b none ix = ix.last_indexed_height < b.height
Fits b (some g) ix = (ix.last_indexed_height < g.height) × (g.height < b.height)

pub process-Sound :
    (p : Pass) (b : Block) (genesis : Option Block) (ix : Indexer)
    → IsOrdered ix
    → Fits b genesis ix
    → Sound b (process p b genesis ix)
unfolding process save_data process_block
process-Sound p b none ix o f = elim (Bool-cases p.state_fails) [
  | inl e ↦ rw e tt
  | inr e ↦ rw e (process_block-Sound p b ix o.ascends (subst (λ n. n < b.height) o.last f))
]
process-Sound p b (some g) ix o f = elim (Bool-cases p.state_fails) [
  | inl e ↦ rw e tt
  | inr e ↦
      let above = subst (λ n. n < g.height) o.last f.0 in
      elim (Bool-cases p.genesis_saves) [
        | inl s ↦
            let ix' = record ix { blocks = g ∷ ix.blocks; log = saved g ∷ ix.log } in
            rw e (
              rw s (
                process_block-Sound p b ix' (above, o.ascends)
                  (subst (λ n. n < b.height) (sym (max_height-cons g ix.blocks above)) f.1)))
        | inr s ↦ rw e (rw s o.ascends)
      ]
]

after_reset-Sound :
    (p : Pass) (b : Block) (height : ℕ) (genesis : Option Block) (ix : Indexer)
    → IsOrdered ix
    → PrecedesBy genesis b
    → Sound b (after_reset p b height genesis ix)
unfolding after_reset
after_reset-Sound p b height genesis ix o f = elim (Bool-cases p.reset_fails) [
  | inl e ↦ rw e (o, f)
  | inr e ↦ elim (Bool-cases p.loads) [
    | inl l ↦ rw e (
        rw l (elim (Option-cases (reset_to p.genesis height ix)) [
          | inl r ↦ rw r tt
          | inr (ix', r) ↦
              let o' = (reset_to-IsOrdered p.genesis height ix ix' o r).0 in
              rw r (record { ascends = o'.ascends; last = o'.last }, f)
        ]))
    | inr l ↦ rw e (rw l (blocks_up_to-Ascends height ix.blocks o.ascends))
  ]
]

pub follows_new_genesis_parent :
    (genesis_hash : Hash) (b : Block) (ix : Indexer)
    → follows_new_genesis genesis_hash b ix ≡ true
    → b.parent_hash ≡ genesis_hash
unfolding follows_new_genesis
follows_new_genesis_parent genesis_hash b ix h = ground (arith, ==_iff b.parent_hash genesis_hash)

roll_back-Sound :
    (p : Pass) (genesis_hash : Hash) (b : Block) (genesis : Option Block) (ix : Indexer)
    → IsOrdered ix
    → PrecedesBy genesis b
    → IsGenesis genesis_hash b p
    → Sound b (roll_back p genesis_hash b genesis ix)
unfolding roll_back
roll_back-Sound p genesis_hash b genesis ix o f g =
    elim (Bool-cases (follows_new_genesis genesis_hash b ix)) [
      | inl e ↦ rw e (elim (Option-cases p.genesis) [
        | inl n ↦ rw n (o, tt)
        | inr (g', n) ↦ rw n (
            after_reset-Sound p b (sub_uint64 (sub_uint64 b.height 1) 1) (some g') ix o
              ((g g' n).1 (follows_new_genesis_parent genesis_hash b ix e)))
      ])
      | inr e ↦ rw e (after_reset-Sound p b (sub_uint64 b.height 1) genesis ix o f)
    ]

new_genesis-Fits :
    (genesis : Option Block) (b g : Block) (ix : Indexer)
    → ltb (height_to_index genesis ix) b.height ≡ true
    → (b.height == g.height + 1) ≡ true
    → Fits b (some g) ix
unfolding height_to_index
new_genesis-Fits none b g ix h e = ground arith
new_genesis-Fits (some g') b g ix h e = ground arith

expected-Fits :
    (genesis : Option Block) (b : Block) (ix : Indexer)
    → ltb (height_to_index genesis ix) b.height ≡ false
    → ltb b.height (height_to_index genesis ix) ≡ false
    → PrecedesBy genesis b
    → Fits b genesis ix
unfolding height_to_index
expected-Fits none b ix h l f = ground arith
expected-Fits (some g) b ix h l f = ground arith

pub pass-Sound :
    (p : Pass) (genesis_hash : Hash) (b : Block) (genesis : Option Block) (ix : Indexer)
    → IsOrdered ix
    → PrecedesBy genesis b
    → IsGenesis genesis_hash b p
    → Sound b (pass p genesis_hash b genesis ix)
unfolding pass height_to_index
pass-Sound p genesis_hash b genesis ix o f g =
    elim (Bool-cases (ltb (height_to_index genesis ix) b.height)) [
      | inl e ↦ rw e (elim (Option-cases p.genesis) [
        | inl n ↦ rw n (o, tt)
        | inr (g', n) ↦ rw n (elim (Bool-cases (b.height == g'.height + 1)) [
          | inl h ↦ rw h (process-Sound p b (some g') ix o (new_genesis-Fits genesis b g' ix e h))
          | inr h ↦ rw h tt
        ])
      ])
      | inr e ↦ rw e (elim (Bool-cases (ltb b.height (height_to_index genesis ix))) [
        | inl l ↦ rw l (roll_back-Sound p genesis_hash b genesis ix o f g)
        | inr l ↦ rw l (process-Sound p b genesis ix o (expected-Fits genesis b ix e l f))
      ])
    ]

-- Over any passes the table of blocks stays in order.
pub index_from-Sound :
    (ps : List Pass) (genesis_hash : Hash) (b : Block) (genesis : Option Block) (ix : Indexer)
    → IsOrdered ix
    → PrecedesBy genesis b
    → AllGenesis genesis_hash b ps
    → Sound b (index_from ps genesis_hash b genesis ix)
unfolding index_from
index_from-Sound [] genesis_hash b genesis ix o f g = (o, f)
index_from-Sound (p ∷ ps) genesis_hash b genesis ix o f g =
    elim (pass p genesis_hash b genesis ix)
        as (λ r.
          Sound b r
          → Sound b (elim r [
            | retry genesis' ix' ↦ index_from ps genesis_hash b genesis' ix'
            | done ix' ↦ done ix'
            | panicked ↦ panicked
            | hangs ix' ↦ hangs ix'
          ])) [
            | retry genesis' ix' ↦ λ s. index_from-Sound ps genesis_hash b genesis' ix' s.0 s.1 g.1
            | done ix' ↦ λ s. s
            | panicked ↦ λ s. s
            | hangs ix' ↦ λ s. s
          ]
      (pass-Sound p genesis_hash b genesis ix o f g.0)
