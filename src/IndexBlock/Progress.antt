-- ===== src/IndexBlock/Progress.antt =====
-- indexer.go, `indexBlock`: the loop ends once nothing fails for two passes.
use idena_indexer.Base.{
  ℕ, ◌+◌, ◌-◌, ◌^◌, ◌≤◌, ◌<◌, ◌≡◌, ◌⊎◌, refl, false, Option, none, some, List, [], ◌∷◌, ◌++◌, arith,
  Option-cases, Bool-cases, inl, inr, ltb, ◌==◌,
}
use idena_indexer.Node.{Hash}
use idena_indexer.IndexBlock.{
  Block, Indexer, Pass, Outcome, retry, done, panicked, hangs, sub_uint64, reset_to, save_data,
  process, process_block, after_reset, roll_back, follows_new_genesis, height_to_index, pass,
  index_from,
}
use idena_indexer.IndexBlock.Table.{
  IsOrdered, PrecedesBy, IsGenesis, AllGenesis, reset_to-IsOrdered,
}
use idena_indexer.IndexBlock.Order.{Sound, pass-Sound, follows_new_genesis_parent}
use idena_indexer.IndexBlock.Genesis.{Answers, Agrees, Agreeing, pass-Agreeing}

-- The outcome is not another pass.
abbrev pub Ends : Outcome → Type 0
Ends o = (o ≡ panicked) ⊎ ((ix : Indexer) × (o ≡ done ix))

-- The node gives a genesis block, and the database does what it is asked for, at once or after some
-- tries.
pub record IsGood (p : Pass) : Type 0 where
  pub has_genesis : (g : Block) × (p.genesis ≡ some g)
  pub resets : p.reset_fails ≡ false
  pub answers : Answers p

process-Ends :
    (p : Pass) (b : Block) (genesis : Option Block) (ix : Indexer)
    → Answers p
    → Ends (process p b genesis ix)
unfolding process process_block save_data
process-Ends p b none ix ok = elim (Bool-cases p.state_fails) [
  | inl e ↦ rw e (inl refl)
  | inr e ↦ rw e (rw ok.saves (inr (_, refl)))
]
process-Ends p b (some g) ix ok = elim (Bool-cases p.state_fails) [
  | inl e ↦ rw e (inl refl)
  | inr e ↦ rw e (rw (ok.genesis_saves, ok.saves) (inr (_, refl)))
]

-- A good pass ends the loop where the block is not below the expected height.
not_behind-Ends :
    (p : Pass) (genesis_hash : Hash) (b : Block) (genesis : Option Block) (ix : Indexer)
    → IsGood p
    → height_to_index genesis ix ≤ b.height
    → Ends (pass p genesis_hash b genesis ix)
unfolding pass
not_behind-Ends p genesis_hash b genesis ix good h =
    elim (Bool-cases (ltb (height_to_index genesis ix) b.height)) [
      | inl e ↦ rw e (
          rw good.has_genesis.1 (elim (Bool-cases (b.height == good.has_genesis.0.height + 1)) [
            | inl h ↦ rw h (process-Ends p b (some good.has_genesis.0) ix good.answers)
            | inr h ↦ rw h (inl refl)
          ]))
      | inr e ↦
          let l : ltb b.height (height_to_index genesis ix) ≡ false = ground arith in
          rw e (rw l (process-Ends p b genesis ix good.answers))
    ]

-- Outcomes after which a good pass ends the loop, if it has not ended yet.
abbrev CatchesUp : Block → Outcome → Type 0
CatchesUp b o =
    (o ≡ panicked)
    ⊎ ((genesis : Option Block) × ((ix : Indexer) × (o ≡ retry genesis ix)
          × (height_to_index genesis ix ≤ b.height)))

pub sub_uint64_exact : (a b : ℕ) → a < 2 ^ 64 → b ≤ a → sub_uint64 a b ≡ a - b
sub_uint64_exact a b h l = omega arith

after_reset-CatchesUp :
    (p : Pass) (b : Block) (height : ℕ) (genesis : Option Block) (ix : Indexer)
    → IsGood p
    → IsOrdered ix
    → height + 1 + elim genesis [ none ↦ 0 | some _ ↦ 1 ] ≤ b.height
    → CatchesUp b (after_reset p b height genesis ix)
unfolding after_reset height_to_index
after_reset-CatchesUp p b height genesis ix good o h =
    rw (good.resets, good.answers.loads)
      (elim (Option-cases (reset_to p.genesis height ix)) [
        | inl r ↦ rw r (inl refl)
        | inr (ix', r) ↦
            let low = (reset_to-IsOrdered p.genesis height ix ix' o r).1 in
            rw r (inr (genesis, (_, refl, omega arith)))
      ])

-- A good pass over a block below the expected height leaves the loop with a height that is not above
-- the block's, or ends it.
roll_back-CatchesUp :
    (p : Pass) (genesis_hash : Hash) (b : Block) (genesis : Option Block) (ix : Indexer)
    → IsGood p
    → IsGenesis genesis_hash b p
    → IsOrdered ix
    → Agrees genesis_hash b genesis ix
    → (0 < b.height) × (b.height < 2 ^ 64)
    → CatchesUp b (roll_back p genesis_hash b genesis ix)
unfolding roll_back
roll_back-CatchesUp p genesis_hash b genesis ix good i o a h =
    let exact = sub_uint64_exact b.height 1 h.1 h.0 in
    elim (Bool-cases (follows_new_genesis genesis_hash b ix)) [
      | inl e ↦
          let g = good.has_genesis.0 in
          let n = good.has_genesis.1 in
          let above = (i g n).1 (follows_new_genesis_parent genesis_hash b ix e) in
          let positive = (i g n).0 in
          let exact' = sub_uint64_exact (sub_uint64 b.height 1) 1 (omega arith) (omega arith) in
          rw e (
            rw n (
              after_reset-CatchesUp p b (sub_uint64 (sub_uint64 b.height 1) 1) (some g) ix good o
                (omega arith)))
      | inr e ↦
          let n : genesis ≡ none = ground arith in
          rw e (
            after_reset-CatchesUp p b (sub_uint64 b.height 1) genesis ix good o
              (rw n (omega arith)))
    ]

pass_progress :
    (p : Pass) (genesis_hash : Hash) (b : Block) (genesis : Option Block) (ix : Indexer)
    → IsGood p
    → IsGenesis genesis_hash b p
    → IsOrdered ix
    → Agrees genesis_hash b genesis ix
    → (0 < b.height) × (b.height < 2 ^ 64)
    → Ends (pass p genesis_hash b genesis ix) ⊎ CatchesUp b (pass p genesis_hash b genesis ix)
unfolding pass
pass_progress p genesis_hash b genesis ix good i o a h =
    elim (Bool-cases (ltb b.height (height_to_index genesis ix))) [
      | inl l ↦
          let e : ltb (height_to_index genesis ix) b.height ≡ false = ground arith in
          inr (rw e (rw l (roll_back-CatchesUp p genesis_hash b genesis ix good i o a h)))
      | inr l ↦ inl (not_behind-Ends p genesis_hash b genesis ix good (ground arith))
    ]

-- Two good passes in a row end the loop.
two_good-Ends :
    (p q : Pass) (ps : List Pass) (genesis_hash : Hash) (b : Block) (genesis : Option Block)
    (ix : Indexer)
    → IsGood p
    → IsGood q
    → IsGenesis genesis_hash b p
    → IsOrdered ix
    → Agrees genesis_hash b genesis ix
    → (0 < b.height) × (b.height < 2 ^ 64)
    → Ends (index_from (p ∷ q ∷ ps) genesis_hash b genesis ix)
unfolding index_from
two_good-Ends p q ps genesis_hash b genesis ix good good' i o a h =
    elim (pass_progress p genesis_hash b genesis ix good i o a h) [
      | inl (inl e) ↦ rw (e, index_from) (inl refl)
      | inl (inr (ix', e)) ↦ rw (e, index_from) (inr (ix', refl))
      | inr (inl e) ↦ rw (e, index_from) (inl refl)
      | inr (inr (genesis', (ix', e, low))) ↦
          rw (e, index_from)
            (elim (not_behind-Ends q genesis_hash b genesis' ix' good' low) [
              | inl e' ↦ rw (e', index_from) (inl refl)
              | inr (ix'', e') ↦ rw (e', index_from) (inr (ix'', refl))
            ])
    ]

-- In all of the passes the database answers at last.
abbrev pub AllAnswer : List Pass → Type 0
AllAnswer [] = Unit
AllAnswer (p ∷ ps) = Answers p × AllAnswer ps

-- The same where passes that do not hang come before.
pub index_from-Ends :
    (before : List Pass) (p q : Pass) (ps : List Pass) (genesis_hash : Hash) (b : Block)
    (genesis : Option Block) (ix : Indexer)
    → IsGood p
    → IsGood q
    → AllAnswer before
    → AllGenesis genesis_hash b before
    → IsGenesis genesis_hash b p
    → IsOrdered ix
    → PrecedesBy genesis b
    → Agrees genesis_hash b genesis ix
    → (0 < b.height) × (b.height < 2 ^ 64)
    → Ends (index_from (before ++ p ∷ q ∷ ps) genesis_hash b genesis ix)
unfolding index_from
index_from-Ends [] p q ps genesis_hash b genesis ix good good' oks gs i o f a h =
    two_good-Ends p q ps genesis_hash b genesis ix good good' i o a h
index_from-Ends (r ∷ rs) p q ps genesis_hash b genesis ix good good' oks gs i o f a h =
    elim (pass r genesis_hash b genesis ix)
        as (λ r.
          Sound b r
          → Agreeing genesis_hash b r
          → Ends (elim r [
            | retry genesis' ix' ↦ index_from (rs ++ p ∷ q ∷ ps) genesis_hash b genesis' ix'
            | done ix' ↦ done ix'
            | panicked ↦ panicked
            | hangs ix' ↦ hangs ix'
          ])) [
            | retry genesis' ix' ↦ λ s t.
                index_from-Ends rs p q ps genesis_hash b genesis' ix' good good' oks.1 gs.1 i s.0
                  s.1 t h
            | done ix' ↦ λ s t. inr (ix', refl)
            | panicked ↦ λ s t. inl refl
            | hangs ix' ↦ λ s t. absurd t
          ]
      (pass-Sound r genesis_hash b genesis ix o f gs.0)
      (pass-Agreeing r genesis_hash b genesis ix oks.0 gs.0 a)
