-- ===== src/Coins/Ledger.antt =====
-- collector.go: what is burnt by the calls of a block, in all and by address.
use Prim.Native.String.{String}
use idena_indexer.Base.{
  ◌≡◌, refl, ap, ◌∙◌, sym, Bool, true, false, ◌&&◌, not, Option, none, some, List, [], ◌∷◌, ◌++◌,
  append_assoc, append-nil, Bool-cases, inl, inr,
}
use idena_indexer.Base.Int.{ℤ, ◌+ℤ◌, ◌-ℤ◌, ltb_ℤ, +ℤ_assoc}
use idena_indexer.Base.Eq.{◌==◌, number_key}
use idena_indexer.Base.Map.{lookup}
use idena_indexer.Base.SumBy.{zero_+ℤ, +ℤ_zero}
use idena_indexer.Node.{Address, Hash}
use idena_indexer.Coins.{
  BurntCoins, BlockStats, penalty_burnt_coins, invite_burnt_coins, fee_burnt_coins,
  killed_burnt_coins, burn_tx_burnt_coins, zero_or_nil, or_zero, add_minted_coins,
  add_penalty_burnt_coins, add_invite_burnt_coins, add_fee_burnt_coins, add_killed_burnt_coins,
  add_burn_tx_burnt_coins, after_add_stake, add_kill_invitee_tx_stake_transfer,
}
use idena_indexer.Coins.Burnt.{
  Call, minted, penalty, invite, fee, killed, burn_tx, added_stake, kill_invitee, proposer_reward,
  committee_reward, begin_tx, complete_tx, apply, run, burn_of, pending_after, burns, total_of,
  burns_at, burnt_at, rows_in, amount_of, burnt_by, Burns, Keeps, Keeps-refl, Burns-nothing,
  add_burnt_coins-Burns, add_proposer_reward-Keeps, add_final_committee_reward-Keeps,
}

-- Nothing collected.
abbrev pub empty_stats : BlockStats
empty_stats = record {
  minted_coins = none;
  burnt_coins = none;
  burnt_coins_by_addr = [];
  kill_invitee_tx_transfers = [];
  mining_rewards = [];
  final_committee_rewards_by_addr = [];
  original_final_committee = [];
  pool_final_committee = [];
  pending_tx = none;
}

Burns-after :
    (o : Option (Address × BurntCoins)) (tx : Option Hash) (a b c : BlockStats)
    → Keeps a b
    → Burns o tx b c
    → Burns o tx a c
Burns-after o tx a b c h k = record {
  total = k.total ∙ ap (λ t. or_zero t +ℤ amount_of o) h.total;
  rows = λ j. k.rows j ∙ ap (λ m. rows_in j m ++ burnt_by j o) h.rows;
  pending = k.pending;
}

module _ (hex : Hash → String) (burnt : ℤ → ℤ) where
  minted-Burns :
      (x : Option ℤ) (st : BlockStats) → Burns none st.pending_tx st (add_minted_coins x st)
  unfolding add_minted_coins
  minted-Burns none st = Burns-nothing st st Keeps-refl
  minted-Burns (some x) st =
      Burns-nothing st _ (record { total = refl; rows = refl; pending = refl })

  fee-Burns :
      (a : Address) (x : Option ℤ) (h : Option Hash) (st : BlockStats)
      → Burns
          (burn_of hex burnt st.pending_tx (fee a x h))
          st.pending_tx
          st
          (add_fee_burnt_coins hex burnt a x h st)
  unfolding add_fee_burnt_coins
  fee-Burns a x h st = elim (Bool-cases (zero_or_nil x)) [
    | inl e ↦ rw (e, add_fee_burnt_coins) (Burns-nothing st st Keeps-refl)
    | inr e ↦
        rw (e, add_fee_burnt_coins)
          (add_burnt_coins-Burns hex a (some (burnt (or_zero x))) fee_burnt_coins h st)
  ]

  added_stake-Burns :
      (a : Address) (x : Option ℤ) (k : Bool) (st : BlockStats)
      → Burns
          (burn_of hex burnt st.pending_tx (added_stake a x k))
          st.pending_tx
          st
          (after_add_stake hex a x k st)
  unfolding after_add_stake
  added_stake-Burns a x true st = add_burnt_coins-Burns hex a x killed_burnt_coins none st
  added_stake-Burns a x false st = Burns-nothing st st Keeps-refl

  kill_invitee-Burns :
      (h : Hash) (to : Address) (s x : Option ℤ) (st : BlockStats)
      → Burns
          (burn_of hex burnt st.pending_tx (kill_invitee h to s x))
          st.pending_tx
          st
          (add_kill_invitee_tx_stake_transfer hex h to s x st)
  unfolding add_kill_invitee_tx_stake_transfer add_killed_burnt_coins
  kill_invitee-Burns h to s x st =
      let moved : BlockStats = record st {
        kill_invitee_tx_transfers = st.kill_invitee_tx_transfers ++ (h, or_zero x) ∷ [];
      } in
      let same : Keeps st moved = record { total = refl; rows = refl; pending = refl } in
      let burnt_stake = some (or_zero s -ℤ or_zero x) in
      elim (Bool-cases
        (not (zero_or_nil s) && not (zero_or_nil x) && ltb_ℤ (or_zero x) (or_zero s))) [
          | inl e ↦ elim (Bool-cases (not (zero_or_nil x))) [
            | inl t ↦
                rw (e, t, add_kill_invitee_tx_stake_transfer)
                  (Burns-after _ st.pending_tx st moved _ same (
                    add_burnt_coins-Burns hex to burnt_stake killed_burnt_coins st.pending_tx
                      moved))
            | inr t ↦
                rw (e, t, add_kill_invitee_tx_stake_transfer)
                  (add_burnt_coins-Burns hex to burnt_stake killed_burnt_coins st.pending_tx st)
          ]
          | inr e ↦ elim (Bool-cases (not (zero_or_nil x))) [
            | inl t ↦ rw (e, t, add_kill_invitee_tx_stake_transfer) (Burns-nothing st moved same)
            | inr t ↦ rw (e, t, add_kill_invitee_tx_stake_transfer) (Burns-nothing st st Keeps-refl)
          ]
        ]

  apply-Burns :
      (c : Call) (st : BlockStats)
      → Burns
          (burn_of hex burnt st.pending_tx c)
          (pending_after hex burnt st.pending_tx c)
          st
          (apply hex burnt c st)
  unfolding add_penalty_burnt_coins add_invite_burnt_coins add_killed_burnt_coins
      add_burn_tx_burnt_coins
  apply-Burns (minted x) st = minted-Burns x st
  apply-Burns (penalty a x) st = add_burnt_coins-Burns hex a x penalty_burnt_coins none st
  apply-Burns (invite a x h) st = add_burnt_coins-Burns hex a x invite_burnt_coins h st
  apply-Burns (fee a x h) st = fee-Burns a x h st
  apply-Burns (killed a x) st = add_burnt_coins-Burns hex a x killed_burnt_coins st.pending_tx st
  apply-Burns (burn_tx a h x) st =
      add_burnt_coins-Burns hex a (some x) burn_tx_burnt_coins (some h) st
  apply-Burns (added_stake a x k) st = added_stake-Burns a x k st
  apply-Burns (kill_invitee h to s x) st = kill_invitee-Burns h to s x st
  apply-Burns (proposer_reward bd sd b s) st =
      Burns-nothing st _ (add_proposer_reward-Keeps bd sd b s st)
  apply-Burns (committee_reward bd sd b s) st =
      Burns-nothing st _ (add_final_committee_reward-Keeps bd sd b s st)
  apply-Burns (begin_tx h) st = record {
    total = sym (+ℤ_zero (or_zero st.burnt_coins));
    rows = λ j. sym (append-nil (burnt_at j st));
    pending = refl;
  }
  apply-Burns (complete_tx) st = record {
    total = sym (+ℤ_zero (or_zero st.burnt_coins));
    rows = λ j. sym (append-nil (burnt_at j st));
    pending = refl;
  }

  total_of-cons :
      (o : Option (Address × BurntCoins)) (bs : List (Address × BurntCoins))
      → total_of (elim o [ none ↦ bs | some b ↦ b ∷ bs ]) ≡ amount_of o +ℤ total_of bs
  unfolding total_of
  total_of-cons none bs = sym (zero_+ℤ (total_of bs))
  total_of-cons (some b) bs = refl

  burns_at-cons :
      (j : Address) (o : Option (Address × BurntCoins)) (bs : List (Address × BurntCoins))
      → burns_at j (elim o [ none ↦ bs | some b ↦ b ∷ bs ]) ≡ burnt_by j o ++ burns_at j bs
  unfolding burns_at
  burns_at-cons j none bs = refl
  burns_at-cons j (some b) bs = elim (Bool-cases (b.0 == j)) [
    | inl e ↦ rw e refl
    | inr e ↦ rw e refl
  ]

  run-total :
      (cs : List Call) (st : BlockStats)
      → or_zero (run hex burnt cs st).burnt_coins
        ≡ or_zero st.burnt_coins +ℤ total_of (burns hex burnt st.pending_tx cs)
  unfolding run burns total_of
  run-total [] st = sym (+ℤ_zero (or_zero st.burnt_coins))
  run-total (c ∷ cs) st =
      let next = apply hex burnt c st in
      let step = apply-Burns c st in
      let o = burn_of hex burnt st.pending_tx c in
      run-total cs next
      ∙ ap (λ tx. or_zero next.burnt_coins +ℤ total_of (burns hex burnt tx cs)) step.pending
      ∙ ap (λ t. t +ℤ total_of (burns hex burnt (pending_after hex burnt st.pending_tx c) cs))
          step.total
      ∙ +ℤ_assoc (or_zero st.burnt_coins) (amount_of o)
          (total_of (burns hex burnt (pending_after hex burnt st.pending_tx c) cs))
      ∙ ap (λ t. or_zero st.burnt_coins +ℤ t)
          (sym (total_of-cons o (burns hex burnt (pending_after hex burnt st.pending_tx c) cs)))

  run-rows :
      (cs : List Call) (st : BlockStats) (j : Address)
      → burnt_at j (run hex burnt cs st)
        ≡ burnt_at j st ++ burns_at j (burns hex burnt st.pending_tx cs)
  unfolding run burns burns_at
  run-rows [] st j = sym (append-nil (burnt_at j st))
  run-rows (c ∷ cs) st j =
      let next = apply hex burnt c st in
      let step = apply-Burns c st in
      let o = burn_of hex burnt st.pending_tx c in
      run-rows cs next j
      ∙ ap (λ tx. burnt_at j next ++ burns_at j (burns hex burnt tx cs)) step.pending
      ∙ ap (λ t. t ++ burns_at j (burns hex burnt (pending_after hex burnt st.pending_tx c) cs))
          (step.rows j)
      ∙ append_assoc (burnt_at j st) (burnt_by j o)
          (burns_at j (burns hex burnt (pending_after hex burnt st.pending_tx c) cs))
      ∙ ap (λ t. burnt_at j st ++ t)
          (sym (burns_at-cons j o (burns hex burnt (pending_after hex burnt st.pending_tx c) cs)))

  -- After any calls on a block with nothing collected, the burnt coins are the sum of what the calls burn,
  -- and under each address stands what they burn of it, in their order, with reason and transaction.
  pub run-burns :
      (cs : List Call)
      → (or_zero (run hex burnt cs empty_stats).burnt_coins ≡ total_of (burns hex burnt none cs))
        × ((a : Address)
            → burnt_at a (run hex burnt cs empty_stats) ≡ burns_at a (burns hex burnt none cs))
  unfolding lookup
  run-burns cs = (
    run-total cs empty_stats ∙ zero_+ℤ (total_of (burns hex burnt none cs)),
    λ a. run-rows cs empty_stats a,
  )
