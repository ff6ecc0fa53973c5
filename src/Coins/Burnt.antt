-- ===== src/Coins/Burnt.antt =====
-- collector.go: the calls on the coins of a block as a sequence, and what is burnt by them.
use Prim.Native.String.{String}
use idena_indexer.Base.{
  ℕ, ◌≡◌, refl, ap, ◌∙◌, sym, Bool, true, false, ◌&&◌, not, Option, none, some, List, [], ◌∷◌, ◌++◌,
  append-nil, arith, if◌then◌else◌, Bool-cases, Option-cases, inl, inr,
}
use idena_indexer.Base.Int.{ℤ, pos, ◌+ℤ◌, ◌-ℤ◌, ltb_ℤ}
use idena_indexer.Base.Eq.{◌==◌, number_key}
use idena_indexer.Base.Map.{Map, lookup, insert, lookup-insert}
use idena_indexer.Base.SumBy.{+ℤ_zero}
use idena_indexer.Node.{Address, Hash}
use idena_indexer.Coins.{
  BurntCoins, BlockStats, penalty_burnt_coins, invite_burnt_coins, fee_burnt_coins,
  killed_burnt_coins, burn_tx_burnt_coins, is_zero, zero_or_nil, or_zero, hash_text,
  add_minted_coins, add_burnt_coins, add_penalty_burnt_coins, add_invite_burnt_coins,
  add_fee_burnt_coins, add_killed_burnt_coins, add_burn_tx_burnt_coins, after_add_stake,
  add_kill_invitee_tx_stake_transfer, add_mining_reward, add_proposer_reward, add_to_committee,
  add_final_committee_reward,
}

-- The calls with their arguments; the last two are what sets and drops the pending transaction.
pub data Call : Type 0 where
  minted : Option ℤ → Call
  penalty : Address → Option ℤ → Call
  invite : Address → Option ℤ → Option Hash → Call
  fee : Address → Option ℤ → Option Hash → Call
  killed : Address → Option ℤ → Call
  burn_tx : Address → Hash → ℤ → Call
  added_stake : Address → Option ℤ → Bool → Call
  kill_invitee : Hash → Address → Option ℤ → Option ℤ → Call
  proposer_reward : Address → Address → Option ℤ → Option ℤ → Call
  committee_reward : Address → Address → Option ℤ → Option ℤ → Call
  begin_tx : Hash → Call
  complete_tx : Call

-- One burn, unless the amount is nil or zero.
abbrev pub burn :
    (Hash → String) → Address → Option ℤ → ℕ → Option Hash → Option (Address × BurntCoins)
burn hex a x reason tx =
    if zero_or_nil x
    then none
    else some (a, record { amount = or_zero x; reason = reason; tx_hash = hash_text hex tx })

module _ (hex : Hash → String) (burnt : ℤ → ℤ) where
  abbrev pub apply : Call → BlockStats → BlockStats
  apply (minted x) st = add_minted_coins x st
  apply (penalty a x) st = add_penalty_burnt_coins hex a x st
  apply (invite a x h) st = add_invite_burnt_coins hex a x h st
  apply (fee a x h) st = add_fee_burnt_coins hex burnt a x h st
  apply (killed a x) st = add_killed_burnt_coins hex a x st
  apply (burn_tx a h x) st = add_burn_tx_burnt_coins hex a h x st
  apply (added_stake a x k) st = after_add_stake hex a x k st
  apply (kill_invitee h to s x) st = add_kill_invitee_tx_stake_transfer hex h to s x st
  apply (proposer_reward bd sd b s) st = add_proposer_reward bd sd b s st
  apply (committee_reward bd sd b s) st = add_final_committee_reward bd sd b s st
  apply (begin_tx h) st = record st { pending_tx = some h }
  apply (complete_tx) st = record st { pending_tx = none }

  unfoldable pub run : List Call → BlockStats → BlockStats
  run [] st = st
  run (c ∷ cs) st = run cs (apply c st)

  -- What a call burns, given the pending transaction.
  abbrev pub burn_of : Option Hash → Call → Option (Address × BurntCoins)
  burn_of tx (penalty a x) = burn hex a x penalty_burnt_coins none
  burn_of tx (invite a x h) = burn hex a x invite_burnt_coins h
  burn_of tx (fee a x h) =
      if zero_or_nil x then none else burn hex a (some (burnt (or_zero x))) fee_burnt_coins h
  burn_of tx (killed a x) = burn hex a x killed_burnt_coins tx
  burn_of tx (burn_tx a h x) = burn hex a (some x) burn_tx_burnt_coins (some h)
  burn_of tx (added_stake a x k) = if k then burn hex a x killed_burnt_coins none else none
  burn_of tx (kill_invitee h to s x) =
      if not (zero_or_nil s) && not (zero_or_nil x) && ltb_ℤ (or_zero x) (or_zero s)
      then burn hex to (some (or_zero s -ℤ or_zero x)) killed_burnt_coins tx
      else none
  burn_of tx (_) = none

  abbrev pub pending_after : Option Hash → Call → Option Hash
  pending_after tx (begin_tx h) = some h
  pending_after tx (complete_tx) = none
  pending_after tx (_) = tx

  -- What the calls burn, in their order.
  unfoldable pub burns : Option Hash → List Call → List (Address × BurntCoins)
  burns tx [] = []
  burns tx (c ∷ cs) =
      let rest = burns (pending_after tx c) cs in
      elim (burn_of tx c) [ none ↦ rest | some b ↦ b ∷ rest ]

unfoldable pub total_of : List (Address × BurntCoins) → ℤ
total_of [] = pos 0
total_of ((a, b) ∷ bs) = b.amount +ℤ total_of bs

unfoldable pub burns_at : Address → List (Address × BurntCoins) → List BurntCoins
burns_at j [] = []
burns_at j ((a, b) ∷ bs) = let rest = burns_at j bs in if a == j then b ∷ rest else rest

abbrev pub rows_in : Address → Map Address (List BurntCoins) → List BurntCoins
rows_in a m = elim (lookup a m) [ none ↦ [] | some l ↦ l ]

rows_in-added :
    (a j : Address) (b : BurntCoins) (m : Map Address (List BurntCoins))
    → rows_in j (insert a (rows_in a m ++ b ∷ []) m)
      ≡ rows_in j m ++ (if a == j then b ∷ [] else [])
rows_in-added a j b m =
    let longer = rows_in a m ++ b ∷ [] in
    ap (λ o. elim o [ none ↦ [] | some l ↦ l ]) (lookup-insert a j longer m)
    ∙ elim (Bool-cases (a == j)) [
      | inl same ↦
          let equal : a ≡ j = ground arith in rw same (ap (λ k. rows_in k m ++ b ∷ []) equal)
      | inr other ↦ rw other (sym (append-nil (rows_in j m)))
    ]

abbrev pub burnt_at : Address → BlockStats → List BurntCoins
burnt_at a st = rows_in a st.burnt_coins_by_addr

abbrev pub amount_of : Option (Address × BurntCoins) → ℤ
amount_of none = pos 0
amount_of (some b) = b.1.amount

abbrev pub burnt_by : Address → Option (Address × BurntCoins) → List BurntCoins
burnt_by j none = []
burnt_by j (some b) = if b.0 == j then b.1 ∷ [] else []

-- A step that burns this, and leaves this transaction pending.
pub record Burns (o : Option (Address × BurntCoins)) (tx : Option Hash) (st st' : BlockStats)
    : Type 0 where
  pub total : or_zero st'.burnt_coins ≡ or_zero st.burnt_coins +ℤ amount_of o
  pub rows : (j : Address) → burnt_at j st' ≡ burnt_at j st ++ burnt_by j o
  pub pending : st'.pending_tx ≡ tx

-- A step that leaves alone what is about burning.
pub record Keeps (st st' : BlockStats) : Type 0 where
  pub total : st'.burnt_coins ≡ st.burnt_coins
  pub rows : st'.burnt_coins_by_addr ≡ st.burnt_coins_by_addr
  pub pending : st'.pending_tx ≡ st.pending_tx

pub Keeps-refl : {st : BlockStats} → Keeps st st
Keeps-refl = record { total = refl; rows = refl; pending = refl }

pub Keeps-trans : {a b c : BlockStats} → Keeps a b → Keeps b c → Keeps a c
Keeps-trans h k = record {
  total = k.total ∙ h.total;
  rows = k.rows ∙ h.rows;
  pending = k.pending ∙ h.pending;
}

pub Burns-nothing : (st st' : BlockStats) → Keeps st st' → Burns none st.pending_tx st st'
Burns-nothing st st' h = record {
  total = ap or_zero h.total ∙ sym (+ℤ_zero (or_zero st.burnt_coins));
  rows = λ j. ap (rows_in j) h.rows ∙ sym (append-nil (burnt_at j st));
  pending = h.pending;
}

pub add_burnt_coins-Burns :
    (hex : Hash → String) (a : Address) (x : Option ℤ) (reason : ℕ) (tx : Option Hash)
    (st : BlockStats)
    → Burns (burn hex a x reason tx) st.pending_tx st (add_burnt_coins hex a x reason tx st)
unfolding add_burnt_coins
add_burnt_coins-Burns hex a x reason tx st = elim (Bool-cases (zero_or_nil x)) [
  | inl e ↦ rw (e, add_burnt_coins) (Burns-nothing st st Keeps-refl)
  | inr e ↦
      rw (e, add_burnt_coins)
        (record {
          total = refl;
          rows = λ j.
              rows_in-added a j
                (record { amount = or_zero x; reason = reason; tx_hash = hash_text hex tx })
                st.burnt_coins_by_addr;
          pending = refl;
        })
]

add_mining_reward-Keeps :
    (a : Address) (b s : Option ℤ) (p : Bool) (st : BlockStats)
    → Keeps st (add_mining_reward a b s p st).1
unfolding add_mining_reward
add_mining_reward-Keeps a b s p st = elim (Bool-cases (zero_or_nil b && zero_or_nil s)) [
  | inl e ↦ rw (e, add_mining_reward) Keeps-refl
  | inr e ↦ rw (e, add_mining_reward) (record { total = refl; rows = refl; pending = refl })
]

pub add_proposer_reward-Keeps :
    (bd sd : Address) (b s : Option ℤ) (st : BlockStats)
    → Keeps st (add_proposer_reward bd sd b s st)
unfolding add_proposer_reward
add_proposer_reward-Keeps bd sd b s st = elim (Bool-cases (bd == sd)) [
  | inl e ↦ rw (e, add_proposer_reward) (add_mining_reward-Keeps bd b s true st)
  | inr e ↦
      rw (e, add_proposer_reward)
        (Keeps-trans (add_mining_reward-Keeps bd b (some (pos 0)) true st) (
          add_mining_reward-Keeps sd (some (pos 0)) s true
            (add_mining_reward bd b (some (pos 0)) true st).1))
]

add_to_committee-Keeps :
    (a : Address) (b s : ℤ) (st : BlockStats) → Keeps st (add_to_committee a b s st)
unfolding add_to_committee
add_to_committee-Keeps a b s st =
    elim (Option-cases (lookup a st.final_committee_rewards_by_addr)) [
      | inr (i, e) ↦ rw (e, add_to_committee) (record { total = refl; rows = refl; pending = refl })
      | inl e ↦
          let added = add_mining_reward a (some b) (some s) false st in
          rw (e, add_to_committee)
            (elim added.0
              as (λ o. Keeps st (elim o [
                | none ↦ added.1
                | some i ↦ record added.1 {
                  final_committee_rewards_by_addr =
                      insert a i added.1.final_committee_rewards_by_addr;
                }
              ])) [
                | none ↦ add_mining_reward-Keeps a (some b) (some s) false st
                | some i ↦
                    Keeps-trans (add_mining_reward-Keeps a (some b) (some s) false st)
                      (record { total = refl; rows = refl; pending = refl })
              ])
    ]

pub add_final_committee_reward-Keeps :
    (bd sd : Address) (b s : Option ℤ) (st : BlockStats)
    → Keeps st (add_final_committee_reward bd sd b s st)
unfolding add_final_committee_reward
add_final_committee_reward-Keeps bd sd b s st =
    elim (Bool-cases (is_zero (or_zero b) && is_zero (or_zero s))) [
      | inl e ↦
          rw (e, add_final_committee_reward) (record { total = refl; rows = refl; pending = refl })
      | inr e ↦ elim (Bool-cases (bd == sd)) [
        | inl same ↦
            rw (e, same, add_final_committee_reward)
              (Keeps-trans (add_to_committee-Keeps bd (or_zero b) (or_zero s) st)
                (record { total = refl; rows = refl; pending = refl }))
        | inr other ↦
            rw (e, other, add_final_committee_reward)
              (Keeps-trans
                (Keeps-trans (add_to_committee-Keeps bd (or_zero b) (pos 0) st) (
                  add_to_committee-Keeps sd (pos 0) (or_zero s)
                    (add_to_committee bd (or_zero b) (pos 0) st)))
                (record { total = refl; rows = refl; pending = refl }))
      ]
    ]
