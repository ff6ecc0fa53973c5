-- ===== src/Balances/Totals.antt =====
-- balance.go and indexer.go: the totals that the indexer keeps are the sums over all accounts, through
-- every sequence of blocks and resets.
use idena_indexer.Base.{
  ◌≡◌, ◌⊎◌, refl, sym, ap, ◌∙◌, false, none, some, List, [], ◌∷◌, ◌++◌, map, append_assoc,
  append-nil, inl, inr, if◌then◌else◌,
}
use idena_indexer.Base.Int.{ℤ, pos, ◌+ℤ◌, ◌-ℤ◌, int_laws, +ℤ_assoc, eq_of_parts}
use idena_indexer.Node.{Address}
use idena_indexer.Balances.{
  AppState, Balance, BalanceDiff, IndexerState, Coins, BlockInput, visited, member, collect,
  update_addrs, determine_balance_updates, accumulate, totals_of, initialize_state_if_needed,
  get_coins, apply_on_state, index_totals,
}
use idena_indexer.Balances.Update.{sum_of-update}
use idena_indexer.Balances.Sums.{Distinct, sum_of}

+ℤ_zero : (a : ℤ) → a ≡ a +ℤ pos 0
+ℤ_zero a = eq_of_parts _ _ (omega int_laws)

+ℤ-move : (a b c d : ℤ) → a +ℤ b -ℤ c +ℤ d ≡ a +ℤ (b -ℤ c +ℤ d)
+ℤ-move a b c d = eq_of_parts _ _ (omega int_laws)

accumulate_lem :
    (s : AppState) (xs : List Address) (balance stake : ℤ)
    → ((accumulate s xs (balance, stake)).0 ≡ balance +ℤ sum_of s.get_balance xs)
      × ((accumulate s xs (balance, stake)).1 ≡ stake +ℤ sum_of s.get_stake_balance xs)
unfolding accumulate sum_of
accumulate_lem s [] balance stake = (+ℤ_zero balance, +ℤ_zero stake)
accumulate_lem s (a ∷ xs) balance stake =
    let ih = accumulate_lem s xs (balance +ℤ s.get_balance a) (stake +ℤ s.get_stake_balance a) in
    (
      ih.0 ∙ +ℤ_assoc balance (s.get_balance a) (sum_of s.get_balance xs),
      ih.1 ∙ +ℤ_assoc stake (s.get_stake_balance a) (sum_of s.get_stake_balance xs),
    )

collect_diff :
    (prev new : AppState) (xs : List Address) (res : List Balance) (diff : BalanceDiff)
    → ((collect prev new xs (res, diff)).1.balance
        ≡ diff.balance +ℤ sum_of (λ a. new.get_balance a -ℤ prev.get_balance a) xs)
      × ((collect prev new xs (res, diff)).1.stake
          ≡ diff.stake +ℤ sum_of (λ a. new.get_stake_balance a -ℤ prev.get_stake_balance a) xs)
unfolding collect sum_of
collect_diff prev new [] res diff = (+ℤ_zero diff.balance, +ℤ_zero diff.stake)
collect_diff prev new (a ∷ xs) res diff =
    let ih = collect_diff prev new xs _ _ in (ih.0 ∙ +ℤ-move _ _ _ _, ih.1 ∙ +ℤ-move _ _ _ _)

-- The row of an address has its balance and stake in the new state.
abbrev pub row_of : AppState → Address → Balance
row_of new a = record { address = a; balance = new.get_balance a; stake = new.get_stake_balance a }

collect_rows :
    (prev new : AppState) (xs : List Address) (res : List Balance) (diff : BalanceDiff)
    → (collect prev new xs (res, diff)).0 ≡ res ++ map (row_of new) xs
unfolding collect
collect_rows prev new [] res diff = sym (append-nil res)
collect_rows prev new (a ∷ xs) res diff =
    collect_rows prev new xs _ _ ∙ append_assoc res (row_of new a ∷ []) (map (row_of new) xs)

-- The accounts that are iterated over are distinct, and no other address has a balance or a stake.
pub record IsState (s : AppState) : Type 0 where
  pub distinct : Distinct (visited s.accounts)
  pub balance_elsewhere :
      (a : Address) → member a (visited s.accounts) ≡ false → s.get_balance a ≡ pos 0
  pub stake_elsewhere :
      (a : Address) → member a (visited s.accounts) ≡ false → s.get_stake_balance a ≡ pos 0

-- The addresses that the rows are made of.
abbrev pub touched : BlockInput → List Address
touched i = elim (update_addrs i.is_first_block i.balance_update_addrs i.prev) [
  | none ↦ []
  | some s ↦ s
]

-- What idena-go promises of a block's two states and of the addresses that it says have changed.
pub record IsInput (i : BlockInput) : Type 0 where
  pub prev_is : IsState i.prev
  pub new_is : IsState i.new
  pub distinct : Distinct (touched i)
  pub balance_kept :
      (a : Address) → member a (touched i) ≡ false → i.new.get_balance a ≡ i.prev.get_balance a
  pub stake_kept :
      (a : Address)
      → member a (touched i) ≡ false
      → i.new.get_stake_balance a ≡ i.prev.get_stake_balance a

abbrev pub total_balance_of : AppState → ℤ
total_balance_of s = sum_of s.get_balance (visited s.accounts)

abbrev pub total_stake_of : AppState → ℤ
total_stake_of s = sum_of s.get_stake_balance (visited s.accounts)

-- The totals are those of a state.
abbrev pub Tracks : AppState → IndexerState → Type 0
Tracks s st =
    (st.total_balance ≡ some (total_balance_of s)) × (st.total_stake ≡ some (total_stake_of s))

abbrev pub IsNil : IndexerState → Type 0
IsNil st = (st.total_balance ≡ none) × (st.total_stake ≡ none)

zero_+ℤ : (a : ℤ) → pos 0 +ℤ a ≡ a
zero_+ℤ a = eq_of_parts _ _ (omega int_laws)

totals_of-Tracks : (s : AppState) → Tracks s (totals_of s)
unfolding totals_of
totals_of-Tracks s =
    let t = accumulate_lem s (visited s.accounts) (pos 0) (pos 0) in
    (ap some (t.0 ∙ zero_+ℤ _), ap some (t.1 ∙ zero_+ℤ _))

initialize_state_if_needed-Tracks :
    (s : AppState) (st : IndexerState)
    → IsNil st ⊎ Tracks s st
    → Tracks s (initialize_state_if_needed s st)
unfolding initialize_state_if_needed
initialize_state_if_needed-Tracks s st (inl h) = rw h.1 (totals_of-Tracks s)
initialize_state_if_needed-Tracks s st (inr h) = rw h.1 (rw h.0 (refl, refl))

-- The rows and the change that `determineBalanceUpdates` gives.
determine_balance_updates_lem :
    (i : BlockInput)
    → let r = determine_balance_updates i.is_first_block i.balance_update_addrs i.prev i.new in
      (r.0 ≡ map (row_of i.new) (touched i))
      × (r.1.balance ≡ sum_of (λ a. i.new.get_balance a -ℤ i.prev.get_balance a) (touched i))
      × (r.1.stake
          ≡ sum_of (λ a. i.new.get_stake_balance a -ℤ i.prev.get_stake_balance a) (touched i))
unfolding determine_balance_updates sum_of
determine_balance_updates_lem i =
    elim (update_addrs i.is_first_block i.balance_update_addrs i.prev)
      as (λ u.
        let r : List Balance × BalanceDiff = elim u [
          | none ↦ ([], record { balance = pos 0; stake = pos 0 })
          | some s ↦ collect i.prev i.new s ([], record { balance = pos 0; stake = pos 0 })
        ] in
        let xs : List Address = elim u [ none ↦ [] | some s ↦ s ] in
        (r.0 ≡ map (row_of i.new) xs)
        × (r.1.balance ≡ sum_of (λ a. i.new.get_balance a -ℤ i.prev.get_balance a) xs)
        × (r.1.stake ≡ sum_of (λ a. i.new.get_stake_balance a -ℤ i.prev.get_stake_balance a) xs)) [
          | none ↦ (refl, refl, refl)
          | some s ↦
              let d = collect_diff i.prev i.new s [] (record { balance = pos 0; stake = pos 0 }) in
              (
                collect_rows i.prev i.new s [] (record { balance = pos 0; stake = pos 0 }),
                d.0 ∙ zero_+ℤ _,
                d.1 ∙ zero_+ℤ _,
              )
        ]

-- What `getCoins` gives where the totals are there.
abbrev pub coins_of : BlockInput → BalanceDiff → ℤ → ℤ → Coins
coins_of i diff balance stake = record {
  minted =
      if i.is_first_block
      then some (elim i.minted_coins [ none ↦ pos 0 | some m ↦ m ] +ℤ balance +ℤ stake)
      else i.minted_coins;
  burnt = i.burnt_coins;
  total_balance = balance +ℤ diff.balance;
  total_stake = stake +ℤ diff.stake;
}

get_coins_lem :
    (i : BlockInput) (diff : BalanceDiff) (st : IndexerState) (balance stake : ℤ)
    → st.total_balance ≡ some balance
    → st.total_stake ≡ some stake
    → get_coins i.is_first_block i.minted_coins i.burnt_coins diff st
      ≡ some (coins_of i diff balance stake)
unfolding get_coins
get_coins_lem i diff st balance stake b k = rw b (rw k refl)

-- One block: the totals go from those of the state before to those of the state after, and each
-- touched address gets the row of its balance and stake.
pub index_totals-Tracks :
    (i : BlockInput) (st : IndexerState)
    → IsInput i
    → IsNil st ⊎ Tracks i.prev st
    → (c : Coins) × ((st' : IndexerState) × (index_totals i st
          ≡ some (map (row_of i.new) (touched i), c, st'))
        × Tracks i.new st'
        × (c.total_balance ≡ total_balance_of i.new)
        × (c.total_stake ≡ total_stake_of i.new))
unfolding index_totals apply_on_state
index_totals-Tracks i st h t =
    let t' = initialize_state_if_needed-Tracks i.prev st t in
    let u = determine_balance_updates_lem i in
    let b =
      sum_of-update i.prev.get_balance i.new.get_balance (visited i.prev.accounts)
        (visited i.new.accounts) (touched i) h.prev_is.distinct h.new_is.distinct h.distinct
        h.prev_is.balance_elsewhere h.new_is.balance_elsewhere h.balance_kept in
    let k =
      sum_of-update i.prev.get_stake_balance i.new.get_stake_balance (visited i.prev.accounts)
        (visited i.new.accounts) (touched i) h.prev_is.distinct h.new_is.distinct h.distinct
        h.prev_is.stake_elsewhere h.new_is.stake_elsewhere h.stake_kept in
    let diff = (determine_balance_updates i.is_first_block i.balance_update_addrs i.prev i.new).1 in
    let c : Coins = coins_of i diff (total_balance_of i.prev) (total_stake_of i.prev) in
    let same_balance : c.total_balance ≡ total_balance_of i.new =
      ap (λ d. total_balance_of i.prev +ℤ d) (u.1) ∙ b in
    let same_stake : c.total_stake ≡ total_stake_of i.new =
      ap (λ d. total_stake_of i.prev +ℤ d) (u.2) ∙ k in
    let paid =
      get_coins_lem i diff (initialize_state_if_needed i.prev st) (total_balance_of i.prev)
        (total_stake_of i.prev) (t'.0) (t'.1) in
    (
      c,
      (
        apply_on_state c,
        rw (paid, index_totals) (ap (λ r. some (r, c, apply_on_state c)) (u.0)),
        (ap some same_balance, ap some same_stake),
        same_balance,
        same_stake,
      ),
    )
