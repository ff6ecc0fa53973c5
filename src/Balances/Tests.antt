-- ===== src/Balances/Tests.antt =====
-- The totals of balance and stake on two accounts, through a payment, a reset and another payment.
use idena_indexer.Base.{ℕ, ◌≡◌, refl, false, none, some, List, [], ◌∷◌, arith, ◌==◌, if◌then◌else◌}
use idena_indexer.Base.Int.{pos, ◌+ℤ◌, ◌-ℤ◌}
use idena_indexer.Balances.{
  AppState, IndexerState, BlockInput, index_totals, visited, member, update_addrs,
  determine_balance_updates, collect, get_coins, initialize_state_if_needed, totals_of, accumulate,
  apply_on_state,
}
use idena_indexer.Balances.Totals.{IsState, IsInput, Tracks}
use idena_indexer.Balances.Chain.{Event, block_indexed, state_loaded, loaded, run, run-IsFor}

-- Account 1 has `x`, account 2 the rest of ten; account 2 has a stake.
abbrev holding : ℕ → ℕ → AppState
holding x y = record {
  accounts = some 1 ∷ some 2 ∷ [];
  get_balance = λ a. if a == 1 then pos x else if a == 2 then pos y else pos 0;
  get_stake_balance = λ a. if a == 2 then pos 4 else pos 0;
}

holding-IsState : (x y : ℕ) → IsState (holding x y)
unfolding visited member
holding-IsState x y = record {
  distinct = (refl, (refl, tt));
  balance_elsewhere = λ a h. ground arith;
  stake_elsewhere = λ a h. ground arith;
}

abbrev payment : ℕ → ℕ → ℕ → ℕ → BlockInput
payment x y x' y' = record {
  is_first_block = false;
  balance_update_addrs = some (2 ∷ 1 ∷ []);
  prev = holding x y;
  new = holding x' y';
  minted_coins = some (pos 1);
  burnt_coins = none;
}

payment-IsInput : (x y x' y' : ℕ) → IsInput (payment x y x' y')
unfolding visited member update_addrs
payment-IsInput x y x' y' = record {
  prev_is = holding-IsState x y;
  new_is = holding-IsState x' y';
  distinct = (refl, (refl, tt));
  balance_kept = λ a h. ground arith;
  stake_kept = λ a h. ground arith;
}

abbrev events : List Event
events =
    block_indexed (payment 7 3 5 5)
    ∷ block_indexed (payment 5 5 0 11)
    ∷ state_loaded
    ∷ block_indexed (payment 6 6 2 10)
    ∷ []

paid :
    index_totals (payment 7 3 5 6) loaded
    ≡ some (
      record { address = 2; balance = pos 6; stake = pos 4 }
          ∷ record { address = 1; balance = pos 5; stake = pos 0 }
          ∷ [],
      record { minted = some (pos 1); burnt = none; total_balance = pos 11; total_stake = pos 4 },
      record { total_balance = some (pos 11); total_stake = some (pos 4) },
    )
unfolding index_totals determine_balance_updates collect update_addrs get_coins
    initialize_state_if_needed totals_of accumulate visited apply_on_state ◌+ℤ◌ ◌-ℤ◌
paid = refl

run-IsFor_example : (st : IndexerState) × (run events loaded ≡ some st) × Tracks (holding 2 10) st
run-IsFor_example =
    run-IsFor none events loaded
      (
        payment-IsInput 7 3 5 5,
        ((payment-IsInput 5 5 0 11, refl), (tt, (payment-IsInput 6 6 2 10, tt))),
      )
      (refl, refl)
