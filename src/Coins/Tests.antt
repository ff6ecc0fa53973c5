-- ===== src/Coins/Tests.antt =====
-- The coins of a block with a killed identity and a pool's proposer.
use Prim.Native.String.{String}
use idena_indexer.Base.{zero, suc, ◌≡◌, refl, false, some, none, List, [], ◌∷◌}
use idena_indexer.Base.Int.{ℤ, pos, ◌+ℤ◌, ◌-ℤ◌}
use idena_indexer.Node.{Address, Hash}
use idena_indexer.Coins.{or_zero}
use idena_indexer.Coins.Burnt.{
  Call, penalty, fee, kill_invitee, begin_tx, complete_tx, run, burns, total_of, burns_at, burnt_at,
}
use idena_indexer.Coins.Ledger.{empty_stats, run-burns}
use idena_indexer.Coins.Mining.{mined}
use idena_indexer.Coins.MiningCalls as Mines
use idena_indexer.Coins.MiningCalls.{paid, run-mines}
use idena_indexer.EpochRewards.Sums.{balances}

abbrev hex : Hash → String
hex h = "0x1"

-- Half of a fee is burnt, here 4 of 8.
abbrev half : ℤ → ℤ
half x = pos 4

abbrev calls : List Call
calls =
    penalty 1 (some (pos 3))
    ∷ begin_tx (suc zero)
    ∷ fee 1 (some (pos 8)) (some (suc zero))
    ∷ kill_invitee (suc zero) 2 (some (pos 10)) (some (pos 7))
    ∷ complete_tx
    ∷ penalty 3 none
    ∷ []

run-burns_example :
    (or_zero (run hex half calls empty_stats).burnt_coins ≡ total_of (burns hex half none calls))
    × ((a : Address)
        → burnt_at a (run hex half calls empty_stats) ≡ burns_at a (burns hex half none calls))
run-burns_example = run-burns hex half calls

burnt_total : total_of (burns hex half none calls) ≡ pos 10
unfolding total_of burns ◌+ℤ◌ ◌-ℤ◌
burnt_total = refl

burnt_of_1 :
    burns_at 1 (burns hex half none calls)
    ≡ record { amount = pos 3; reason = 0; tx_hash = "" }
      ∷ record { amount = pos 4; reason = 2; tx_hash = "0x1" }
      ∷ []
unfolding burns_at burns ◌-ℤ◌
burnt_of_1 = refl

abbrev mining : List Mines.Call
mining =
    Mines.proposer_reward 9 1 (some (pos 5)) (some (pos 2))
    ∷ Mines.committee_reward 9 1 (some (pos 3)) (some (pos 1))
    ∷ Mines.committee_reward 9 2 (some (pos 3)) none
    ∷ []

run-mines_example :
    mined balances false 9 (Mines.run mining empty_stats) ≡ paid balances false 9 mining
run-mines_example = run-mines mining balances false 9

of_the_pool : paid balances false 9 mining ≡ pos 6
unfolding paid ◌+ℤ◌
of_the_pool = refl
