-- ===== src/Balances/CheckTests.antt =====
-- check_balances.go on a state with two accounts.
use Prim.Native.String.{String}
use idena_indexer.Base.{ℕ, ◌≡◌, ◌↔◌, refl, none, some, List, [], ◌∷◌, if◌then◌else◌}
use idena_indexer.Base.Eq.{◌==◌, string_key, number_key}
use idena_indexer.Base.Map.{Map, lookup, erase, insert}
use idena_indexer.Balances.Check.{Row, differ, check_rest, check_from, check_from_iff, balance_at}
use idena_indexer.Balances.CheckAll.{
  Database, balances_mismatch, fill, check_lists, check_rows, check_burnt, check_balances,
  AgreeWith, check_balances_iff,
}

abbrev lower : String → String
lower s = if s == "0xA" then "0xa" else s

abbrev row : String → ℕ → Row ℕ
row a d = record { address = a; balance = d }

abbrev accounts : List (Row ℕ)
accounts = row "0xA" 5 ∷ row "0xb" 0 ∷ []

abbrev database : ℕ → Database ℕ
database d = record {
  balance_update_gap_cnt = some 0;
  burnt_coins_inconsistency_cnt = some 0;
  balances = some (row "0xa" d ∷ []);
  latest_balance_updates = some (row "0xc" 0 ∷ row "0xa" 5 ∷ []);
}

same_balances : check_balances 0 lower accounts (database 5) ≡ none
unfolding check_balances check_burnt check_rows check_lists check_from check_rest fill lookup erase
    insert
same_balances = refl

other_balances :
    check_balances 0 lower accounts (database 4) ≡ some (balances_mismatch (differ "0xa" 5 4))
unfolding check_balances check_burnt check_rows check_lists check_from check_rest fill lookup erase
    insert
other_balances = refl

check_balances_iff_example : (check_balances 0 lower accounts (database 5) ≡ none) ↔ (
    ((database 5).balance_update_gap_cnt ≡ some 0)
    × ((database 5).burnt_coins_inconsistency_cnt ≡ some 0)
    × AgreeWith 0 lower accounts (database 5).balances
    × AgreeWith 0 lower accounts (database 5).latest_balance_updates)
check_balances_iff_example = check_balances_iff 0 lower accounts (database 5)

abbrev state_map : Map String ℕ
state_map = ("0xa", 5) ∷ ("0xb", 0) ∷ []

abbrev db_map : Map String ℕ
db_map = ("0xc", 0) ∷ ("0xa", 5) ∷ []

check_from_iff_example :
    (check_from 0 state_map db_map ≡ none)
    ↔ ((a : String) → balance_at 0 a state_map ≡ balance_at 0 a db_map)
unfolding lookup
check_from_iff_example = check_from_iff 0 state_map db_map (refl, (refl, tt)) (refl, (refl, tt))
