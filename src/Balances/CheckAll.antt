-- ===== src/Balances/CheckAll.antt =====
-- indexer/check_balances.go: `checkBalances` as a whole.
use Prim.Native.String.{String}
use idena_indexer.Base.{
  ℕ, ◌≡◌, ◌↔◌, Option, none, some, List, [], ◌∷◌, arith, ltb, if◌then◌else◌, Option-cases, inl, inr,
}
use idena_indexer.Base.Eq.{Comparable, string_key}
use idena_indexer.Base.Map.{Map, IsMap, insert, insert-IsMap}
use idena_indexer.Balances.Check.{Row, Mismatch, check_from, check_from_iff, balance_at}

-- What the database answers; `none` is an error.
pub record Database {ℓ} (D : Type ℓ) : Type ℓ where
  pub balance_update_gap_cnt : Option ℕ
  pub burnt_coins_inconsistency_cnt : Option ℕ
  pub balances : Option (List (Row D))
  pub latest_balance_updates : Option (List (Row D))

-- The panics of `checkBalances`.
pub data Panic {ℓ} (D : Type ℓ) : Type ℓ where
  gap_cnt_unknown burnt_cnt_unknown balances_unknown latest_unknown : Panic D
  gaps inconsistencies : ℕ → Panic D
  balances_mismatch latest_mismatch : Mismatch String D → Panic D

-- `to_lower` is `strings.ToLower`, `zero` the decimal that `IsZero` is true of.
module _ {D : Type 0} ⦃decimal : Comparable D⦄ (zero : D) (to_lower : String → String) where
  -- `toMap`, and the map that `IterateOverAccounts` fills.
  unfoldable pub fill : List (Row D) → Map String D → Map String D
  fill [] m = m
  fill (r ∷ rs) m = fill rs (insert (to_lower r.address) r.balance m)

  abbrev pub to_map : List (Row D) → Map String D
  to_map rs = fill rs []

  unfoldable pub check_lists : List (Row D) → List (Row D) → List (Row D) → Option (Panic D)
  check_lists accounts db_balances latest =
      elim (check_from zero (to_map accounts) (to_map db_balances)) [
        | some e ↦ some (balances_mismatch e)
        | none ↦ elim (check_from zero (to_map accounts) (to_map latest)) [
          | some e ↦ some (latest_mismatch e)
          | none ↦ none
        ]
      ]

  unfoldable pub check_rows : List (Row D) → Database D → Option (Panic D)
  unfolding check_lists
  check_rows accounts db = elim db.balances [
    | none ↦ some balances_unknown
    | some db_balances ↦ elim db.latest_balance_updates [
      | none ↦ some latest_unknown
      | some latest ↦ check_lists accounts db_balances latest
    ]
  ]

  unfoldable pub check_burnt : List (Row D) → Database D → Option (Panic D)
  unfolding check_rows
  check_burnt accounts db = elim db.burnt_coins_inconsistency_cnt [
    | none ↦ some burnt_cnt_unknown
    | some cnt ↦ if ltb 0 cnt then some (inconsistencies cnt) else check_rows accounts db
  ]

  -- `none` where the function returns.
  unfoldable pub check_balances : List (Row D) → Database D → Option (Panic D)
  unfolding check_burnt
  check_balances accounts db = elim db.balance_update_gap_cnt [
    | none ↦ some gap_cnt_unknown
    | some cnt ↦ if ltb 0 cnt then some (gaps cnt) else check_burnt accounts db
  ]

  fill-IsMap : (rs : List (Row D)) (m : Map String D) → IsMap m → IsMap (fill rs m)
  unfolding fill
  fill-IsMap [] m h = h
  fill-IsMap (r ∷ rs) m h =
      fill-IsMap rs (insert (to_lower r.address) r.balance m)
        (insert-IsMap (to_lower r.address) r.balance m h)

  -- Every address has the same balance in two lists, one that a list does not have counting as zero.
  abbrev pub Agree : List (Row D) → List (Row D) → Type 0
  Agree xs ys = (a : String) → balance_at zero a (to_map xs) ≡ balance_at zero a (to_map ys)

  abbrev pub AgreeWith : List (Row D) → Option (List (Row D)) → Type 0
  AgreeWith accounts o = (rows : List (Row D)) × (o ≡ some rows) × Agree accounts rows

  to_map_agreement :
      (xs ys : List (Row D)) → (check_from zero (to_map xs) (to_map ys) ≡ none) ↔ Agree xs ys
  to_map_agreement xs ys =
      check_from_iff zero (to_map xs) (to_map ys) (fill-IsMap xs [] tt) (fill-IsMap ys [] tt)

  check_lists_iff :
      (accounts db_balances latest : List (Row D))
      → (check_lists accounts db_balances latest ≡ none) ↔ (
          (check_from zero (to_map accounts) (to_map db_balances) ≡ none)
          × (check_from zero (to_map accounts) (to_map latest) ≡ none))
  unfolding check_lists
  check_lists_iff accounts db_balances latest = ground arith

  rows_agree :
      (accounts : List (Row D)) (db : Database D)
      → check_rows accounts db ≡ none
      → AgreeWith accounts db.balances × AgreeWith accounts db.latest_balance_updates
  unfolding check_rows
  rows_agree accounts db e = elim (Option-cases db.balances) [
    | inl n ↦ ground arith
    | inr (xs, n) ↦ elim (Option-cases db.latest_balance_updates) [
      | inl n' ↦ ground arith
      | inr (ys, n') ↦
          let lists : check_lists accounts xs ys ≡ none = ground arith in
          let both = (check_lists_iff accounts xs ys).0 lists in
          (
            (xs, n, (to_map_agreement accounts xs).0 (both.0)),
            (ys, n', (to_map_agreement accounts ys).0 (both.1)),
          )
    ]
  ]

  agreement_passes :
      (accounts : List (Row D)) (db : Database D)
      → AgreeWith accounts db.balances × AgreeWith accounts db.latest_balance_updates
      → check_rows accounts db ≡ none
  unfolding check_rows
  agreement_passes accounts db ((xs, n, h), (ys, n', h')) =
      let lists : check_lists accounts xs ys ≡ none =
        (check_lists_iff accounts xs ys).1
          ((to_map_agreement accounts xs).1 h, (to_map_agreement accounts ys).1 h') in
      ground arith

  check_counts :
      (accounts : List (Row D)) (db : Database D)
      → (check_balances accounts db ≡ none) ↔ (
          (db.balance_update_gap_cnt ≡ some 0)
          × (db.burnt_coins_inconsistency_cnt ≡ some 0)
          × (check_rows accounts db ≡ none))
  unfolding check_balances check_burnt
  check_counts accounts db = ground arith

  -- `checkBalances` returns without panic just where the database answers every question, counts
  -- neither gaps nor inconsistencies, and in its balances and in its latest balance updates gives
  -- every address the balance that the state gives, one that is missing counting as zero.
  pub check_balances_iff :
      (accounts : List (Row D)) (db : Database D)
      → (check_balances accounts db ≡ none) ↔ (
          (db.balance_update_gap_cnt ≡ some 0)
          × (db.burnt_coins_inconsistency_cnt ≡ some 0)
          × AgreeWith accounts db.balances
          × AgreeWith accounts db.latest_balance_updates)
  check_balances_iff accounts db =
      let counts = check_counts accounts db in
      (
        (λ e. let c = counts.0 e in let r = rows_agree accounts db (c.2) in (c.0, c.1, r.0, r.1)),
        (λ (g, b, x, y). counts.1 (g, b, agreement_passes accounts db (x, y))),
      )
