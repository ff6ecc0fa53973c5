-- ===== src/TxPool/ByHash.antt =====
-- `txsByHashWrapper`: transactions by hash.
use idena_indexer.Base.{
  ℕ, ◌+◌, Bool, true, false, Option, none, some, List, [], ◌∷◌, length, set, replicate, min, ◌==◌,
  if◌then◌else◌,
}
use idena_indexer.Base.Int.{ℤ, pos, negsuc}
use idena_indexer.Base.Eq.{number_key}
use idena_indexer.Base.Map.{Map, lookup, insert, erase}
use idena_indexer.Node.{Hash, Transaction, Node}

unfoldable pub add : Node → Transaction → Map Hash Transaction → Map Hash Transaction
add n tx m = insert (n.tx_hash tx) tx m

unfoldable pub contains : Hash → Map Hash Transaction → Bool
contains hash m = elim (lookup hash m) [ none ↦ false | some _ ↦ true ]

unfoldable pub remove : Hash → Map Hash Transaction → Map Hash Transaction
remove hash m = erase hash m

unfoldable pub get : Hash → Map Hash Transaction → Option Transaction
get hash m = lookup hash m

unfoldable pub is_empty : Map Hash Transaction → Bool
is_empty m = length m == 0

-- The loop of `all`: `res[i] = tx; i++; if i == size { break }`.
unfoldable pub fill :
    ℕ → ℕ → Map Hash Transaction → List (Option Transaction) → List (Option Transaction)
fill i size [] res = res
fill i size ((_, tx) ∷ m) res =
    let res' = set res i (some tx) in
    let rest = fill (i + 1) size m res' in if i + 1 == size then res' else rest

-- At most `count` transactions. `make` leaves nil pointers, `none`, which the loop overwrites.
unfoldable pub all : ℤ → Map Hash Transaction → List (Option Transaction)
unfolding fill
all (negsuc _) m = []
all (pos count) m =
    let size = min count (length m) in
    if count == 0 then [] else if size == 0 then [] else fill 0 size m (replicate size none)
