-- ===== src/Upgrades/Counts.antt =====
-- voting.go: the cache counts each vote once.
use idena_indexer.Base.{
  ℕ, suc, ◌+◌, ◌%◌, ◌^◌, ◌≤◌, ◌<◌, ◌≡◌, refl, none, some, List, [], ◌∷◌, arith, if◌then◌else◌,
  length,
}
use idena_indexer.Base.Eq.{◌==◌, number_key}
use idena_indexer.Base.Map.{Map, lookup, insert, lookup-insert, IsMap, insert-IsMap}
use idena_indexer.Node.{Address}
use idena_indexer.Upgrades.{Votes, count_votes, rows, update}

unfoldable pub voters_for : ℕ → List (Address × ℕ) → ℕ
voters_for u [] = 0
voters_for u ((a, v) ∷ vs) = let rest = voters_for u vs in if v == u then suc rest else rest

abbrev votes_in : ℕ → Map ℕ ℕ → ℕ
votes_in u m = elim (lookup u m) [ none ↦ 0 | some n ↦ n ]

voters_for-bound : (u : ℕ) (vs : List (Address × ℕ)) → voters_for u vs ≤ length vs
unfolding voters_for
voters_for-bound u [] = omega arith
voters_for-bound u ((a, v) ∷ vs) = ground (arith, voters_for-bound u vs)

votes_in-insert :
    (u v n : ℕ) (m : Map ℕ ℕ) → votes_in u (insert v n m) ≡ (if v == u then n else votes_in u m)
votes_in-insert u v n m = ground (arith, lookup-insert v u n m)

votes_in-count_votes :
    (u : ℕ) (vs : List (Address × ℕ)) (m : Map ℕ ℕ)
    → ((w : ℕ) → votes_in w m + length vs < 2 ^ 64)
    → votes_in u (count_votes vs m) ≡ votes_in u m + voters_for u vs
unfolding count_votes voters_for
votes_in-count_votes u [] m small = omega arith
votes_in-count_votes u ((a, v) ∷ vs) m small =
    let n = votes_in v m in
    let fits : (n + 1) % 2 ^ 64 ≡ n + 1 = omega (arith, small v) in
    let next = insert v ((n + 1) % 2 ^ 64) m in
    let smaller : (w : ℕ) → votes_in w next + length vs < 2 ^ 64 =
      λ w. ground (arith, small w, small v, votes_in-insert w v ((n + 1) % 2 ^ 64) m, fits) in
    ground (
      arith,
      votes_in-count_votes u vs next smaller,
      votes_in-insert u v ((n + 1) % 2 ^ 64) m,
      fits,
    )

-- The votes that the rows have for an upgrade, and the rows for it.
unfoldable pub votes_for : ℕ → List Votes → ℕ
votes_for u [] = 0
votes_for u (r ∷ rs) = let rest = votes_for u rs in if r.upgrade == u then r.votes + rest else rest

unfoldable pub rows_for : ℕ → List Votes → ℕ
rows_for u [] = 0
rows_for u (r ∷ rs) = let rest = rows_for u rs in if r.upgrade == u then suc rest else rest

count_votes-IsMap : (vs : List (Address × ℕ)) (m : Map ℕ ℕ) → IsMap m → IsMap (count_votes vs m)
unfolding count_votes
count_votes-IsMap [] m h = h
count_votes-IsMap ((a, u) ∷ vs) m h = count_votes-IsMap vs _ (insert-IsMap u _ m h)

votes_for-absent :
    (u : ℕ) (m : Map ℕ ℕ)
    → lookup u m ≡ none
    → (votes_for u (rows m) ≡ 0) × (rows_for u (rows m) ≡ 0)
unfolding rows votes_for rows_for lookup
votes_for-absent u [] h = (refl, refl)
votes_for-absent u ((v, n) ∷ m) h = ground (arith, votes_for-absent u m)

votes_for-rows :
    (u : ℕ) (m : Map ℕ ℕ)
    → IsMap m
    → (votes_for u (rows m) ≡ votes_in u m) × (rows_for u (rows m) ≤ 1)
unfolding rows votes_for rows_for lookup
votes_for-rows u [] h = (refl, omega arith)
votes_for-rows u ((v, n) ∷ m) h =
    ground (arith, votes_for-rows u m h.1, votes_for-absent u m, votes_for-absent v m h.0)

-- Where there are fewer than 2 ^ 64 votes, the cache has for an upgrade as many votes as there are
-- voters for it, and at most one row.
pub update_counts :
    (vs : List (Address × ℕ))
    → length vs < 2 ^ 64
    → (u : ℕ) → (votes_for u (update vs) ≡ voters_for u vs) × (rows_for u (update vs) ≤ 1)
unfolding update lookup
update_counts vs small u =
    let table = count_votes vs [] in
    let table-IsMap = count_votes-IsMap vs [] tt in
    let (sum, one) = votes_for-rows u table table-IsMap in
    (omega (arith, sum, votes_in-count_votes u vs [] (λ w. omega (arith, small))), one)
