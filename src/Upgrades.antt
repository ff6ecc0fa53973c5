-- ===== src/Upgrades.antt =====
-- core/holder/upgrade/voting.go and indexer/upgrade_voting.go: the votes for upgrades of the network.
mod Counts
mod Detect
pub mod History
pub mod Steps
mod Tests
use idena_indexer.Base.{
  ℕ, ◌+◌, ◌%◌, ◌^◌, Bool, true, false, ◌&&◌, ◌||◌, not, Option, none, some, List, [], ◌∷◌, ◌==◌,
  leb, if◌then◌else◌, length,
}
use idena_indexer.Base.Eq.{number_key}
use idena_indexer.Base.Map.{Map, lookup, insert}
use idena_indexer.Node.{Address}

pub record Votes : Type 0 where
  pub upgrade : ℕ
  pub votes : ℕ

-- `votesByUpgrade[u]++` for each vote, in a `uint64`.
unfoldable pub count_votes : List (Address × ℕ) → Map ℕ ℕ → Map ℕ ℕ
count_votes [] m = m
count_votes ((a, u) ∷ vs) m =
    let n : ℕ = elim (lookup u m) [ none ↦ 0 | some k ↦ k ] in
    count_votes vs (insert u ((n + 1) % 2 ^ 64) m)

unfoldable pub rows : Map ℕ ℕ → List Votes
rows [] = []
rows ((u, n) ∷ m) = record { upgrade = u; votes = n } ∷ rows m

-- What `update` puts into the cache, for the votes that the upgrader has; nil is the empty list.
unfoldable pub update : List (Address × ℕ) → List Votes
unfolding count_votes rows
update votes = rows (count_votes votes [])

pub record ConsensusConf : Type 0 where
  pub start_activation_date : ℕ
  pub end_activation_date : ℕ

pub record UpgradeVotes : Type 0 where
  pub upgrade : ℕ
  pub votes : ℕ
  pub timestamp : ℕ

pub data Active : Type 0 where
  active : Active

-- The keys of the result are what counts.
unfoldable pub detect_active_upgrade_votings : Map ℕ ConsensusConf → ℕ → Map ℕ Active → Map ℕ Active
detect_active_upgrade_votings [] now res = res
detect_active_upgrade_votings ((v, c) ∷ cs) now res = detect_active_upgrade_votings cs now (
    if leb c.start_activation_date now && leb now c.end_activation_date
    then insert v active res
    else res)

-- `config.ConsensusVerson` is a type of idena-go: `to_version` is the conversion of a `uint32` to it, and
-- `of_version` the one back. Versions are numbers here.
module _ (to_version of_version : ℕ → ℕ) where
  unfoldable pub keep_votes : Map ℕ Active → ℕ → ℕ → List Votes → List UpgradeVotes
  keep_votes votings current now [] = []
  keep_votes votings current now (v ∷ vs) =
      let rest = keep_votes votings current now vs in
      if leb v.upgrade (of_version current)
      then rest
      else elim (lookup (to_version v.upgrade) votings) [
        | none ↦ rest
        | some w ↦ record { upgrade = v.upgrade; votes = v.votes; timestamp = now } ∷ rest
      ]

  unfoldable pub detect_upgrade_votes : Map ℕ ConsensusConf → ℕ → ℕ → List Votes → List UpgradeVotes
  unfolding detect_active_upgrade_votings keep_votes
  detect_upgrade_votes versions now current votes =
      let votings = detect_active_upgrade_votings versions now [] in
      if length votings == 0 then [] else keep_votes votings current now votes
