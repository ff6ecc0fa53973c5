-- ===== src/Upgrades/Detect.antt =====
-- upgrade_voting.go, `detectUpgradeVotes`: the votes that go to the database.
use idena_indexer.Base.{
  ℕ, ◌+◌, ◌^◌, ◌<◌, ◌≡◌, refl, Bool, true, false, ◌&&◌, ◌||◌, none, some, List, [], ◌∷◌, arith,
  if◌then◌else◌, length, leb, ltb, Bool-cases, Option-cases, inl, inr, ap, ==_iff,
}
use idena_indexer.Base.Eq.{◌==◌, number_key}
use idena_indexer.Base.Map.{Map, lookup, insert, lookup-insert}
use idena_indexer.Node.{Address}
use idena_indexer.Upgrades.{
  Votes, ConsensusConf, UpgradeVotes, Active, active, detect_active_upgrade_votings, keep_votes,
  detect_upgrade_votes, update,
}
use idena_indexer.Upgrades.Counts.{voters_for, votes_for, update_counts}

-- A version whose activation is under way.
unfoldable pub is_active : ℕ → ℕ → Map ℕ ConsensusConf → Bool
is_active u now [] = false
is_active u now ((v, c) ∷ cs) =
    (v == u && leb c.start_activation_date now && leb now c.end_activation_date)
    || is_active u now cs

abbrev has : ℕ → Map ℕ Active → Bool
has u m = elim (lookup u m) [ none ↦ false | some w ↦ true ]

has-detect :
    (u now : ℕ) (cs : Map ℕ ConsensusConf) (res : Map ℕ Active)
    → has u (detect_active_upgrade_votings cs now res) ≡ (is_active u now cs || has u res)
unfolding detect_active_upgrade_votings is_active
has-detect u now [] res = refl
has-detect u now ((v, c) ∷ cs) res = ground (
  arith,
  has-detect u now cs res,
  has-detect u now cs (insert v active res),
  lookup-insert v u active res,
)

unfoldable pub saved_for : ℕ → List UpgradeVotes → ℕ
saved_for u [] = 0
saved_for u (r ∷ rs) = let rest = saved_for u rs in if r.upgrade == u then r.votes + rest else rest

saved_for-keep_votes :
    (to_version of_version : ℕ → ℕ) (u current now : ℕ) (m : Map ℕ Active) (vs : List Votes)
    → saved_for u (keep_votes to_version of_version m current now vs)
      ≡ (if ltb (of_version current) u && has (to_version u) m then votes_for u vs else 0)
unfolding keep_votes saved_for votes_for
saved_for-keep_votes to_version of_version u current now m [] = ground arith
saved_for-keep_votes to_version of_version u current now m (v ∷ vs) =
    let ih = saved_for-keep_votes to_version of_version u current now m vs in
    elim (Bool-cases (v.upgrade == u)) [
      | inl same ↦
          let version : to_version v.upgrade ≡ to_version u =
            ap to_version ((==_iff v.upgrade u).0 same) in
          elim (Option-cases (lookup (to_version v.upgrade) m)) [
            | inl e ↦ ground (arith, e, ih, version, same)
            | inr (w, e) ↦ ground (arith, e, ih, version, same)
          ]
      | inr other ↦ elim (Option-cases (lookup (to_version v.upgrade) m)) [
        | inl e ↦ ground (arith, e, ih, other)
        | inr (w, e) ↦ ground (arith, e, ih, other)
      ]
    ]

has-empty : (u : ℕ) (m : Map ℕ Active) → (length m == 0) ≡ true → has u m ≡ false
unfolding lookup
has-empty u [] h = refl
has-empty u (x ∷ m) h = ground arith

-- Where there are fewer than 2 ^ 64 votes, what is saved of the cache for an upgrade is as many votes as
-- there are voters for it, if it is newer than the current version and the version it converts to has
-- its activation under way, and else nothing. This is for any conversions between the numbers of
-- upgrades and the versions of idena-go.
pub detect_upgrade_votes_lem :
    (to_version of_version : ℕ → ℕ) (versions : Map ℕ ConsensusConf) (now current : ℕ)
    (vs : List (Address × ℕ))
    → length vs < 2 ^ 64
    → (u : ℕ)
    → saved_for u (detect_upgrade_votes to_version of_version versions now current (update vs)) ≡ (
        if ltb (of_version current) u && is_active (to_version u) now versions
        then voters_for u vs
        else 0)
unfolding detect_upgrade_votes saved_for lookup
detect_upgrade_votes_lem to_version of_version versions now current vs small u =
    let votings = detect_active_upgrade_votings versions now [] in
    let counted = (update_counts vs small u).0 in
    let v = to_version u in
    elim (Bool-cases (length votings == 0)) [
      | inl e ↦ rw e (ground (arith, has-detect v now versions [], has-empty v votings e))
      | inr e ↦ rw e (
          ground (
            arith,
            has-detect v now versions [],
            saved_for-keep_votes to_version of_version u current now votings (update vs),
            counted,
          ))
    ]
