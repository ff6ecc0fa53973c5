-- ===== src/Upgrades/History.antt =====
-- upgrade_voting.go, `refreshUpgradeVotingHistorySummary`: the history of the votes for an upgrade, cut
-- down to a few items.
use idena_indexer.Base.{
  ℕ, zero, suc, ◌+◌, ◌-◌, ◌%◌, ◌^◌, ◌<◌, ◌≤◌, ◌≡◌, refl, subst, Bool, true, false, ◌&&◌, ◌||◌,
  Option, none, some, List, [], ◌∷◌, ◌++◌, arith, if◌then◌else◌, length, leb, ltb, ◌==◌, get_elem?,
  length-append,
}
use idena_indexer.Upgrades.Steps.{index, index-first, index-last, index-ascends, index-fits}

pub record HistoryItem : Type 0 where
  pub block_height : ℕ
  pub votes : ℕ

pub record ShortHistoryInfo : Type 0 where
  pub history_items : ℕ
  pub last_step : ℕ
  pub last_height : ℕ

-- `upgradeVotingHistoryCtx`
pub record Settings : Type 0 where
  pub short_history_items : ℕ
  pub short_history_min_shift : ℕ

-- What becomes of the saved history: it stays, the index goes out of range, or there are a new summary
-- and step.
pub data Outcome : Type 0 where
  unchanged : Outcome
  panic : Outcome
  updated : List HistoryItem → ℕ → Outcome

-- The step is a `uint32`.
abbrev next_step : ℕ → ℕ → ℕ → ℕ → ℕ
next_step k i idx last_step =
    if i + 2 == k
    then idx % 2 ^ 32
    else if i + 1 == k
    then (idx % 2 ^ 32 + 2 ^ 32 - last_step) % 2 ^ 32
    else last_step

-- The loop from `i` on, for `k` items in all, with `left` passes to go.
unfoldable pub collect_items :
    (ℕ → ℕ) → List HistoryItem → ℕ → ℕ → ℕ → List HistoryItem → ℕ → Outcome
collect_items index history k zero i summary last_step = updated summary last_step
collect_items index history k (suc left) i summary last_step =
    let idx = index i in
    elim (get_elem? history idx) [
      | none ↦ panic
      | some item ↦
          collect_items index history k left (i + 1) (summary ++ item ∷ [])
            (next_step k i idx last_step)
    ]

-- `UpdateUpgradeVotingShortHistory`
unfoldable pub saved_if : Bool → Outcome → Outcome
saved_if accepts (updated summary step) = if accepts then updated summary step else unchanged
saved_if accepts unchanged = unchanged
saved_if accepts panic = panic

-- `info` and `history` are the answers of the database, `none` for an error, and `accepts` is whether it
-- takes the update; after an error the saved history stays. Heights are `uint64`.
unfoldable pub refresh_upgrade_voting_history_summary :
    Bool → Settings → Option ShortHistoryInfo → Option (List HistoryItem) → ℕ → Outcome
unfolding collect_items saved_if
refresh_upgrade_voting_history_summary accepts cfg none history height = unchanged
refresh_upgrade_voting_history_summary accepts cfg (some info) history height =
    let k = cfg.short_history_items in
    let shift = (height + 2 ^ 64 - info.last_height) % 2 ^ 64 in
    if leb info.history_items k || ltb shift cfg.short_history_min_shift || ltb shift info.last_step
    then unchanged
    else elim history [
      | none ↦ unchanged
      | some votes ↦
          if length votes == 0 || leb (length votes) k
          then unchanged
          else saved_if accepts (collect_items (index (length votes) k) votes k k 0 [] 0)
    ]

-- The summary is of the items at the indices `index i`, `index (i + 1)`, and so on.
abbrev pub AreItems : (ℕ → ℕ) → List HistoryItem → ℕ → List HistoryItem → Type 0
AreItems index history i [] = Unit
AreItems index history i (x ∷ xs) =
    (get_elem? history (index i) ≡ some x) × AreItems index history (suc i) xs

get_elem?-some :
    (xs : List HistoryItem) (i : ℕ) → i < length xs → (x : HistoryItem) × (get_elem? xs i ≡ some x)
get_elem?-some [] i h = absurd (omega (arith, h))
get_elem?-some (x ∷ xs) zero h = (x, refl)
get_elem?-some (x ∷ xs) (suc i) h = get_elem?-some xs i (omega (arith, h))

AreItems-append :
    (index : ℕ → ℕ) (history : List HistoryItem) (i : ℕ) (xs : List HistoryItem) (y : HistoryItem)
    → AreItems index history i xs
    → get_elem? history (index (i + length xs)) ≡ some y
    → AreItems index history i (xs ++ y ∷ [])
AreItems-append index history i [] y h e =
    (subst (λ n. get_elem? history (index n) ≡ some y) (omega arith) e, tt)
AreItems-append index history i (x ∷ xs) y h e = (
  h.0,
  AreItems-append index history (suc i) xs y h.1
      (subst (λ n. get_elem? history (index n) ≡ some y) (omega arith) e),
)

collect_items_lem :
    (index : ℕ → ℕ) (history : List HistoryItem) (k left i : ℕ) (summary : List HistoryItem)
    (last : ℕ)
    → ((j : ℕ) → j < k → index j < length history)
    → i + left ≡ k
    → length summary ≡ i
    → AreItems index history 0 summary
    → (result : List HistoryItem) × (step : ℕ) × (collect_items index history k left i summary last
        ≡ updated result step)
      × (length result ≡ k)
      × AreItems index history 0 result
unfolding collect_items
collect_items_lem index history k zero i summary last fits e l h =
    (summary, last, refl, omega arith, h)
collect_items_lem index history k (suc left) i summary last fits e l h =
    let (item, found) = get_elem?-some history (index i) (fits i (omega arith)) in
    let position : i ≡ 0 + length summary = omega (arith, l) in
    let (result, step, ran, count, items) =
      collect_items_lem index history k left (i + 1) (summary ++ item ∷ [])
        (next_step k i (index i) last) fits (omega (arith, e))
        (omega (arith, length-append summary (item ∷ []), l))
        (AreItems-append index history 0 summary item h
          (subst (λ n. get_elem? history (index n) ≡ some item) position found)) in
    (result, step, rw (found, collect_items) ran, count, items)

-- A refresh is due: the short history has grown, by enough heights, and there are more votes than items.
abbrev pub is_due : Settings → ShortHistoryInfo → List HistoryItem → ℕ → Bool
is_due cfg info votes height =
    let shift = (height + 2 ^ 64 - info.last_height) % 2 ^ 64 in
    ltb cfg.short_history_items info.history_items
    && leb cfg.short_history_min_shift shift
    && leb info.last_step shift
    && ltb cfg.short_history_items (length votes)

-- A summary by an index that stays within the history, goes up, and runs from its first vote to its last.
pub record Spans (history result : List HistoryItem) (k : ℕ) (at : ℕ → ℕ) : Type 0 where
  pub count : length result ≡ k
  pub items : AreItems at history 0 result
  pub first : at 0 ≡ 0
  pub last : at (k - 1) ≡ length history - 1
  pub ascends : (i : ℕ) → at i < at (i + 1)

-- A refresh that is due, for at least two items and at most 2 ^ 23 votes, does not go out of range. Where
-- the database takes the update, the new summary has the set number of items, all different votes of
-- the history in its order, of which the first and the last are the first and the last of the history.
-- Where the database fails to, the saved history stays.
pub refresh-updates :
    (cfg : Settings) (info : ShortHistoryInfo) (votes : List HistoryItem) (height : ℕ)
    → 1 < cfg.short_history_items
    → length votes ≤ 2 ^ 23
    → is_due cfg info votes height ≡ true
    → ((result : List HistoryItem) × (step : ℕ) × (at : ℕ → ℕ)
        × (refresh_upgrade_voting_history_summary true cfg (some info) (some votes) height
            ≡ updated result step)
        × Spans votes result cfg.short_history_items at)
      × (refresh_upgrade_voting_history_summary false cfg (some info) (some votes) height
          ≡ unchanged)
unfolding refresh_upgrade_voting_history_summary saved_if
refresh-updates cfg info votes height many small due =
    let k = cfg.short_history_items in
    let n = length votes in
    let more : k < n = ground (arith, due) in
    let (result, step, ran, count, items) =
      collect_items_lem (index n k) votes k k 0 [] 0 (index-fits n k many more small) (omega arith)
        refl tt in
    (
      (
        result,
        step,
        index n k,
        ground (arith, due, ran),
        record {
          count = count;
          items = items;
          first = index-first n k many more small;
          last = index-last n k many more small;
          ascends = index-ascends n k many more small;
        },
      ),
      ground (arith, due, ran),
    )
