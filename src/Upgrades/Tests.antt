-- ===== src/Upgrades/Tests.antt =====
-- Votes of four voters, and a history of five votes cut down to three.
use idena_indexer.Base.{
  ℕ, ◌%◌, ◌^◌, ◌<◌, ◌≤◌, ◌≡◌, refl, true, false, ◌&&◌, some, List, [], ◌∷◌, length, ltb,
  if◌then◌else◌, arith,
}
use idena_indexer.Base.Map.{Map}
use idena_indexer.Node.{Address}
use idena_indexer.Upgrades.{ConsensusConf, detect_upgrade_votes, update}
use idena_indexer.Upgrades.Counts.{voters_for, votes_for, rows_for, update_counts}
use idena_indexer.Upgrades.Detect.{is_active, saved_for, detect_upgrade_votes_lem}
use idena_indexer.Upgrades.History.{
  Settings, ShortHistoryInfo, HistoryItem, refresh_upgrade_voting_history_summary, unchanged,
  updated, Spans, saved_if, collect_items, refresh-updates,
}
use idena_indexer.Upgrades.Steps.{index, div_float32, shift_from, nearest, round_times}

abbrev votes : List (Address × ℕ)
votes = (1, 12) ∷ (2, 11) ∷ (3, 12) ∷ (4, 9) ∷ []

abbrev few : length votes < 2 ^ 64
few = omega arith

update_counts_example :
    (votes_for 12 (update votes) ≡ voters_for 12 votes) × (rows_for 12 (update votes) ≤ 1)
update_counts_example = update_counts votes few 12

abbrev versions : Map ℕ ConsensusConf
versions =
    (12, record { start_activation_date = 100; end_activation_date = 200 })
    ∷ (9, record { start_activation_date = 100; end_activation_date = 200 })
    ∷ []

-- Versions of 16 bits.
abbrev narrow : ℕ → ℕ
narrow u = u % 2 ^ 16

detect_upgrade_votes_lem_example :
    saved_for 12 (detect_upgrade_votes narrow (λ v. v) versions 150 10 (update votes))
    ≡ (if ltb 10 12 && is_active 12 150 versions then voters_for 12 votes else 0)
detect_upgrade_votes_lem_example =
    detect_upgrade_votes_lem narrow (λ v. v) versions 150 10 votes few 12

saved : (if ltb 10 12 && is_active 12 150 versions then voters_for 12 votes else 0) ≡ 2
unfolding is_active voters_for
saved = refl

abbrev cfg : Settings
cfg = record { short_history_items = 3; short_history_min_shift = 10 }

abbrev info : ShortHistoryInfo
info = record { history_items = 5; last_step = 2; last_height = 1000 }

abbrev item : ℕ → HistoryItem
item n = record { block_height = n; votes = n }

abbrev history : List HistoryItem
history = item 1 ∷ item 2 ∷ item 3 ∷ item 4 ∷ item 5 ∷ []

refresh-updates_example :
    ((result : List HistoryItem) × (step : ℕ) × (at : ℕ → ℕ)
      × (refresh_upgrade_voting_history_summary true cfg (some info) (some history) 1010
          ≡ updated result step)
      × Spans history result 3 at)
    × (refresh_upgrade_voting_history_summary false cfg (some info) (some history) 1010 ≡ unchanged)
refresh-updates_example = refresh-updates cfg info history 1010 (omega arith) (omega arith) refl

-- Every second item of five.
every_second :
    refresh_upgrade_voting_history_summary true cfg (some info) (some history) 1010
    ≡ updated (item 1 ∷ item 3 ∷ item 5 ∷ []) 2
unfolding refresh_upgrade_voting_history_summary saved_if collect_items index div_float32 shift_from
    nearest round_times
every_second = refl

-- 2.5 is rounded up.
of_six : index 6 3 1 ≡ 3
unfolding index div_float32 shift_from nearest round_times
of_six = refl
