-- ===== src/EpochRewards/Pointers.antt =====
-- collector.go, `epochRewardsByTypeAndAddr`: where the map points to, and what that is good for.
use idena_indexer.Base.{
  ℕ, ◌≡◌, ◌⊎◌, refl, true, ◌&&◌, Option, none, some, List, [], ◌∷◌, ◌++◌, arith, if◌then◌else◌,
  length, get_elem?, Bool-cases, inl, inr, Option-cases, get_elem?-set_self, get_elem?-set_ne,
}
use idena_indexer.Base.Int.{ℤ}
use idena_indexer.Base.Eq.{◌==◌, number_key}
use idena_indexer.Base.Map.{Map, lookup, insert, lookup-insert}
use idena_indexer.Base.Positions.{
  get_elem?-append_end, get_elem?-append_some, get_elem?-append_one, get_elem?-bound,
}
use idena_indexer.Node.{Address}
use idena_indexer.EpochRewards.{
  RewardStats, RewardsStats, increase_at, pointer_at, set_pointer, is_accumulated,
}
use idena_indexer.EpochRewards.Sums.{raised}

pub pointer_at-set_pointer :
    (t : ℕ) (a : Address) (i : ℕ) (u : ℕ) (b : Address) (m : Map ℕ (Map Address ℕ))
    → pointer_at u b (set_pointer t a i m) ≡ (if t == u && a == b then some i else pointer_at u b m)
unfolding lookup
pointer_at-set_pointer t a i u b m = elim (Option-cases (lookup t m)) [
  | inl e ↦ ground (arith, lookup-insert t u (insert a i []) m, lookup-insert a b i [], e)
  | inr (inner, e) ↦
      ground (arith, lookup-insert t u (insert a i inner) m, lookup-insert a b i inner, e)
]

-- The type and the address of the entry at a position.
abbrev pub key_at : List RewardStats → ℕ → Option (ℕ × Address)
key_at xs i = elim (get_elem? xs i) [ none ↦ none | some r ↦ some (r.reward_type, r.address) ]

-- A pointer leads to an entry of its type and address, and an entry of a type whose rewards are put
-- together is the one its pointer leads to.
pub record IsIndexed (st : RewardsStats) : Type 0 where
  pub points :
      (t : ℕ) (a : Address) (i : ℕ)
      → pointer_at t a st.epoch_rewards_by_type_and_addr ≡ some i
      → key_at st.rewards i ≡ some (t, a)
  pub pointed :
      (t : ℕ) (a : Address) (i : ℕ)
      → is_accumulated t ≡ true
      → key_at st.rewards i ≡ some (t, a)
      → pointer_at t a st.epoch_rewards_by_type_and_addr ≡ some i

-- Raising an entry keeps every entry's type and address.
pub key_at-increase_at :
    (j : ℕ) (b s : ℤ) (xs : List RewardStats) (i : ℕ)
    → key_at (increase_at j b s xs) i ≡ key_at xs i
unfolding increase_at
key_at-increase_at j b s xs i = elim (Option-cases (get_elem? xs j)) [
  | inl e ↦ rw (e, increase_at) refl
  | inr (r, e) ↦ elim (Bool-cases (j == i)) [
    | inl same ↦
        ground (arith, get_elem?-set_self xs j (raised b s r) (get_elem?-bound xs j r e), e)
    | inr other ↦ ground (arith, get_elem?-set_ne xs {i = j} {j = i} (raised b s r), e)
  ]
]

pub key_at-append_end :
    (xs : List RewardStats) (r : RewardStats)
    → key_at (xs ++ r ∷ []) (length xs) ≡ some (r.reward_type, r.address)
key_at-append_end xs r = ground (arith, get_elem?-append_end xs r)

pub key_at-append_some :
    (xs : List RewardStats) (r : RewardStats) (i : ℕ) (k : ℕ × Address)
    → key_at xs i ≡ some k
    → key_at (xs ++ r ∷ []) i ≡ some k
key_at-append_some xs r i k h = elim (Option-cases (get_elem? xs i)) [
  | inl e ↦ ground arith
  | inr (x, e) ↦ ground (arith, get_elem?-append_some xs (r ∷ []) i x e)
]

pub key_at-append_one :
    (xs : List RewardStats) (r : RewardStats) (i : ℕ) (k : ℕ × Address)
    → key_at (xs ++ r ∷ []) i ≡ some k
    → (key_at xs i ≡ some k) ⊎ ((i ≡ length xs) × ((r.reward_type, r.address) ≡ k))
key_at-append_one xs r i k h = elim (Option-cases (get_elem? (xs ++ r ∷ []) i)) [
  | inl e ↦ ground arith
  | inr (x, e) ↦ elim (get_elem?-append_one xs r x i e) [
    | inl old ↦ inl (ground arith)
    | inr (last, same) ↦ inr (last, ground arith)
  ]
]
