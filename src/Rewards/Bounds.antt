-- ===== src/Rewards/Bounds.antt =====
-- rewards.go, `addIfBound`: when two bounds are those of a list of rewards, and how one more reward
-- moves them.
use idena_indexer.Base.{
  ℕ, ◌≡◌, ◌⊎◌, inl, inr, refl, sym, ap, ◌∙◌, subst, Bool, true, false, ◌&&◌, not, Option, none,
  some, List, [], ◌∷◌, arith, ◌==◌, Bool-cases,
}
use idena_indexer.Base.Int.{ℤ, pos, ltb_ℤ, ◌≤ℤ◌}
use idena_indexer.Base.Eq.{number_key}
use idena_indexer.Node.{Address}
use idena_indexer.Rewards.{
  RewardBound, RewardBounds, determine_reward_bound_type, is_nothing, widen,
}

-- A reward of an identity.
pub record Reward : Type 0 where
  pub address : Address
  pub age : ℕ
  pub amount : Option ℤ

-- The reward is of the type, and is not nothing.
abbrev pub counts : ℕ → Reward → Bool
counts t r = determine_reward_bound_type r.age == t && not (is_nothing r.amount)

abbrev pub amount_of : Reward → ℤ
amount_of r = elim r.amount [ none ↦ pos 0 | some x ↦ x ]

abbrev pub Each : (Reward → Type 0) → List Reward → Type 0
Each P [] = Unit
Each P (r ∷ rs) = P r × Each P rs

abbrev pub Within : ℕ → RewardBounds → Reward → Type 0
Within t b r = counts t r ≡ true → (b.min.amount ≤ℤ amount_of r) × (amount_of r ≤ℤ b.max.amount)

-- The bound is the amount of one of the rewards, with its address.
abbrev pub Attained : ℕ → RewardBound → List Reward → Type 0
Attained t b [] = true ≡ false
Attained t b (r ∷ rs) =
    ((counts t r ≡ true) × (amount_of r ≡ b.amount) × (r.address ≡ b.address)) ⊎ Attained t b rs

-- The bounds of a type are those of the rewards so far, or there are none.
abbrev pub AreBounds : ℕ → List Reward → Option RewardBounds → Type 0
AreBounds t rs none = Each (λ r. counts t r ≡ false) rs
AreBounds t rs (some b) = Each (Within t b) rs × Attained t b.min rs × Attained t b.max rs

Each-weaker :
    (P Q : Reward → Type 0) (rs : List Reward) → ((r : Reward) → P r → Q r) → Each P rs → Each Q rs
Each-weaker P Q [] w h = tt
Each-weaker P Q (r ∷ rs) w h = (w r (h.0), Each-weaker P Q rs w (h.1))

-- A reward that does not count changes no bounds.
pub uncounted :
    (t : ℕ) (r : Reward) (past : List Reward) (o : Option RewardBounds)
    → counts t r ≡ false
    → AreBounds t past o
    → AreBounds t (r ∷ past) o
uncounted t r past none e h = (e, h)
uncounted t r past (some b) e h = (((λ c. ground arith), h.0), inr (h.1), inr (h.2))

≤ℤ_refl : (x y : ℤ) → x ≡ y → x ≤ℤ y
≤ℤ_refl x y e = rw e (omega arith)

≤ℤ_trans : (x y z : ℤ) → x ≤ℤ y → y ≤ℤ z → x ≤ℤ z
≤ℤ_trans x y z h k = omega arith

pub first :
    (t : ℕ) (r : Reward) (past : List Reward) (x : ℤ)
    → amount_of r ≡ x
    → counts t r ≡ true
    → AreBounds t past none
    → AreBounds t (r ∷ past) (
        some (record {
          bound_type = t;
          min = record { amount = x; address = r.address };
          max = record { amount = x; address = r.address };
        }))
first t r past x e c h = (
  (
    (λ c'. (≤ℤ_refl x (amount_of r) (sym e), ≤ℤ_refl (amount_of r) x e)),
    Each-weaker (λ q. counts t q ≡ false) _ past (λ q n c'. ground arith) h,
  ),
  inl (c, e, refl),
  inl (c, e, refl),
)

-- What `widen` does to the two bounds.
widen_lem :
    (a : Address) (x : ℤ) (b : RewardBounds)
    → ((widen a x b).min.amount ≤ℤ x)
      × ((widen a x b).min.amount ≤ℤ b.min.amount)
      × (x ≤ℤ (widen a x b).max.amount)
      × (b.max.amount ≤ℤ (widen a x b).max.amount)
      × (((widen a x b).min ≡ record { amount = x; address = a }) ⊎ ((widen a x b).min ≡ b.min))
      × (((widen a x b).max ≡ record { amount = x; address = a }) ⊎ ((widen a x b).max ≡ b.max))
unfolding widen
widen_lem a x b = elim (Bool-cases (ltb_ℤ x b.min.amount)) [
  | inl l ↦ elim (Bool-cases (ltb_ℤ b.max.amount x)) [
    | inl g ↦ rw (l, g) (ground arith, ground arith, ground arith, ground arith, inl refl, inl refl)
    | inr g ↦ rw (l, g) (ground arith, ground arith, ground arith, ground arith, inl refl, inr refl)
  ]
  | inr l ↦ elim (Bool-cases (ltb_ℤ b.max.amount x)) [
    | inl g ↦ rw (l, g) (ground arith, ground arith, ground arith, ground arith, inr refl, inl refl)
    | inr g ↦ rw (l, g) (ground arith, ground arith, ground arith, ground arith, inr refl, inr refl)
  ]
]

Attained-next :
    (t : ℕ) (r : Reward) (past : List Reward) (x : ℤ) (old new : RewardBound)
    → amount_of r ≡ x
    → counts t r ≡ true
    → (new ≡ record { amount = x; address = r.address }) ⊎ (new ≡ old)
    → Attained t old past
    → Attained t new (r ∷ past)
Attained-next t r past x old new e c (inl n) h =
    inl (c, e ∙ ap (λ n. n.amount) (sym n), ap (λ n. n.address) (sym n))
Attained-next t r past x old new e c (inr n) h = inr (subst (λ n. Attained t n past) (sym n) h)

pub widened :
    (t : ℕ) (r : Reward) (past : List Reward) (x : ℤ) (b : RewardBounds)
    → amount_of r ≡ x
    → counts t r ≡ true
    → AreBounds t past (some b)
    → AreBounds t (r ∷ past) (some (widen r.address x b))
widened t r past x b e c h =
    let w = widen_lem r.address x b in
    (
      (
        (λ c'. (rw e (w.0), rw e (w.2))),
        Each-weaker (Within t b) _ past
            (λ q k c'.
              let old = k c' in
              (
                ≤ℤ_trans (widen r.address x b).min.amount b.min.amount (amount_of q) (w.1) (old.0),
                ≤ℤ_trans (amount_of q) b.max.amount (widen r.address x b).max.amount (old.1) (w.3),
              ))
            (h.0),
      ),
      Attained-next t r past x b.min _ e c (w.4) (h.1),
      Attained-next t r past x b.max _ e c (w.5) (h.2),
    )
