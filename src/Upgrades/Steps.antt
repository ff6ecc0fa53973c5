-- ===== src/Upgrades/Steps.antt =====
-- upgrade_voting.go, `refreshUpgradeVotingHistorySummary`: the indices that it computes by floats.
use native.Mathlib.Nat.{
  div-add-mod, mod-lt, mul-le-mul_right, mul-le-mul_left, mul-lt-mul_of_pos_right, div-eq_of_lt,
  div-eq_of_lt-le, le-div_iff_mul-le, div-mul-le_self,
}
use idena_indexer.Base.{
  ℕ, zero, suc, ◌+◌, ◌-◌, ◌*◌, ◌/◌, ◌%◌, ◌^◌, ◌<◌, ◌≤◌, ◌≡◌, ◌⊎◌, refl, ap, ◌∙◌, subst, arith,
  Bool-cases, inl, inr, if◌then◌else◌, leb, ltb, ◌==◌,
}

-- The natural next to `n / b`, the even one of two.
unfoldable pub nearest : ℕ → ℕ → ℕ
nearest n b =
    let q = n / b in
    let r = n % b in
    if ltb (2 * r) b then q else if ltb b (2 * r) then q + 1 else if q % 2 == 0 then q else q + 1

-- A float of value `mantissa / 2 ^ shift`.
pub record Float : Type 0 where
  pub mantissa : ℕ
  pub shift : ℕ

-- The least shift from `s` on that gives `a / b` a mantissa of 24 bits.
unfoldable pub shift_from : ℕ → ℕ → ℕ → ℕ → ℕ
shift_from zero a b s = s
shift_from (suc left) a b s =
    let rest = shift_from left a b (s + 1) in if leb (b * 2 ^ 23) (a * 2 ^ s) then s else rest

-- `float32(a) / float32(b)` for `0 < b ≤ a < 2 ^ 24`: the float of 24 bits next to `a / b`. The shift is
-- 23 at most, since `b * 2 ^ 23 ≤ a * 2 ^ 23`.
unfoldable pub div_float32 : ℕ → ℕ → Float
unfolding nearest shift_from
div_float32 a b =
    let s = shift_from 23 a b 0 in record { mantissa = nearest (a * 2 ^ s) b; shift = s }

-- `int(math.Round(float64(i) * float64(step)))`, which rounds halves up. The product has 53 bits at most
-- for `i < 2 ^ 29`, so it is exact.
unfoldable pub round_times : ℕ → Float → ℕ
round_times i f = (2 * (i * f.mantissa) + 2 ^ f.shift) / (2 * 2 ^ f.shift)

-- The index of item `i` of `k`, for `n` votes.
unfoldable pub index : ℕ → ℕ → ℕ → ℕ
unfolding div_float32 round_times
index n k i = if leb k 1 then 0 else round_times i (div_float32 (n - 1) (k - 1))

nearest_cases :
    (n b : ℕ)
    → (nearest n b ≡ n / b) × (2 * (n % b) ≤ b) ⊎ (nearest n b ≡ n / b + 1) × (b ≤ 2 * (n % b))
unfolding nearest
nearest_cases n b = elim (Bool-cases (ltb (2 * (n % b)) b)) [
  | inl low ↦ inl (ground (arith, low))
  | inr e ↦ elim (Bool-cases (ltb b (2 * (n % b)))) [
    | inl high ↦ inr (ground (arith, e, high))
    | inr half ↦ elim (Bool-cases (n / b % 2 == 0)) [
      | inl even ↦ inl (ground (arith, e, half, even))
      | inr odd ↦ inr (ground (arith, e, half, odd))
    ]
  ]
]

below :
    (n b : ℕ)
    → 0 < b
    → b ≤ 2 * (n % b)
    → (2 * (b * (n / b + 1)) ≤ 2 * n + b) × (2 * n ≤ 2 * (b * (n / b + 1)) + b)
below n b pos_b high = omega (arith, div-add-mod n b, mod-lt n pos_b, high)

nearest_bounds :
    (n b : ℕ) → 0 < b → (2 * (b * nearest n b) ≤ 2 * n + b) × (2 * n ≤ 2 * (b * nearest n b) + b)
nearest_bounds n b pos_b =
    let whole = div-add-mod n b in
    elim (nearest_cases n b) [
      | inl (e, low) ↦ rw e (omega (arith, whole, low))
      | inr (e, high) ↦ rw e (below n b pos_b high)
    ]

shift_from_lem :
    (left a b s : ℕ) → b ≤ a → left + s ≡ 23 → b * 2 ^ 23 ≤ a * 2 ^ (shift_from left a b s)
unfolding shift_from
shift_from_lem zero a b s h e =
    let all : s ≡ 23 = omega (arith, e) in rw all (mul-le-mul_right (2 ^ 23) h)
shift_from_lem (suc left) a b s h e = elim (Bool-cases (leb (b * 2 ^ 23) (a * 2 ^ s))) [
  | inl fits ↦ rw fits (ground (arith, fits))
  | inr not_yet ↦ rw not_yet (shift_from_lem left a b (s + 1) h (omega (arith, e)))
]

-- The step of `a / b`, as the float next to it: its errors are less than one in all of its items.
module _ (a b : ℕ) (pos_b : 0 < b) (more : b ≤ a) (small : a < 2 ^ 23) where
  pub step : Float
  step = div_float32 a b

  abbrev scale : ℕ
  scale = 2 ^ step.shift

  step_bounds :
      (2 * (b * step.mantissa) ≤ 2 * (a * scale) + b)
      × (2 * (a * scale) ≤ 2 * (b * step.mantissa) + b)
  unfolding step div_float32
  step_bounds = nearest_bounds (a * scale) b pos_b

  fine : b < scale
  unfolding step div_float32
  fine = elim (Bool-cases (leb scale b)) [
    | inl low ↦
        let enough = shift_from_lem 23 a b 0 more refl in
        let low' : scale ≤ b = ground (arith, low) in
        absurd (omega (arith, enough, mul-le-mul_left a low', mul-lt-mul_of_pos_right small pos_b))
    | inr high ↦ ground (arith, high)
  ]

  at_least_one : scale ≤ step.mantissa
  at_least_one = elim (Bool-cases (leb (step.mantissa + 1) scale)) [
    | inl low ↦
        let low' : step.mantissa + 1 ≤ scale = ground (arith, low) in
        absurd
          (omega (arith, step_bounds, mul-le-mul_left b low', mul-le-mul_right scale more, pos_b))
    | inr high ↦ ground (arith, high)
  ]

  pub first : round_times 0 step ≡ 0
  unfolding round_times
  first = div-eq_of_lt (omega (arith, fine))

  pub last : round_times b step ≡ a
  unfolding round_times
  last =
      div-eq_of_lt-le (2 * scale) (omega (arith, step_bounds, fine))
        (omega (arith, step_bounds, fine))

  pub ascends : (i : ℕ) → round_times i step < round_times (i + 1) step
  unfolding round_times
  ascends i =
      let x = 2 * (i * step.mantissa) + scale in
      let wide : 0 < 2 * scale = omega (arith, fine) in
      (le-div_iff_mul-le wide).1 (omega (arith, div-mul-le_self x (2 * scale), at_least_one))

-- The indices go up from the first vote to the last.
module _ (n k : ℕ) (many : 1 < k) (more : k < n) (small : n ≤ 2 ^ 23) where
  abbrev a : ℕ
  a = n - 1

  abbrev b : ℕ
  b = k - 1

  index_lem :
      (i : ℕ) → index n k i ≡ round_times i (step a b (omega arith) (omega arith) (omega arith))
  unfolding index step
  index_lem i = ground (arith, many)

  pub index-first : index n k 0 ≡ 0
  index-first = index_lem 0 ∙ first a b (omega arith) (omega arith) (omega arith)

  pub index-last : index n k (k - 1) ≡ n - 1
  index-last = index_lem (k - 1) ∙ last a b (omega arith) (omega arith) (omega arith)

  pub index-ascends : (i : ℕ) → index n k i < index n k (i + 1)
  index-ascends i =
      rw (index_lem i, index_lem (i + 1)) (ascends a b (omega arith) (omega arith) (omega arith) i)

  ascends_by : (d i : ℕ) → index n k i + d ≤ index n k (i + d)
  ascends_by zero i =
      let same : i ≡ i + 0 = omega arith in
      subst (λ j. index n k i + 0 ≤ index n k j) same (omega arith)
  ascends_by (suc d) i =
      let next : index n k (i + 1) + d ≤ index n k (i + suc d) =
        subst (λ j. index n k (i + 1) + d ≤ index n k j) (omega arith) (ascends_by d (i + 1)) in
      omega (arith, index-ascends i, next)

  pub index-fits : (i : ℕ) → i < k → index n k i < n
  index-fits i h =
      let top : index n k i + (k - 1 - i) ≤ n - 1 =
        subst (λ j. index n k i + (k - 1 - i) ≤ j) (ap (index n k) (omega (arith, h)) ∙ index-last)
          (ascends_by (k - 1 - i) i) in
      omega (arith, top)
