-- ===== src/Online/Sorted.antt =====
-- online.go, `addToSorted`: the weights of the miners' stakes in order. Weights are floats of idena-go's
-- decimals, so they are any type with the test `gt`, Go's `>`.
use idena_indexer.Base.{
  ℕ, zero, suc, ◌+◌, ◌-◌, ◌/◌, ◌≤◌, ◌<◌, ◌≡◌, refl, ap, ◌∙◌, sym, subst, Bool, true, false, none,
  some, List, [], ◌∷◌, ◌++◌, arith, if◌then◌else◌, Bool-cases, inl, inr, ltb, ltb→lt, lt→ltb,
  length, get_elem?, set, take, drop,
}

-- `sort.Search(n, f)`: the least index from `i` on at which `f` holds, or `j`. The rounds are at most
-- `fuel`; the difference of `i` and `j` is enough.
unfoldable pub search : ℕ → (ℕ → Bool) → ℕ → ℕ → ℕ
search zero f i j = i
search (suc fuel) f i j =
    let h = (i + j) / 2 in
    let (i', j') = if f h then (i, h) else (h + 1, j) in if ltb i j then search fuel f i' j' else i

-- What the search finds, for a test that goes on to hold once it holds.
record IsFound (f : ℕ → Bool) (i j r : ℕ) : Type 0 where
  from : i ≤ r
  to : r ≤ j
  before : (k : ℕ) → i ≤ k → k < r → f k ≡ false
  at : r < j → f r ≡ true

lower-IsFound :
    (f : ℕ → Bool) (i h j r : ℕ) → h ≤ j → f h ≡ true → IsFound f i h r → IsFound f i j r
lower-IsFound f i h j r h≤j holds found = record {
  from = found.from;
  to = omega (arith, found.to);
  before = found.before;
  at = λ q. elim (Bool-cases (ltb r h)) [
    | inl e ↦ found.at (ltb→lt r h e)
    | inr e ↦ let equal : h ≡ r = ground (arith, found.to, e) in subst (λ k. f k ≡ true) equal holds
  ];
}

upper-IsFound :
    (f : ℕ → Bool)
    → ((h k : ℕ) → h ≤ k → f h ≡ true → f k ≡ true)
    → (i h j r : ℕ) → i ≤ h
    → f h ≡ false
    → IsFound f (h + 1) j r
    → IsFound f i j r
upper-IsFound f up i h j r i≤h fails found = record {
  from = omega (arith, found.from);
  to = found.to;
  before = λ k p q. elim (Bool-cases (f k)) [
    | inr e ↦ e
    | inl e ↦ elim (Bool-cases (ltb h k)) [
      | inl above ↦ found.before k (omega (arith, ltb→lt h k above)) q
      | inr below ↦ let least : k ≤ h = ground (arith, below) in ground (arith, up k h least e)
    ]
  ];
  at = found.at;
}

search-IsFound :
    (f : ℕ → Bool)
    → ((h k : ℕ) → h ≤ k → f h ≡ true → f k ≡ true)
    → (fuel i j : ℕ) → i ≤ j
    → j - i ≤ fuel
    → IsFound f i j (search fuel f i j)
unfolding search
search-IsFound f up zero i j h enough = record {
  from = omega arith;
  to = omega arith;
  before = λ k p q. absurd (omega arith);
  at = λ q. absurd (omega arith);
}
search-IsFound f up (suc fuel) i j i≤j enough =
    let h = (i + j) / 2 in
    elim (Bool-cases (ltb i j)) [
      | inr e ↦ rw e (record {
        from = omega arith;
        to = i≤j;
        before = λ k p q. absurd (omega arith);
        at = λ q. ground (arith, lt→ltb i j q, e);
      })
      | inl e ↦
          let low : i ≤ h = omega arith in
          let high : h < j = omega (arith, ltb→lt i j e) in
          elim (Bool-cases (f h)) [
            | inl holds ↦
                rw (e, holds)
                  (lower-IsFound f i h j (search fuel f i h) (omega arith) holds
                    (search-IsFound f up fuel i h low (omega arith)))
            | inr fails ↦
                rw (e, fails)
                  (upper-IsFound f up i h j (search fuel f (h + 1) j) low fails
                    (search-IsFound f up fuel (h + 1) j (omega arith) (omega arith)))
          ]
    ]

-- `values = append(values, 0)`, `copy(values[index+1:], values[index:])` and `values[index] = value`.
unfoldable pub shift_in : {F : Type 0} → F → ℕ → F → List F → List F
shift_in zero_value index value values =
    let longer = values ++ zero_value ∷ [] in
    let shifted = take (length longer - suc index) (drop index longer) in
    set (take (suc index) longer ++ shifted) index value

module _ {F : Type 0} where
  take-append_one : (xs : List F) (y : F) → take (length xs) (xs ++ y ∷ []) ≡ xs
  take-append_one [] y = refl
  take-append_one (x ∷ xs) y = ap (λ t. x ∷ t) (take-append_one xs y)

  length-append_one : (xs : List F) (y : F) → length (xs ++ y ∷ []) ≡ suc (length xs)
  length-append_one [] y = refl
  length-append_one (x ∷ xs) y = ap suc (length-append_one xs y)

  shift_in_lem :
      (z : F) (index : ℕ) (value : F) (values : List F)
      → index ≤ length values
      → shift_in z index value values ≡ take index values ++ value ∷ drop index values
  unfolding shift_in
  shift_in_lem z zero value [] h = refl
  shift_in_lem z zero value (x ∷ xs) h =
      let count : suc (length (xs ++ z ∷ [])) - 1 ≡ suc (length xs) =
        omega (arith, length-append_one xs z) in
      ap (λ t. value ∷ t) (ap (λ n. take n (x ∷ (xs ++ z ∷ []))) count ∙ take-append_one (x ∷ xs) z)
  shift_in_lem z (suc i) value [] h = absurd (omega arith)
  shift_in_lem z (suc i) value (x ∷ xs) h =
      let count : suc (length (xs ++ z ∷ [])) - suc (suc i) ≡ length (xs ++ z ∷ []) - suc i =
        omega arith in
      ap (λ n. x ∷ set (take (suc i) (xs ++ z ∷ []) ++ take n (drop i (xs ++ z ∷ []))) i value)
        count
      ∙ ap (λ t. x ∷ t) (shift_in_lem z i value xs (omega arith))

-- The order of the values: `gt` is `>`, `zero_value` is `0`.
module _ {F : Type 0} (gt : F → F → Bool) (zero_value : F) where
  -- `values[i] > value`; the search does not ask beyond the end.
  abbrev is_greater : F → List F → ℕ → Bool
  is_greater value values i = elim (get_elem? values i) [ none ↦ true | some w ↦ gt w value ]

  unfoldable pub add_to_sorted : List F → F → List F
  unfolding search shift_in
  add_to_sorted values value =
      shift_in zero_value (search (length values) (is_greater value values) 0 (length values)) value
        values

  -- A sorted list has no value that is greater than the next.
  abbrev pub IsSorted : List F → Type 0
  IsSorted [] = Unit
  IsSorted (x ∷ []) = Unit
  IsSorted (x ∷ y ∷ xs) = (gt x y ≡ false) × IsSorted (y ∷ xs)

  -- The reference: before the first greater value.
  unfoldable pub insert_sorted : F → List F → List F
  insert_sorted v [] = v ∷ []
  insert_sorted v (x ∷ xs) =
      let rest = insert_sorted v xs in if gt x v then v ∷ x ∷ xs else x ∷ rest

  -- A value that is greater than another has those above it greater as well, and is not less.
  pub record IsOrder : Type 0 where
    pub follows : (a b v : F) → gt a b ≡ false → gt a v ≡ true → gt b v ≡ true
    pub one_way : (a b : F) → gt a b ≡ true → gt b a ≡ false

  module _ (order : IsOrder) where
    next_greater :
        (v : F) (values : List F) (k : ℕ)
        → IsSorted values
        → is_greater v values k ≡ true
        → is_greater v values (suc k) ≡ true
    next_greater v [] k s h = refl
    next_greater v (x ∷ []) k s h = refl
    next_greater v (x ∷ y ∷ xs) zero s h = order.follows x y v s.0 h
    next_greater v (x ∷ y ∷ xs) (suc k) s h = next_greater v (y ∷ xs) k s.1 h

    stays_greater :
        (v : F) (values : List F)
        → IsSorted values
        → (h k : ℕ) → h ≤ k
        → is_greater v values h ≡ true
        → is_greater v values k ≡ true
    stays_greater v values s h zero le e = subst (λ n. is_greater v values n ≡ true) (omega arith) e
    stays_greater v values s h (suc k) le e = elim (Bool-cases (ltb h (suc k))) [
      | inl below ↦
          next_greater v values k s
            (stays_greater v values s h k (omega (arith, ltb→lt h (suc k) below)) e)
      | inr above ↦
          let equal : h ≡ suc k = ground (arith, above, le) in
          subst (λ n. is_greater v values n ≡ true) equal e
    ]

    found-insert_sorted :
        (v : F) (values : List F) (r : ℕ)
        → IsFound (is_greater v values) 0 (length values) r
        → take r values ++ v ∷ drop r values ≡ insert_sorted v values
    unfolding insert_sorted
    found-insert_sorted v [] zero h = refl
    found-insert_sorted v [] (suc r) h = absurd (omega (arith, h.to))
    found-insert_sorted v (x ∷ xs) zero h = rw (h.at (omega arith)) refl
    found-insert_sorted v (x ∷ xs) (suc r) h = rw (h.before 0 (omega arith) (omega arith)) (
        ap (λ t. x ∷ t)
          (found-insert_sorted v xs r (record {
            from = omega arith;
            to = omega (arith, h.to);
            before = λ k p q. h.before (suc k) (omega arith) (omega arith);
            at = λ q. h.at (omega arith);
          })))

    insert_sorted-IsSorted :
        (v : F) (values : List F) → IsSorted values → IsSorted (insert_sorted v values)
    unfolding insert_sorted
    insert_sorted-IsSorted v [] s = tt
    insert_sorted-IsSorted v (x ∷ []) s = elim (Bool-cases (gt x v)) [
      | inl e ↦ rw e (order.one_way x v e, tt)
      | inr e ↦ rw e (e, tt)
    ]
    insert_sorted-IsSorted v (x ∷ y ∷ ys) s = elim (Bool-cases (gt x v)) [
      | inl e ↦ rw e (order.one_way x v e, s)
      | inr e ↦ rw e (
          elim (gt y v)
              as (λ c.
                IsSorted (if c then v ∷ y ∷ ys else y ∷ insert_sorted v ys)
                → IsSorted (x ∷ (if c then v ∷ y ∷ ys else y ∷ insert_sorted v ys))) [
                  | true ↦ λ rest. (e, rest)
                  | false ↦ λ rest. (s.0, rest)
                ]
            (insert_sorted-IsSorted v (y ∷ ys) s.1))
    ]

  -- Where the test is an order, adding a value to a sorted list puts it before the first greater one, and
  -- the list stays sorted.
  pub add_to_sorted_lem :
      IsOrder
      → (values : List F) (value : F) → IsSorted values
      → (add_to_sorted values value ≡ insert_sorted value values)
        × IsSorted (add_to_sorted values value)
  unfolding add_to_sorted
  add_to_sorted_lem order values value s =
      let found =
        search-IsFound (is_greater value values) (stays_greater order value values s)
          (length values) 0 (length values) (omega arith) (omega arith) in
      let r = search (length values) (is_greater value values) 0 (length values) in
      let same =
        shift_in_lem zero_value r value values found.to
        ∙ found-insert_sorted order value values r found in
      (same, subst IsSorted (sym same) (insert_sorted-IsSorted order value values s))
