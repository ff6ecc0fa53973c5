-- ===== src/Online/Tests.antt =====
-- The updater on a state with a pool of two delegators.
use Prim.Native.String.{String}
use text.Mathlib.TextBridge.{to_list, of_list, to_list-of_list}
use idena_indexer.Base.{
  ℕ, ◌+◌, ◌||◌, none, ◌≡◌, refl, sym, ap, ◌∙◌, Bool, true, false, some, none, List, [], ◌∷◌,
  replicate, length, length-replicate, ltb, if◌then◌else◌, arith,
}
use idena_indexer.Base.Int.{pos, ◌+ℤ◌}
use idena_indexer.Base.Eq.{◌==◌, string_key, number_key}
use idena_indexer.Node.{Address}
use idena_indexer.Online.{NodeIdentity, AppState, key, iterate, no_progress, get_pool, get}
use idena_indexer.Online.Pools.{
  iterate-pools, has_delegator, delegated_total, validated_total, pool_with, own_stake,
  own_validated_stake,
}
use idena_indexer.Online.Counts.{iterate-counts, online_total, validators_of, online_of}
use idena_indexer.Online.Identities.{iterate-get, is_listed, Answers}
use idena_indexer.Online.Sorted.{IsOrder, IsSorted, add_to_sorted, insert_sorted, add_to_sorted_lem}

-- The text of an address has as many characters as its number.
abbrev unary : Address → String
unary a = of_list (replicate a "a")

unary-length : (a : Address) → length (to_list (unary a)) ≡ a
unary-length a = ap length (to_list-of_list (replicate a "a")) ∙ length-replicate a "a"

same_test : (x y : Bool) → (x ≡ true → y ≡ true) → (y ≡ true → x ≡ true) → x ≡ y
same_test true y f g = sym (f refl)
same_test false true f g = g refl
same_test false false f g = refl

unary-same : (a b : Address) → (unary a == unary b) ≡ (a == b)
unary-same a b =
    let equal : unary a ≡ unary b → a ≡ b =
      λ e. sym (unary-length a) ∙ ap (λ s. length (to_list s)) e ∙ unary-length b in
    same_test (unary a == unary b) (a == b)
      (λ t.
        let texts : unary a ≡ unary b = (string_key.decides (unary a) (unary b)).0 t in
        (number_key.decides a b).1 (equal texts))
      (λ t.
        let numbers : a ≡ b = (number_key.decides a b).0 t in
        (string_key.decides (unary a) (unary b)).1 (ap unary numbers))

-- Address 1 is the pool, with a stake of 5; 2 and 3 are delegated to it, 3 not validated; 4 is alone.
abbrev who : Address → NodeIdentity
who a = record {
  newbie_or_better = a == 1 || a == 2 || a == 4;
  stake = if a == 4 then none else some (pos (a + 4));
  delegatee = if a == 2 || a == 3 then some 1 else none;
  penalty = none;
  penalty_seconds = 0;
}

abbrev state : AppState
state = record {
  get_identity = who;
  is_online_identity = λ a. a == 1;
  is_pool = λ a. a == 1;
  pool_size = λ a. 2;
  activity = λ a. if a == 1 then some 100 else none;
  hex = unary;
  to_lower = λ s. s;
}

abbrev listed : List (Address × NodeIdentity)
listed = (2, who 2) ∷ (1, who 1) ∷ (3, who 3) ∷ (4, who 4) ∷ []

iterate-pools_example : get_pool (key state 1) (iterate state listed no_progress) ≡ (
    if has_delegator 1 listed
    then some (
        pool_with
          (own_stake (who 1) +ℤ delegated_total 1 listed)
          (own_validated_stake (who 1) +ℤ validated_total 1 listed))
    else none)
iterate-pools_example = iterate-pools state unary-same listed 1

sums :
    pool_with
      (own_stake (who 1) +ℤ delegated_total 1 listed)
      (own_validated_stake (who 1) +ℤ validated_total 1 listed)
    ≡ pool_with (pos 18) (pos 11)
unfolding delegated_total validated_total ◌+ℤ◌
sums = refl

iterate-get_example :
    Answers state 1 (is_listed 1 listed) (get (key state 1) (iterate state listed no_progress))
iterate-get_example = iterate-get state unary-same listed 1

iterate-counts_example :
    ((iterate state listed no_progress).online_count ≡ online_total state listed)
    × ((iterate state listed no_progress).validators ≡ validators_of state listed)
    × ((iterate state listed no_progress).online_validators
        ≡ online_of (iterate state listed no_progress).validators)
iterate-counts_example = iterate-counts state listed

count : online_total state listed ≡ 2
unfolding online_total
count = refl

abbrev above : ℕ → ℕ → Bool
above a b = ltb b a

above-IsOrder : IsOrder above 0
above-IsOrder = record { follows = λ a b v p q. ground arith; one_way = λ a b p. ground arith }

add_to_sorted_lem_example :
    (add_to_sorted above 0 (1 ∷ 4 ∷ 4 ∷ 9 ∷ []) 4 ≡ insert_sorted above 0 4 (1 ∷ 4 ∷ 4 ∷ 9 ∷ []))
    × IsSorted above 0 (add_to_sorted above 0 (1 ∷ 4 ∷ 4 ∷ 9 ∷ []) 4)
add_to_sorted_lem_example =
    add_to_sorted_lem above 0 above-IsOrder (1 ∷ 4 ∷ 4 ∷ 9 ∷ []) 4 (refl, (refl, (refl, tt)))
