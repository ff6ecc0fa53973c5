-- ===== src/Base/SumBy.antt =====
-- Sums over the entries of a list that pass a test, and how they change with the list.
use idena_indexer.Base.{
  ℕ, zero, suc, ◌≡◌, refl, ap, ◌∙◌, sym, subst, Bool, true, false, some, List, [], ◌∷◌, ◌++◌, arith,
  if◌then◌else◌, get_elem?, set,
}
use idena_indexer.Base.Int.{ℤ, pos, ◌+ℤ◌, +ℤ_assoc, int_laws}

abbrev pub when : Bool → ℤ → ℤ
when c x = if c then x else pos 0

pub +ℤ_zero : (x : ℤ) → x +ℤ pos 0 ≡ x
+ℤ_zero x = omega int_laws

pub zero_+ℤ : (x : ℤ) → pos 0 +ℤ x ≡ x
zero_+ℤ x = omega int_laws

pub when_zero : (c : Bool) → when c (pos 0) ≡ pos 0
when_zero true = refl
when_zero false = refl

module _ {A : Type 0} (test : A → Bool) (value : A → ℤ) where
  unfoldable pub sum_by : List A → ℤ
  sum_by [] = pos 0
  sum_by (x ∷ xs) = when (test x) (value x) +ℤ sum_by xs

  pub sum_by-append :
      (xs : List A) (y : A) → sum_by (xs ++ y ∷ []) ≡ sum_by xs +ℤ when (test y) (value y)
  unfolding sum_by
  sum_by-append [] y = +ℤ_zero (when (test y) (value y)) ∙ sym (zero_+ℤ (when (test y) (value y)))
  sum_by-append (x ∷ xs) y =
      ap (λ s. when (test x) (value x) +ℤ s) (sum_by-append xs y)
      ∙ sym (+ℤ_assoc (when (test x) (value x)) (sum_by xs) (when (test y) (value y)))

  when-raised : (c : Bool) (v d s : ℤ) → when c (v +ℤ d) +ℤ s ≡ (when c v +ℤ s) +ℤ when c d
  when-raised true v d s = omega int_laws
  when-raised false v d s = omega int_laws

  -- An entry is replaced by one with the same test and a value that is greater by `d`.
  pub sum_by-set :
      (xs : List A) (i : ℕ) (x y : A) (d : ℤ)
      → get_elem? xs i ≡ some x
      → test y ≡ test x
      → value y ≡ value x +ℤ d
      → sum_by (set xs i y) ≡ sum_by xs +ℤ when (test x) d
  unfolding sum_by
  sum_by-set [] i x y d h t v = ground arith
  sum_by-set (z ∷ xs) zero x y d h t v =
      let same : z ≡ x = ground arith in
      subst
        (λ w.
          when (test y) (value y) +ℤ sum_by xs
          ≡ (when (test w) (value w) +ℤ sum_by xs) +ℤ when (test x) d)
        (sym same) (rw (t, v) (when-raised (test x) (value x) d (sum_by xs)))
  sum_by-set (z ∷ xs) (suc i) x y d h t v =
      ap (λ s. when (test z) (value z) +ℤ s) (sum_by-set xs i x y d h t v)
      ∙ sym (+ℤ_assoc (when (test z) (value z)) (sum_by xs) (when (test x) d))
