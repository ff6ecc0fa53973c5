-- ===== src/Balances/Sums.antt =====
-- Sums over sets of addresses, which come as lists without repetition: the order of the list does not
-- matter, nor do addresses at which there is nothing to add.
use idena_indexer.Base.{
  ◌≡◌, refl, sym, ap, ◌∙◌, subst, Bool, true, false, not, List, [], ◌∷◌, arith, Bool-cases, inl,
  inr, ◌==◌, ==_iff, if◌then◌else◌,
}
use idena_indexer.Base.Int.{ℤ, pos, ◌+ℤ◌, ◌-ℤ◌, int_laws, eq_of_parts}
use idena_indexer.Node.{Address}
use idena_indexer.Balances.{member, add, add_all}

-- No address stands twice.
abbrev pub Distinct : List Address → Type 0
Distinct [] = Unit
Distinct (a ∷ xs) = (member a xs ≡ false) × Distinct xs

unfoldable pub sum_of : (Address → ℤ) → List Address → ℤ
sum_of f [] = pos 0
sum_of f (a ∷ xs) = f a +ℤ sum_of f xs

-- The part of a list on which a test passes.
unfoldable pub keep : (Address → Bool) → List Address → List Address
keep p [] = []
keep p (a ∷ xs) = let rest = keep p xs in if p a then a ∷ rest else rest

pub member-keep :
    (p : Address → Bool) (b : Address) (xs : List Address)
    → member b (keep p xs) ≡ (if p b then member b xs else false)
unfolding member keep
member-keep p b [] = ground arith
member-keep p b (a ∷ xs) = elim (Bool-cases (b == a)) [
  | inl e ↦
      subst (λ c. member b (keep p (c ∷ xs)) ≡ (if p b then member b (c ∷ xs) else false))
        ((==_iff b a).0 e) (ground (arith, member-keep p b xs, (==_iff b b).1 refl))
  | inr e ↦ ground (arith, member-keep p b xs)
]

pub keep-Distinct : (p : Address → Bool) (xs : List Address) → Distinct xs → Distinct (keep p xs)
unfolding keep
keep-Distinct p [] d = d
keep-Distinct p (a ∷ xs) d = ground (arith, keep-Distinct p xs d.1, member-keep p a xs)

-- Where there is nothing to add off the test, the rest can be left out.
pub sum_of-keep :
    (f : Address → ℤ) (p : Address → Bool) (xs : List Address)
    → ((a : Address) → p a ≡ false → f a ≡ pos 0)
    → sum_of f (keep p xs) ≡ sum_of f xs
unfolding sum_of keep
sum_of-keep f p [] z = refl
sum_of-keep f p (a ∷ xs) z = elim (Bool-cases (p a)) [
  | inl e ↦ rw e (ap (λ s. f a +ℤ s) (sum_of-keep f p xs z))
  | inr e ↦ rw e (rw (z a e) (sum_of-keep f p xs z ∙ eq_of_parts _ _ (omega int_laws)))
]

keep_absent :
    (b : Address) (xs : List Address) → member b xs ≡ false → keep (λ a. not (b == a)) xs ≡ xs
unfolding keep member
keep_absent b [] m = refl
keep_absent b (a ∷ xs) m = ground (arith, keep_absent b xs)

no_members : (xs : List Address) → ((a : Address) → member a xs ≡ false) → xs ≡ []
unfolding member
no_members [] h = refl
no_members (a ∷ xs) h = ground (arith, h a, (==_iff a a).1 refl)

-- A member's share, taken out of the sum.
+ℤ_swap : (a b c : ℤ) → a +ℤ (b +ℤ c) ≡ b +ℤ (a +ℤ c)
+ℤ_swap a b c = eq_of_parts _ _ (omega int_laws)

sum_of-member :
    (f : Address → ℤ) (b : Address) (xs : List Address)
    → Distinct xs
    → member b xs ≡ true
    → sum_of f xs ≡ f b +ℤ sum_of f (keep (λ a. not (b == a)) xs)
unfolding sum_of keep member
sum_of-member f b [] d m = ground arith
sum_of-member f b (a ∷ xs) d m = elim (Bool-cases (b == a)) [
  | inl e ↦
      let same : b ≡ a = (==_iff b a).0 e in
      let absent = keep_absent b xs (subst (λ c. member c xs ≡ false) (sym same) d.0) in
      rw e (rw absent (ap (λ c. f c +ℤ sum_of f xs) (sym same)))
  | inr e ↦
      let there : member b xs ≡ true = ground arith in
      let rest = sum_of-member f b xs d.1 there in
      rw e (rw rest (+ℤ_swap (f a) (f b) (sum_of f (keep (λ c. not (b == c)) xs))))
]

-- The sum does not depend on the order.
pub sum_of_same :
    (f : Address → ℤ) (xs ys : List Address)
    → Distinct xs
    → Distinct ys
    → ((a : Address) → member a xs ≡ member a ys)
    → sum_of f xs ≡ sum_of f ys
unfolding sum_of member
sum_of_same f [] ys dx dy h = rw (no_members ys (λ a. sym (h a))) refl
sum_of_same f (a ∷ xs) ys dx dy h =
    let there : member a ys ≡ true = ground (arith, h a, (==_iff a a).1 refl) in
    ap (λ s. f a +ℤ s)
      (sum_of_same f xs (keep (λ b. not (a == b)) ys) dx.1 (keep-Distinct (λ b. not (a == b)) ys dy)
        (λ b.
          ground (arith, member-keep (λ c. not (a == c)) b ys, h b, ==_iff a b, ==_iff b a, dx.0)))
    ∙ sym (sum_of-member f a ys dy there)

-- Addresses at which there is nothing to add can be put in or left out.
pub sum_of-extend :
    (f : Address → ℤ) (xs ys : List Address)
    → Distinct xs
    → Distinct ys
    → ((a : Address) → member a xs ≡ true → member a ys ≡ true)
    → ((a : Address) → member a xs ≡ false → f a ≡ pos 0)
    → sum_of f xs ≡ sum_of f ys
sum_of-extend f xs ys dx dy h z =
    sum_of_same f xs (keep (λ a. member a xs) ys) dx (keep-Distinct (λ a. member a xs) ys dy)
      (λ a. ground (arith, member-keep (λ b. member b xs) a ys, h a))
    ∙ sum_of-keep f (λ a. member a xs) ys z

pub member-add :
    (b a : Address) (s : List Address) → member b (add a s) ≡ (if b == a then true else member b s)
unfolding add member
member-add b a s = ground (arith, ==_iff b a)

pub add-Distinct : (a : Address) (s : List Address) → Distinct s → Distinct (add a s)
unfolding add
add-Distinct a s d = ground arith

pub member-add_all :
    (b : Address) (xs s : List Address)
    → member b (add_all xs s) ≡ (if member b xs then true else member b s)
unfolding add_all member
member-add_all b [] s = refl
member-add_all b (a ∷ xs) s = ground (arith, member-add_all b xs (add a s), member-add b a s)

pub add_all-Distinct : (xs s : List Address) → Distinct s → Distinct (add_all xs s)
unfolding add_all
add_all-Distinct [] s d = d
add_all-Distinct (a ∷ xs) s d = add_all-Distinct xs (add a s) (add-Distinct a s d)

diff_step : (a b c d : ℤ) → a +ℤ (c +ℤ d) ≡ b +ℤ c +ℤ (a -ℤ b +ℤ d)
diff_step a b c d = eq_of_parts _ _ (omega int_laws)

-- Sums of differences.
pub sum_of-diff :
    (f g : Address → ℤ) (xs : List Address)
    → sum_of f xs ≡ sum_of g xs +ℤ sum_of (λ a. f a -ℤ g a) xs
unfolding sum_of
sum_of-diff f g [] = eq_of_parts _ _ (omega int_laws)
sum_of-diff f g (a ∷ xs) =
    let ih = sum_of-diff f g xs in
    rw ih (diff_step (f a) (g a) (sum_of g xs) (sum_of (λ b. f b -ℤ g b) xs))
