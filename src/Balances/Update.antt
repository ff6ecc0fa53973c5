-- ===== src/Balances/Update.antt =====
-- What a sum over all accounts becomes when the addresses of a set change.
use idena_indexer.Base.{◌≡◌, sym, false, List, arith}
use idena_indexer.Base.Int.{ℤ, pos, ◌+ℤ◌, ◌-ℤ◌, int_laws, eq_of_parts}
use idena_indexer.Node.{Address}
use idena_indexer.Balances.{member, add_all}
use idena_indexer.Balances.Sums.{
  Distinct, sum_of, sum_of-extend, sum_of-diff, member-add_all, add_all-Distinct,
}

difference_zero : (a b : ℤ) → a ≡ b → a -ℤ b ≡ pos 0
difference_zero a b h = rw h (eq_of_parts _ _ (omega int_laws))

-- A sum over the accounts changes by what it changes on the touched addresses.
pub sum_of-update :
    (f g : Address → ℤ) (before after changed : List Address)
    → Distinct before
    → Distinct after
    → Distinct changed
    → ((a : Address) → member a before ≡ false → f a ≡ pos 0)
    → ((a : Address) → member a after ≡ false → g a ≡ pos 0)
    → ((a : Address) → member a changed ≡ false → g a ≡ f a)
    → sum_of f before +ℤ sum_of (λ a. g a -ℤ f a) changed ≡ sum_of g after
sum_of-update f g before after changed db da dc zf zg same =
    let all = add_all before (add_all after changed) in
    let d : Distinct all = add_all-Distinct before _ (add_all-Distinct after changed dc) in
    let f_all : sum_of f before ≡ sum_of f all =
      sum_of-extend f before all db d
        (λ a m.
          ground (
            arith,
            member-add_all a before (add_all after changed),
            member-add_all a after changed,
          ))
        zf in
    let g_all : sum_of g after ≡ sum_of g all =
      sum_of-extend g after all da d
        (λ a m.
          ground (
            arith,
            member-add_all a before (add_all after changed),
            member-add_all a after changed,
          ))
        zg in
    let c_all : sum_of (λ a. g a -ℤ f a) changed ≡ sum_of (λ a. g a -ℤ f a) all =
      sum_of-extend (λ a. g a -ℤ f a) changed all dc d
        (λ a m.
          ground (
            arith,
            member-add_all a before (add_all after changed),
            member-add_all a after changed,
          ))
        (λ a m. difference_zero (g a) (f a) (same a m)) in
    rw f_all (rw c_all (rw g_all (sym (sum_of-diff g f all))))
