-- ===== src/Base/Eq.antt =====
-- Go's `==` on the types that serve as keys of maps, taken as an instance argument. The native test
-- `◌==◌` of the module above is one case of it.
use Prim.Native.String.{String}
use text.Mathlib.Text.{◌==◌ as same_text}
use text.Mathlib.TextEquality.{eq_iff}
use idena_indexer.Base.{ℕ, ◌≡◌, ◌↔◌, Bool, true, ◌==◌ as same_number, ==_iff}

-- `decides` says that the test `same` passes on equal keys and on no others.
pub record Comparable {ℓ} (K : Type ℓ) : Type ℓ where
  pub same : K → K → Bool
  pub decides : (j k : K) → (same j k ≡ true) ↔ (j ≡ k)

instance abbrev pub string_key : Comparable String
string_key = record { same = same_text; decides = eq_iff }

instance abbrev pub number_key : Comparable ℕ
number_key = record { same = same_number; decides = ==_iff }

infix 50 ◌==◌
abbrev pub ◌==◌ {ℓ} : {K : Type ℓ} ⦃key : Comparable K⦄ → K → K → Bool
◌==◌ ⦃key⦄ j k = key.same j k
