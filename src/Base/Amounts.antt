-- ===== src/Base/Amounts.antt =====
-- Go's `*big.Int`, which may be nil, in what is added up.
use idena_indexer.Base.{Bool, true, false, Option, none, some, ◌==◌}
use idena_indexer.Base.Int.{ℤ, pos, negsuc}

abbrev pub is_zero : ℤ → Bool
is_zero (pos n) = n == 0
is_zero (negsuc n) = false

-- `x == nil || x.Sign() == 0`
abbrev pub zero_or_nil : Option ℤ → Bool
zero_or_nil none = true
zero_or_nil (some x) = is_zero x

-- A nil amount becomes `new(big.Int)`.
abbrev pub or_zero : Option ℤ → ℤ
or_zero none = pos 0
or_zero (some x) = x
