-- ===== src/Prelude/Int.antt =====
-- Go's signed integers, as far as the program compares them. `negsuc n` is -(n + 1).
use Prim.Native.Nat.{ℕ}
use mathlib.Core.Bool.{Bool, true, false}
use arazu.Prelude.Tests.{ltb, nat_eq}

pub data ℤ : Type 0 where
  pos : ℕ → ℤ
  negsuc : ℕ → ℤ

-- n < k, for a length n
abbrev pub length_lt : ℕ → ℤ → Bool
length_lt n (pos k) = ltb n k
length_lt n (negsuc k) = false

-- n <= 0
abbrev pub not_positive : ℤ → Bool
not_positive (pos n) = nat_eq n 0
not_positive (negsuc n) = true

-- equality with a count
abbrev pub is_count : ℕ → ℤ → Bool
is_count n (pos k) = nat_eq n k
is_count n (negsuc k) = false
