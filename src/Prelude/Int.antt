-- ===== src/Prelude/Int.antt =====
-- Signed machine integers: i32 and i64 values as integers over the native numbers.
use Prim.Native.Nat.{ℕ, suc, ◌+◌, ◌-◌, ◌%◌, ◌^◌}
use mathlib.Core.Bool.{Bool}
use mathlib.Core.List.{◌∷◌}
use grpc_server_rust.Prelude.Tests.{ltb, ◌==◌, if◌then◌else◌}
use grpc_server_rust.Prelude.Text.{Str, fmt_nat}

-- `negsuc n` is -(n + 1).
pub data ℤ : Type 0 where
  pos : ℕ → ℤ
  negsuc : ℕ → ℤ

abbrev pub pos_part : ℤ → ℕ
pos_part (pos n) = n
pos_part (negsuc n) = 0

abbrev pub neg_part : ℤ → ℕ
neg_part (pos n) = 0
neg_part (negsuc n) = suc n

abbrev pub ltb_ℤ : ℤ → ℤ → Bool
ltb_ℤ a b = ltb (pos_part a + neg_part b) (pos_part b + neg_part a)

-- `n as i32`: the low 32 bits, read as two's complement.
abbrev pub as_i32 : ℕ → ℤ
as_i32 n = let w : ℕ = n % 2 ^ 32 in if ltb w (2 ^ 31) then pos w else negsuc (2 ^ 32 - w - 1)

abbrev pub is_zero : ℤ → Bool
is_zero n = pos_part n + neg_part n == 0

-- `format!("{}", n)` of a signed number
abbrev pub fmt_int : ℤ → Str
fmt_int (pos n) = fmt_nat n
fmt_int (negsuc n) = 45 ∷ fmt_nat (suc n)
