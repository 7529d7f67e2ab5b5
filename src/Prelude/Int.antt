-- ===== src/Prelude/Int.antt =====
-- C `int` as an integer: `pos n` is n and `negsuc n` is -(n + 1). `inc_int` and `dec_int` wrap at
-- 32 bits, as the compiled code does.
use Prim.Native.Nat.{ℕ, zero, suc, ◌+◌, ◌-◌, ◌^◌}
use mathlib.Core.Path.{◌≡◌}
use mathlib.Core.Logic.{◌↔◌}
use mathlib.Core.Bool.{Bool, true, false}
use native.Mathlib.Omega.{arith}
use sros.Prelude.Tests.{ltb, ◌==◌, if◌then◌else◌}

pub data ℤ : Type 0 where
  pos : ℕ → ℤ
  negsuc : ℕ → ℤ

-- -1, the kernel's error code and mark of a free slot.
abbrev pub minus_one : ℤ
minus_one = negsuc 0

abbrev pub max_int : ℕ
max_int = 2 ^ 31 - 1

-- `x < 0`
abbrev pub is_neg : ℤ → Bool
is_neg (pos n) = false
is_neg (negsuc n) = true

-- `x > 0`
abbrev pub is_pos : ℤ → Bool
is_pos (pos n) = ltb 0 n
is_pos (negsuc n) = false

-- `x == y`
abbrev pub eq_int : ℤ → ℤ → Bool
eq_int (pos m) (pos n) = m == n
eq_int (negsuc m) (negsuc n) = m == n
eq_int (pos m) (negsuc n) = false
eq_int (negsuc m) (pos n) = false

-- `x < y`
abbrev pub lt_int : ℤ → ℤ → Bool
lt_int (pos m) (pos n) = ltb m n
lt_int (negsuc m) (negsuc n) = ltb n m
lt_int (pos m) (negsuc n) = false
lt_int (negsuc m) (pos n) = true

-- `x + 1`
abbrev pub inc_int : ℤ → ℤ
inc_int (pos n) = if n == max_int then negsuc max_int else pos (n + 1)
inc_int (negsuc zero) = pos 0
inc_int (negsuc (suc n)) = negsuc n

-- `x - 1`
abbrev pub dec_int : ℤ → ℤ
dec_int (pos zero) = negsuc 0
dec_int (pos (suc n)) = pos n
dec_int (negsuc n) = if n == max_int then pos max_int else negsuc (n + 1)

-- A result of type `int` as the `u32` of a register.
abbrev pub to_u32 : ℤ → ℕ
to_u32 (pos n) = n
to_u32 (negsuc n) = 2 ^ 32 - 1 - n

-- A `u32` register read as an `int`.
abbrev pub of_u32 : ℕ → ℤ
of_u32 w = if ltb w (2 ^ 31) then pos w else negsuc (2 ^ 32 - 1 - w)

pub eq_int_iff : (a b : ℤ) → (eq_int a b ≡ true) ↔ (a ≡ b)
eq_int_iff (pos m) (pos n) = ground arith
eq_int_iff (negsuc m) (negsuc n) = ground arith
eq_int_iff (pos m) (negsuc n) = ground arith
eq_int_iff (negsuc m) (pos n) = ground arith
