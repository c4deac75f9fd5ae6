-- ===== src/Base/Word.antt =====
-- Go's fixed-width integers as bit patterns. A signed integer is its two's complement pattern, so a
-- conversion between int64 and uint64, or int32 and uint32, leaves the pattern as it is.
use Prim.Native.Nat.{ℕ, ◌+◌, ◌-◌, ◌*◌, ◌%◌, ◌^◌, ◌<◌}
use mathlib.Core.Path.{◌≡◌}
use mathlib.Core.Bool.{Bool, true, false}
use native.Mathlib.Omega.{arith}
use chf.Base.Tests.{ltb}

abbrev pub IsByte : ℕ → Type 0
IsByte b = b < 256

abbrev pub IsU16 : ℕ → Type 0
IsU16 x = x < 2 ^ 16

abbrev pub IsU32 : ℕ → Type 0
IsU32 x = x < 2 ^ 32

-- A 64-bit pattern, of a uint64 or of an int64.
abbrev pub Is64 : ℕ → Type 0
Is64 x = x < 2 ^ 64

unfoldable pub add64 : ℕ → ℕ → ℕ
add64 a b = (a + b) % 2 ^ 64

unfoldable pub sub64 : ℕ → ℕ → ℕ
sub64 a b = (a + 2 ^ 64 - b) % 2 ^ 64

-- a < b on int64: adding 2^63 turns the signed order into the order of the patterns.
unfoldable pub slt64 : ℕ → ℕ → Bool
slt64 a b = ltb ((a + 2 ^ 63) % 2 ^ 64) ((b + 2 ^ 63) % 2 ^ 64)

unfoldable pub mul32 : ℕ → ℕ → ℕ
mul32 a b = a * b % 2 ^ 32

-- 0 < x on int32.
unfoldable pub pos32 : ℕ → Bool
pos32 x = elim (ltb 0 x) [ true ↦ ltb x (2 ^ 31) | false ↦ false ]

pub add64-sub64 : (a b : ℕ) → Is64 a → Is64 b → add64 (sub64 a b) b ≡ a
unfolding add64 sub64
add64-sub64 a b ha hb = omega arith

pub sub64-add64 : (a b : ℕ) → Is64 a → Is64 b → sub64 (add64 a b) b ≡ a
unfolding add64 sub64
sub64-add64 a b ha hb = omega arith
