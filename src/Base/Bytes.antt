-- ===== src/Base/Bytes.antt =====
-- encoding/binary in big endian, over lists of bytes.
use Prim.Native.Nat.{ℕ, ◌+◌, ◌*◌, ◌/◌, ◌%◌, ◌^◌}
use mathlib.Core.Path.{◌≡◌}
use mathlib.Core.List.{List, ◌∷◌}
use mathlib.Core.Option.{Option, none, some}
use native.Mathlib.Omega.{arith}
use chf.Base.Word.{IsU16, IsU32}

abbrev pub put_u16 : ℕ → List ℕ → List ℕ
put_u16 x rest = (x / 2 ^ 8 % 256) ∷ (x % 256) ∷ rest

abbrev pub put_u32 : ℕ → List ℕ → List ℕ
put_u32 x rest = (x / 2 ^ 24 % 256) ∷ (x / 2 ^ 16 % 256) ∷ (x / 2 ^ 8 % 256) ∷ (x % 256) ∷ rest

-- `binary.BigEndian.Uint16` panics on fewer than two bytes.
abbrev pub uint16 : List ℕ → Option ℕ
uint16 (a ∷ b ∷ rest) = some (a * 2 ^ 8 + b)
uint16 _ = none

abbrev pub uint32 : List ℕ → Option ℕ
uint32 (a ∷ b ∷ c ∷ d ∷ rest) = some (a * 2 ^ 24 + b * 2 ^ 16 + c * 2 ^ 8 + d)
uint32 _ = none

pub uint16_bytes : (x : ℕ) → IsU16 x → x / 2 ^ 8 % 256 * 2 ^ 8 + x % 256 ≡ x
uint16_bytes x h = omega arith

pub uint32_bytes :
    (x : ℕ)
    → IsU32 x
    → x / 2 ^ 24 % 256 * 2 ^ 24 + x / 2 ^ 16 % 256 * 2 ^ 16 + x / 2 ^ 8 % 256 * 2 ^ 8 + x % 256 ≡ x
uint32_bytes x h = omega arith
