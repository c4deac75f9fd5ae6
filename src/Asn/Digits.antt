-- ===== src/Asn/Digits.antt =====
-- Numbers as octets, most significant first (`int64Encoder` of cdr/asn/ber_marshal.go, `parseInt64` of
-- cdr/asn/ber_unmarshal.go, and the loops of `appendTagAndLen`).
use chf.Base.{
  ℕ, zero, suc, ◌+◌, ◌-◌, ◌*◌, ◌/◌, ◌%◌, ◌^◌, bit_or, ltb, leb, List, [], ◌∷◌, ◌++◌, Option, none,
  some, if◌then◌else◌, length,
}
use chf.Base.Word.{slt64}

-- `n := 1; for x > base - 1 { n++; x >>= k }` with base 2^k, on an unsigned number.
unfoldable pub digit_count : ℕ → ℕ → ℕ → ℕ
digit_count base zero x = 1
digit_count base (suc fuel) x =
    let more = suc (digit_count base fuel (x / base)) in if ltb x base then 1 else more

-- The last n digits of a number, the most significant one first.
unfoldable pub digits : ℕ → ℕ → ℕ → List ℕ
digits base zero x = []
digits base (suc n) x = digits base n (x / base) ++ (x % base ∷ [])

-- `i >> 8` on int64 keeps the sign.
unfoldable pub shift_right : ℕ → ℕ
shift_right i = i / 2 ^ 8 + (if leb (2 ^ 63) i then 2 ^ 64 - 2 ^ 56 else 0)

-- `for i > 127 { n++; i >>= 8 }`
unfoldable pub count_positive : ℕ → ℕ → ℕ → ℕ × ℕ
count_positive zero n i = (n, i)
count_positive (suc fuel) n i =
    let more = count_positive fuel (suc n) (shift_right i) in if slt64 127 i then more else (n, i)

-- `for i < -128 { n++; i >>= 8 }`
unfoldable pub count_negative : ℕ → ℕ → ℕ → ℕ
count_negative zero n i = n
count_negative (suc fuel) n i =
    let more = count_negative fuel (suc n) (shift_right i) in
    if slt64 i (2 ^ 64 - 128) then more else n

-- `int64Encoder.Len`: eight rounds shift a number out.
unfoldable pub int64_len : ℕ → ℕ
int64_len i = let (n, j) = count_positive 8 1 i in count_negative 8 n j

abbrev pub int64_octets : ℕ → ℕ → List ℕ
int64_octets zero i = []
int64_octets (suc n) i = int64_octets n (shift_right i) ++ (i % 2 ^ 8 ∷ [])

-- `int64Encoder.Encode`
unfoldable pub encode_int64 : ℕ → List ℕ
encode_int64 i = int64_octets (int64_len i) i

abbrev pub shift_in : ℕ → List ℕ → ℕ
shift_in r [] = r
shift_in r (b ∷ bytes) = shift_in (bit_or (r * 2 ^ 8 % 2 ^ 64) b) bytes

-- `parseInt64`, which does not extend the sign.
unfoldable pub parse_int64 : List ℕ → Option ℕ
parse_int64 bytes = if ltb 8 (length bytes) then none else some (shift_in 0 bytes)
