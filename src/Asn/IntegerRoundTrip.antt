-- ===== src/Asn/IntegerRoundTrip.antt =====
-- The octets of an integer, and what is read from them (`int64Encoder` of cdr/asn/ber_marshal.go and
-- `parseInt64` of cdr/asn/ber_unmarshal.go).
use native.Mathlib.Nat.{pow-suc, mod-lt, mod-eq_of_lt, one-le-pow, pow-le-pow_right}
use chf.Base.{
  ℕ, zero, suc, ◌+◌, ◌-◌, ◌*◌, ◌%◌, ◌^◌, ◌≤◌, ◌<◌, ◌≡◌, refl, ap, ◌∙◌, arith, ltb, false, some,
  length, inl, inr, Bool-cases, le→ltb,
}
use chf.Base.Word.{Is64, slt64}
use chf.Asn.Digits.{
  count_positive, count_negative, int64_len, int64_octets, encode_int64, parse_int64,
}
use chf.Asn.Positional.{shift_in-gather}
use chf.Asn.Integers.{
  length-int64_octets, gather-int64_octets, IsRounds, Shifts, count_positive-Shifts, negative,
  count_negative-Shifts,
}

-- The least number of octets whose two's complement holds c, and also its complement.
abbrev pub IsOctetCount : ℕ → ℕ → Type 0
IsOctetCount c n = (1 ≤ n) × (c < 128 * 256 ^ (n - 1)) × ((k : ℕ) → c < 128 * 256 ^ k → n ≤ suc k)

counted : (c n s : ℕ) → n ≡ 1 + s → IsRounds c s → IsOctetCount c n
counted c n s e (fits, least) =
    let behind : n - 1 ≡ s = omega arith in
    (omega arith, rw behind fits, λ k h. (let le = least k h in omega arith))

count_negative-positive : (n j : ℕ) → j < 128 → count_negative 8 n j ≡ n
unfolding count_negative slt64
count_negative-positive n j small =
    let no : ltb ((j + 2 ^ 63) % 2 ^ 64) ((2 ^ 64 - 128 + 2 ^ 63) % 2 ^ 64) ≡ false =
      ground arith in
    rw no refl

int64_len-positive : (i : ℕ) → i < 2 ^ 63 → IsOctetCount i (int64_len i)
unfolding int64_len
int64_len-positive i small =
    go (count_positive 8 1 i) (count_positive-Shifts 8 1 i (omega arith) small)
  where
    go : (r : ℕ × ℕ) → Shifts 1 i r → IsOctetCount i (count_negative 8 (r.0) (r.1))
    go r (s, j, p, end, rounds) =
        let e : count_negative 8 (r.0) (r.1) ≡ 1 + s =
          rw p (count_negative-positive (1 + s) j end) in
        counted i (count_negative 8 (r.0) (r.1)) s e rounds

count_positive-negative : (c : ℕ) → c < 2 ^ 63 → count_positive 8 1 (negative c) ≡ (1, negative c)
unfolding count_positive slt64
count_positive-negative c small =
    let no : ltb ((127 + 2 ^ 63) % 2 ^ 64) ((negative c + 2 ^ 63) % 2 ^ 64) ≡ false =
      ground arith in
    rw no refl

int64_len-negative : (c : ℕ) → c < 2 ^ 63 → IsOctetCount c (int64_len (negative c))
unfolding int64_len
int64_len-negative c small =
    let (s, e, rounds) = count_negative-Shifts 8 1 c (omega arith) small in
    rw (count_positive-negative c small) (counted c (count_negative 8 1 (negative c)) s e rounds)

-- For c below 2^63, both c and the negative number -1 - c take the least number of octets whose
-- two's complement holds them, and at least one.
pub int64_len-IsOctetCount :
    (c : ℕ)
    → c < 2 ^ 63
    → IsOctetCount c (int64_len c) × IsOctetCount c (int64_len (2 ^ 64 - 1 - c))
int64_len-IsOctetCount c small = (int64_len-positive c small, int64_len-negative c small)

complement : (i : ℕ) → Is64 i → 2 ^ 63 ≤ i → 2 ^ 64 - 1 - (2 ^ 64 - 1 - i) ≡ i
complement i small large = omega arith

int64_len-bound : (i : ℕ) → Is64 i → int64_len i ≤ 8
int64_len-bound i small = elim (Bool-cases (ltb i (2 ^ 63))) [
  | inl e ↦ (int64_len-positive i (ground arith)).2 7 (ground arith)
  | inr e ↦
      let c = 2 ^ 64 - 1 - i in
      let le = (int64_len-negative (2 ^ 64 - 1 - i) (ground arith)).2 7 (ground arith) in
      rw (← complement i small (ground arith)) le
]

parse-encode_int64_low :
    (i : ℕ) → Is64 i → parse_int64 (encode_int64 i) ≡ some (i % 256 ^ int64_len i)
unfolding parse_int64 encode_int64
parse-encode_int64_low i small =
    let bound = int64_len-bound i small in
    let short : ltb 8 (length (int64_octets (int64_len i) i)) ≡ false =
      rw (length-int64_octets (int64_len i) i) (le→ltb 8 (int64_len i) bound) in
    rw short (
      ap some (
        shift_in-gather 0 (int64_octets (int64_len i) i)
        ∙ gather-int64_octets (int64_len i) i bound small))

fits_octets : (i n : ℕ) → IsOctetCount i n → i < 256 ^ n
fits_octets i zero (one, fits, least) = absurd (omega arith)
fits_octets i (suc n) (one, fits, least) =
    let behind : suc n - 1 ≡ n = omega arith in
    let fits' : i < 128 * 256 ^ n = rw behind at fits in omega (arith, pow-suc 256 n)

-- An integer from 0 to 2^63 - 1 is read back from its octets.
pub parse-encode_int64 : (i : ℕ) → i < 2 ^ 63 → parse_int64 (encode_int64 i) ≡ some i
parse-encode_int64 i small =
    parse-encode_int64_low i (omega arith)
    ∙ ap some (mod-eq_of_lt (fits_octets i (int64_len i) (int64_len-positive i small)))

-- A negative number from -2^55 on is read back from its octets as a number from 0 to 2^56 - 1.
pub parse-encode_int64_negative :
    (c : ℕ)
    → c < 2 ^ 55
    → (i : ℕ) × (parse_int64 (encode_int64 (2 ^ 64 - 1 - c)) ≡ some i) × (i < 2 ^ 56)
parse-encode_int64_negative c small =
    let n = int64_len (2 ^ 64 - 1 - c) in
    let le = (int64_len-negative c (omega arith)).2 6 (omega arith) in
    let below =
      mod-lt (2 ^ 64 - 1 - c) (one-le-pow (int64_len (2 ^ 64 - 1 - c)) 256 (omega arith)) in
    let width = pow-le-pow_right {n = 256} (omega arith) le in
    (
      (2 ^ 64 - 1 - c) % 256 ^ int64_len (2 ^ 64 - 1 - c),
      parse-encode_int64_low (2 ^ 64 - 1 - c) (omega arith),
      omega arith,
    )
