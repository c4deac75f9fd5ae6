-- ===== src/Asn/Integers.antt =====
-- Integers that are encoded and read again (`int64Encoder` of cdr/asn/ber_marshal.go and `parseInt64` of
-- cdr/asn/ber_unmarshal.go).
use native.Mathlib.Nat.{
  pow-zero, pow-suc, div-add-mod', mod-lt, mod-le, add-mul-mod_self_right, mul-add-mod_self_right,
  mod-eq_of_lt, one-le-pow,
}
use chf.Base.{
  ℕ, zero, suc, ◌+◌, ◌-◌, ◌*◌, ◌/◌, ◌%◌, ◌^◌, ◌≤◌, ◌<◌, ◌≡◌, refl, sym, ap, ◌∙◌, arith, leb, true,
  false, [], ◌∷◌, length, length-append, inl, inr, Bool-cases, bit_or,
}
use chf.Base.Word.{Is64, slt64}
use chf.Asn.Digits.{shift_right, count_positive, count_negative, int64_octets}
use chf.Asn.Positional.{gather, gather-last, shifted}

pub length-int64_octets : (n i : ℕ) → length (int64_octets n i) ≡ n
length-int64_octets zero i = refl
length-int64_octets (suc n) i = omega (
  arith,
  length-append (int64_octets n (shift_right i)) (i % 2 ^ 8 ∷ []),
  length-int64_octets n (shift_right i),
)

shift_right-Is64 : (i : ℕ) → Is64 i → Is64 (shift_right i)
unfolding shift_right
shift_right-Is64 i small = ground arith

-- The bits that come in from the left.
sign_bits : (m : ℕ) → m ≤ 7 → (q : ℕ) × (2 ^ 64 - 2 ^ 56 ≡ q * 256 ^ m)
sign_bits zero h = ((2 ^ 64 - 2 ^ 56), refl)
sign_bits (suc zero) h = ((2 ^ 64 - 2 ^ 56) / 256, refl)
sign_bits (suc (suc zero)) h = ((2 ^ 64 - 2 ^ 56) / 256 ^ 2, refl)
sign_bits (suc (suc (suc zero))) h = ((2 ^ 64 - 2 ^ 56) / 256 ^ 3, refl)
sign_bits (suc (suc (suc (suc zero)))) h = ((2 ^ 64 - 2 ^ 56) / 256 ^ 4, refl)
sign_bits (suc (suc (suc (suc (suc zero))))) h = ((2 ^ 64 - 2 ^ 56) / 256 ^ 5, refl)
sign_bits (suc (suc (suc (suc (suc (suc zero)))))) h = ((2 ^ 64 - 2 ^ 56) / 256 ^ 6, refl)
sign_bits (suc (suc (suc (suc (suc (suc (suc zero))))))) h = ((2 ^ 64 - 2 ^ 56) / 256 ^ 7, refl)
sign_bits (suc (suc (suc (suc (suc (suc (suc (suc m)))))))) h = absurd (omega arith)

shift_right-low : (m i : ℕ) → m ≤ 7 → shift_right i % 256 ^ m ≡ i / 2 ^ 8 % 256 ^ m
unfolding shift_right
shift_right-low m i h = elim (Bool-cases (leb (2 ^ 63) i)) [
  | inl e ↦
      let (q, p) = sign_bits m h in
      rw e (ap (λ t. (i / 2 ^ 8 + t) % 256 ^ m) p ∙ add-mul-mod_self_right (i / 2 ^ 8) q (256 ^ m))
  | inr e ↦ let p : i / 2 ^ 8 + 0 ≡ i / 2 ^ 8 = omega arith in rw e (ap (λ t. t % 256 ^ m) p)
]

low_digit : (m i : ℕ) → i / 2 ^ 8 % 256 ^ m * 2 ^ 8 + i % 2 ^ 8 ≡ i % 256 ^ suc m
low_digit m i = rw (pow-suc 256 m) (
    go (256 ^ m) (i / 2 ^ 8 / 256 ^ m) (i / 2 ^ 8 % 256 ^ m) (i % 2 ^ 8)
      (div-add-mod' (i / 2 ^ 8) (256 ^ m)) (mod-lt (i / 2 ^ 8) (one-le-pow m 256 (omega arith)))
      (omega arith))
  where
    go :
        (p a r b : ℕ)
        → a * p + r ≡ i / 2 ^ 8
        → r < p
        → b ≡ i % 2 ^ 8
        → r * 2 ^ 8 + b ≡ i % (p * 256)
    go p a r b e small f =
        let whole : a * (p * 256) + (r * 2 ^ 8 + b) ≡ i = omega arith in
        sym (
          ap (λ t. t % (p * 256)) (sym whole)
          ∙ mul-add-mod_self_right a (p * 256) (r * 2 ^ 8 + b)
          ∙ mod-eq_of_lt (omega arith))

pub gather-int64_octets : (n i : ℕ) → n ≤ 8 → Is64 i → gather 8 0 (int64_octets n i) ≡ i % 256 ^ n
gather-int64_octets zero i h small = omega (arith, pow-zero 256)
gather-int64_octets (suc n) i h small =
    let ih = gather-int64_octets n (shift_right i) (omega arith) (shift_right-Is64 i small) in
    let q = i / 2 ^ 8 % 256 ^ n in
    let below : i / 2 ^ 8 % 256 ^ n ≤ i / 2 ^ 8 = mod-le (i / 2 ^ 8) (256 ^ n) in
    gather-last 8 0 (int64_octets n (shift_right i)) (i % 2 ^ 8)
    ∙ ap (λ r. bit_or (r * 2 ^ 8 % 2 ^ 64) (i % 2 ^ 8)) (ih ∙ shift_right-low n i (omega arith))
    ∙ shifted 8 (i / 2 ^ 8 % 256 ^ n) (i % 2 ^ 8) (omega arith) (omega arith)
    ∙ low_digit n i

-- Shifting a number of 63 bits out takes the least number of rounds that leaves 7 bits.
abbrev pub IsRounds : ℕ → ℕ → Type 0
IsRounds i s = (i < 128 * 256 ^ s) × ((k : ℕ) → i < 128 * 256 ^ k → s ≤ k)

one_more_round : (i s : ℕ) → 128 ≤ i → IsRounds (i / 2 ^ 8) s → IsRounds i (suc s)
one_more_round i s large (fits, least) = (omega (arith, pow-suc 256 s), below)
  where
    below : (k : ℕ) → i < 128 * 256 ^ k → suc s ≤ k
    below zero h = absurd (omega (arith, pow-zero 256))
    below (suc k) h = let le = least k (omega (arith, pow-suc 256 k)) in omega arith

slt64-large : (i : ℕ) → i < 2 ^ 63 → slt64 127 i ≡ true → 128 ≤ i
unfolding slt64
slt64-large i small e = ground arith

slt64-small : (i : ℕ) → i < 2 ^ 63 → slt64 127 i ≡ false → i < 128
unfolding slt64
slt64-small i small e = ground arith

shift_right-positive : (i : ℕ) → i < 2 ^ 63 → shift_right i ≡ i / 2 ^ 8
unfolding shift_right
shift_right-positive i small = ground arith

-- The rounds that a loop over i takes from the count n to a number of 7 bits.
abbrev pub Shifts : ℕ → ℕ → ℕ × ℕ → Type 0
Shifts n i r = (s : ℕ) × (j : ℕ) × (r ≡ (n + s, j)) × (j < 128) × (IsRounds i s)

no_shift : (n i : ℕ) → i < 128 → Shifts n i (n, i)
no_shift n i small =
    let same : n ≡ n + 0 = omega arith in
    (0, i, ap (λ m. (m, i)) same, small, (omega (arith, pow-zero 256), λ k h. omega arith))

one_shift : (n i : ℕ) (r : ℕ × ℕ) → 128 ≤ i → Shifts (suc n) (i / 2 ^ 8) r → Shifts n i r
one_shift n i r large (s, j, p, end, rounds) =
    let same : suc n + s ≡ n + suc s = omega arith in
    (suc s, j, p ∙ ap (λ m. (m, j)) same, end, one_more_round i s large rounds)

pub count_positive-Shifts :
    (fuel n i : ℕ) → i < 128 * 256 ^ fuel → i < 2 ^ 63 → Shifts n i (count_positive fuel n i)
unfolding count_positive
count_positive-Shifts zero n i fits small = no_shift n i (omega (arith, pow-zero 256))
count_positive-Shifts (suc fuel) n i fits small = elim (Bool-cases (slt64 127 i)) [
  | inl e ↦
      let ih =
        count_positive-Shifts fuel (suc n) (i / 2 ^ 8) (omega (arith, pow-suc 256 fuel))
          (omega arith) in
      rw (e, shift_right-positive i small)
        (one_shift n i (count_positive fuel (suc n) (i / 2 ^ 8)) (slt64-large i small e) ih)
  | inr e ↦ rw e (no_shift n i (slt64-small i small e))
]

-- A negative number by its complement c.
abbrev pub negative : ℕ → ℕ
negative c = 2 ^ 64 - 1 - c

slt64-negative_large : (c : ℕ) → c < 2 ^ 63 → slt64 (negative c) (2 ^ 64 - 128) ≡ true → 128 ≤ c
unfolding slt64
slt64-negative_large c small e = ground arith

slt64-negative_small : (c : ℕ) → c < 2 ^ 63 → slt64 (negative c) (2 ^ 64 - 128) ≡ false → c < 128
unfolding slt64
slt64-negative_small c small e = ground arith

shift_right-negative : (c : ℕ) → c < 2 ^ 63 → shift_right (negative c) ≡ negative (c / 2 ^ 8)
unfolding shift_right
shift_right-negative c small = ground arith

abbrev NegativeShifts : ℕ → ℕ → ℕ → Type 0
NegativeShifts n c r = (s : ℕ) × (r ≡ n + s) × (IsRounds c s)

pub count_negative-Shifts :
    (fuel n c : ℕ)
    → c < 128 * 256 ^ fuel
    → c < 2 ^ 63
    → NegativeShifts n c (count_negative fuel n (negative c))
unfolding count_negative
count_negative-Shifts zero n c fits small = (0, omega arith, (fits, λ k h. omega arith))
count_negative-Shifts (suc fuel) n c fits small =
    elim (Bool-cases (slt64 (negative c) (2 ^ 64 - 128))) [
      | inl e ↦
          let ih =
            count_negative-Shifts fuel (suc n) (c / 2 ^ 8) (omega (arith, pow-suc 256 fuel))
              (omega arith) in
          rw (e, shift_right-negative c small)
            (one_more (count_negative fuel (suc n) (negative (c / 2 ^ 8)))
              (slt64-negative_large c small e) ih)
      | inr e ↦
          let end = slt64-negative_small c small e in
          rw e (0, omega arith, (omega (arith, pow-zero 256), λ k h. omega arith))
    ]
  where
    one_more : (r : ℕ) → 128 ≤ c → NegativeShifts (suc n) (c / 2 ^ 8) r → NegativeShifts n c r
    one_more r large (s, p, rounds) = (suc s, omega arith, one_more_round c s large rounds)
