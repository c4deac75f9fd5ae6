-- ===== src/Asn/Positional.antt =====
-- How many octets or septets a number takes, and that they give it back (the loops of
-- cdr/asn/ber_marshal.go and cdr/asn/ber_unmarshal.go).
use native.Mathlib.Nat.{
  pow-zero, pow-suc, div-le_self, div-lt_iff_lt-mul, div-add-mod', mod-lt, mod-eq_of_lt,
}
use chf.Base.{
  ℕ, zero, suc, ◌+◌, ◌*◌, ◌/◌, ◌%◌, ◌^◌, ◌≤◌, ◌<◌, ◌≡◌, refl, ap, ◌∙◌, arith, bit_or, ltb, false,
  List, [], ◌∷◌, ◌++◌, length, length-append, inl, inr, Bool-cases, ltb→lt,
}
use chf.Base.Bits.{bit_or_sum}
use chf.Base.Word.{Is64}
use chf.Asn.Digits.{digit_count, digits, shift_in}

-- The accumulator of a loop that shifts digits of k bits into 64 bits.
abbrev pub gather : ℕ → ℕ → List ℕ → ℕ
gather k r [] = r
gather k r (b ∷ bytes) = gather k (bit_or (r * 2 ^ k % 2 ^ 64) b) bytes

pub shift_in-gather : (r : ℕ) (bytes : List ℕ) → shift_in r bytes ≡ gather 8 r bytes
shift_in-gather r [] = refl
shift_in-gather r (b ∷ bytes) = shift_in-gather (bit_or (r * 2 ^ 8 % 2 ^ 64) b) bytes

pub gather-last :
    (k r : ℕ) (bytes : List ℕ) (b : ℕ)
    → gather k r (bytes ++ (b ∷ [])) ≡ bit_or (gather k r bytes * 2 ^ k % 2 ^ 64) b
gather-last k r [] b = refl
gather-last k r (c ∷ bytes) b = gather-last k (bit_or (r * 2 ^ k % 2 ^ 64) c) bytes b

-- A digit below its place, where nothing is shifted out of 64 bits.
pub shifted :
    (k q b : ℕ) → b < 2 ^ k → q * 2 ^ k + b < 2 ^ 64 → bit_or (q * 2 ^ k % 2 ^ 64) b ≡ q * 2 ^ k + b
shifted k q b small fits =
    let whole : q * 2 ^ k % 2 ^ 64 ≡ q * 2 ^ k = mod-eq_of_lt (omega arith) in
    rw whole (bit_or_sum k q (q * 2 ^ k) b refl small)

pub length-digits : (base n x : ℕ) → length (digits base n x) ≡ n
unfolding digits
length-digits base zero x = refl
length-digits base (suc n) x = omega (
  arith,
  length-append (digits base n (x / base)) (x % base ∷ []),
  length-digits base n (x / base),
)

quotient_fits : (base n x : ℕ) → 0 < base → x < base ^ suc n → x / base < base ^ n
quotient_fits base n x positive fits =
    (div-lt_iff_lt-mul {k = base} {x = x} {y = base ^ n} positive).1 (rw (← pow-suc base n) fits)

product_fits : (base n x : ℕ) → 0 < base → x / base < base ^ n → x < base ^ suc n
product_fits base n x positive fits =
    rw (pow-suc base n) ((div-lt_iff_lt-mul {k = base} {x = x} {y = base ^ n} positive).0 fits)

-- The digits of a number of 64 bits give it back.
pub gather-digits :
    (k n x : ℕ) → 0 < 2 ^ k → Is64 x → x < (2 ^ k) ^ n → gather k 0 (digits (2 ^ k) n x) ≡ x
unfolding digits
gather-digits k zero x positive small fits = omega (arith, pow-zero (2 ^ k))
gather-digits k (suc n) x positive small fits =
    let whole : x / 2 ^ k * 2 ^ k + x % 2 ^ k ≡ x = div-add-mod' x (2 ^ k) in
    let rest = quotient_fits (2 ^ k) n x positive fits in
    let ih = gather-digits k n (x / 2 ^ k) positive (omega (arith, div-le_self x (2 ^ k))) rest in
    gather-last k 0 (digits (2 ^ k) n (x / 2 ^ k)) (x % 2 ^ k)
    ∙ ap (λ r. bit_or (r * 2 ^ k % 2 ^ 64) (x % 2 ^ k)) ih
    ∙ shifted k (x / 2 ^ k) (x % 2 ^ k) (mod-lt x positive) (rw whole small)
    ∙ whole

pow_one : (base : ℕ) → base ^ 1 ≡ base
pow_one base =
    pow-suc base 0
    ∙ ap (λ t. t * base) (pow-zero base)
    ∙ (let p : 1 * base ≡ base = omega arith in p)

ltb→le : (a b : ℕ) → ltb a b ≡ false → b ≤ a
ltb→le a b h = ground arith

-- The least number of digits, and at least one.
abbrev pub IsDigitCount : ℕ → ℕ → ℕ → Type 0
IsDigitCount base x n = (1 ≤ n) × (x < base ^ n) × ((m : ℕ) → 1 ≤ m → x < base ^ m → n ≤ m)

longer_number :
    (base x n : ℕ)
    → 0 < base
    → base ≤ x
    → IsDigitCount base (x / base) n
    → IsDigitCount base x (suc n)
longer_number base x n positive large (one, fits, least) =
    (omega arith, product_fits base n x positive fits, below)
  where
    below : (m : ℕ) → 1 ≤ m → x < base ^ m → suc n ≤ m
    below zero h e = absurd (omega arith)
    below (suc zero) h e = omega (arith, pow_one base)
    below (suc (suc m)) h e =
        let le = least (suc m) (omega arith) (quotient_fits base (suc m) x positive e) in
        omega arith

-- The loop that counts digits of a base above 0 ends within its fuel on a number below the power
-- of the base that is one above the fuel, with the least number of digits that holds the number,
-- and at least one.
pub digit_count-IsDigitCount :
    (base fuel x : ℕ)
    → 0 < base
    → x < base ^ suc fuel
    → IsDigitCount base x (digit_count base fuel x)
unfolding digit_count
digit_count-IsDigitCount base zero x positive fits = (omega arith, fits, λ m h e. h)
digit_count-IsDigitCount base (suc fuel) x positive fits = elim (Bool-cases (ltb x base)) [
  | inl e ↦ rw e (omega arith, omega (arith, pow_one base, ltb→lt x base e), λ m h f. h)
  | inr e ↦
      let ih =
        digit_count-IsDigitCount base fuel (x / base) positive
          (quotient_fits base (suc fuel) x positive fits) in
      rw e (longer_number base x (digit_count base fuel (x / base)) positive (ltb→le x base e) ih)
]
