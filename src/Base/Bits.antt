-- ===== src/Base/Bits.antt =====
-- `|` of disjoint fields is a sum and `&` with a mask of low ones is a remainder.
-- The native operations stand for a recursion on binary digits that is bounded by the first number;
-- the lemmas here drop that bound and then go down one digit at a time.
use Prim.Native.Nat.{
  ℕ, zero, suc, ◌+◌, ◌-◌, ◌*◌, ◌/◌, ◌%◌, ◌^◌, ◌≤◌, ◌<◌, min, max, bit_and, bit_or, digits,
  bit_and-bitwise, bit_or-bitwise,
}
use mathlib.Core.Path.{◌≡◌, refl, sym, ap}
use native.Mathlib.Nat.{pow-suc, pow-succ', one-le-pow, div-div-eq-div-mul}
use native.Mathlib.Omega.{arith}

digits_bound :
    (z : ℕ → ℕ) (f : ℕ → ℕ → ℕ) (n m a b : ℕ) → a ≤ n → a ≤ m → digits z f n a b ≡ digits z f m a b
digits_bound z f zero zero zero b p q = refl
digits_bound z f zero zero (suc a) b p q = absurd (omega arith)
digits_bound z f zero (suc m) zero b p q = refl
digits_bound z f zero (suc m) (suc a) b p q = absurd (omega arith)
digits_bound z f (suc n) zero zero b p q = refl
digits_bound z f (suc n) zero (suc a) b p q = absurd (omega arith)
digits_bound z f (suc n) (suc m) zero b p q = refl
digits_bound z f (suc n) (suc m) (suc a) b p q =
    let ih = digits_bound z f n m (suc a / 2) (b / 2) (omega arith) (omega arith) in
    ap (λ t. t * 2 + f (suc a % 2) (b % 2)) ih

or_digit : (a b : ℕ) → bit_or a b ≡ bit_or (a / 2) (b / 2) * 2 + max (a % 2) (b % 2)
or_digit zero b = omega (arith, bit_or-bitwise 0 b, bit_or-bitwise 0 (b / 2))
or_digit (suc a) b = omega (
  arith,
  bit_or-bitwise (suc a) b,
  bit_or-bitwise (suc a / 2) (b / 2),
  digits_bound (λ y. y) max a (suc a / 2) (suc a / 2) (b / 2) (omega arith) (omega arith),
)

and_digit : (a b : ℕ) → bit_and a b ≡ bit_and (a / 2) (b / 2) * 2 + min (a % 2) (b % 2)
and_digit zero b = omega (arith, bit_and-bitwise 0 b, bit_and-bitwise 0 (b / 2))
and_digit (suc a) b = omega (
  arith,
  bit_and-bitwise (suc a) b,
  bit_and-bitwise (suc a / 2) (b / 2),
  digits_bound (λ y. 0) min a (suc a / 2) (suc a / 2) (b / 2) (omega arith) (omega arith),
)

or_zero_bound : (n a : ℕ) → a ≤ n → bit_or a 0 ≡ a
or_zero_bound n zero h = refl
or_zero_bound zero (suc a) h = absurd (omega arith)
or_zero_bound (suc n) (suc a) h =
    omega (arith, or_digit (suc a) 0, or_zero_bound n (suc a / 2) (omega arith))

and_zero_bound : (n a : ℕ) → a ≤ n → bit_and a 0 ≡ 0
and_zero_bound n zero h = refl
and_zero_bound zero (suc a) h = absurd (omega arith)
and_zero_bound (suc n) (suc a) h =
    omega (arith, and_digit (suc a) 0, and_zero_bound n (suc a / 2) (omega arith))

double_power : (q k : ℕ) → q * 2 ^ suc k ≡ q * 2 ^ k * 2
double_power q k = omega (arith, ap (λ (t : ℕ). q * t) (pow-suc 2 k))

or_shifted : (k q b : ℕ) → b < 2 ^ k → bit_or (q * 2 ^ k) b ≡ q * 2 ^ k + b
or_shifted zero q b h = ground (arith, or_zero_bound q q (omega arith))
or_shifted (suc k) q b h =
    ground
      (arith, or_digit (q * 2 ^ suc k) b, double_power q k, or_shifted k q (b / 2) (omega arith))

-- `x | b` where `x` is a multiple of 2 ^ k, and `b` is below it.
pub bit_or_sum : (k q x b : ℕ) → x ≡ q * 2 ^ k → b < 2 ^ k → bit_or x b ≡ x + b
bit_or_sum k q x b e h = ground (arith, or_shifted k q b h)

and_shifted : (k q b : ℕ) → b < 2 ^ k → bit_and (q * 2 ^ k + b) (2 ^ k - 1) ≡ b
and_shifted zero q b h = ground (arith, and_zero_bound (q + b) (q + b))
and_shifted (suc k) q b h = ground (
  arith,
  and_digit (q * 2 ^ suc k + b) (2 ^ suc k - 1),
  double_power q k,
  pow-suc 2 k,
  and_shifted k q (b / 2) (omega arith),
)

-- `a & 0b1...1` with `k` ones.
pub bit_and_mask : (k a : ℕ) → bit_and a (2 ^ k - 1) ≡ a % 2 ^ k
bit_and_mask k a = ground (arith, one-le-pow k 2, and_shifted k (a / 2 ^ k) (a % 2 ^ k))

-- A field of `width` bits at bit `low`, taken out of a word that is the sum of what lies above it,
-- the field and what lies below it.
pub bit_and_field :
    (width low word above field : ℕ)
    → word / 2 ^ low ≡ above * 2 ^ width + field
    → field < 2 ^ width
    → bit_and (word / 2 ^ low) (2 ^ width - 1) ≡ field
bit_and_field width low word above field e h = ground (arith, and_shifted width above field h)

-- One bit of a word.
pub bit_and_power : (k a : ℕ) → bit_and a (2 ^ k) ≡ a / 2 ^ k % 2 * 2 ^ k
bit_and_power zero a = ground (arith, bit_and_mask 1 a)
bit_and_power (suc k) a =
    let half : 2 ^ suc k / 2 ≡ 2 ^ k = omega (arith, pow-suc 2 k) in
    let even : 2 ^ suc k % 2 ≡ 0 = omega (arith, pow-suc 2 k) in
    let quotient : a / 2 ^ suc k ≡ a / 2 / 2 ^ k =
      rw (pow-succ' 2 k) (sym (div-div-eq-div-mul a 2 (2 ^ k))) in
    rw (and_digit a (2 ^ suc k), half, even, quotient, bit_and_power k (a / 2))
      (ground (arith, double_power (a / 2 / 2 ^ k % 2) k))

-- A bit set above a number.
pub bit_or_power : (k b : ℕ) → b < 2 ^ k → bit_or b (2 ^ k) ≡ b + 2 ^ k
bit_or_power zero b h = ground (arith, or_digit b 1, or_digit 0 0)
bit_or_power (suc k) b h = ground (
  arith,
  or_digit b (2 ^ suc k),
  pow-suc 2 k,
  bit_or_power k (b / 2) (omega (arith, pow-suc 2 k)),
)
