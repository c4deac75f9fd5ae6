-- ===== src/Base/Decimal.antt =====
-- Texts are lists of bytes. Go's `strconv.FormatInt(i, 10)` and `strconv.ParseInt(s, 10, 64)`, which
-- on a 64-bit machine is also `strconv.Atoi`, over two's complement patterns.
use Prim.Native.Nat.{ℕ, zero, suc, ◌+◌, ◌-◌, ◌*◌, ◌/◌, ◌%◌, ◌^◌, ◌<◌}
use mathlib.Core.Path.{◌≡◌, refl, ap, ◌∙◌}
use mathlib.Core.Logic.{inl, inr}
use mathlib.Core.Bool.{Bool, true, false}
use mathlib.Core.Option.{Option, none, some}
use mathlib.Core.List.{List, [], ◌∷◌, ◌++◌}
use native.Mathlib.Nat.{pow-suc}
use native.Mathlib.Omega.{arith}
use chf.Base.Tests.{ltb, leb, ◌==◌, if◌then◌else◌, ◌>>=◌, Bool-cases}
use chf.Base.Word.{Is64}

abbrev pub Text : Type 0
Text = List ℕ

unfoldable pub format_digits : ℕ → ℕ → Text
format_digits zero n = (b'0' + n % 10) ∷ []
format_digits (suc fuel) n =
    let more = format_digits fuel (n / 10) in
    if ltb n 10 then (b'0' + n) ∷ [] else more ++ ((b'0' + n % 10) ∷ [])

-- A 64-bit magnitude has at most twenty digits.
unfoldable pub format_int : ℕ → Text
format_int w = if ltb w (2 ^ 63) then format_digits 20 w else b'-' ∷ format_digits 20 (2 ^ 64 - w)

abbrev is_digit : ℕ → Bool
is_digit c = if leb b'0' c then leb c b'9' else false

unfoldable pub scan : Text → ℕ → Option ℕ
scan [] acc = some acc
scan (c ∷ s) acc = let rest = scan s (acc * 10 + (c - b'0')) in if is_digit c then rest else none

abbrev pub digits_value : Text → Option ℕ
digits_value [] = none
digits_value (c ∷ s) = scan (c ∷ s) 0

abbrev in_range : Bool → ℕ → Option ℕ
in_range false n = if ltb n (2 ^ 63) then some n else none
in_range true n = if leb n (2 ^ 63) then some ((2 ^ 64 - n) % 2 ^ 64) else none

unfoldable pub parse_int : Text → Option ℕ
parse_int [] = none
parse_int (c ∷ s) =
    if c == b'-'
    then (digits_value s >>= in_range true)
    else if c == b'+'
    then (digits_value s >>= in_range false)
    else (digits_value (c ∷ s) >>= in_range false)

scan-append : (s t : Text) (acc : ℕ) → scan (s ++ t) acc ≡ (scan s acc >>= scan t)
unfolding scan
scan-append [] t acc = refl
scan-append (c ∷ s) t acc = elim (Bool-cases (is_digit c)) [
  | inl e ↦ rw e (scan-append s t (acc * 10 + (c - b'0')))
  | inr e ↦ rw e
]

scan_digit : (d acc : ℕ) → d < 10 → scan ((b'0' + d) ∷ []) acc ≡ some (acc * 10 + d)
unfolding scan
scan_digit d acc h = ground arith

scan-format : (fuel n : ℕ) → n < 10 ^ suc fuel → scan (format_digits fuel n) 0 ≡ some n
unfolding format_digits
scan-format zero n h = scan_digit (n % 10) 0 (omega arith) ∙ ap some (omega arith)
scan-format (suc fuel) n h =
    let shorter = scan-format fuel (n / 10) (omega (arith, pow-suc 10 (suc fuel))) in
    elim (Bool-cases (ltb n 10)) [
      | inl e ↦ rw e (scan_digit n 0 (ground arith) ∙ ap some (omega arith))
      | inr e ↦
          rw (e, scan-append, shorter)
            (scan_digit (n % 10) (n / 10) (omega arith) ∙ ap some (omega arith))
    ]

format_digits_cons : (fuel n : ℕ) → (c : ℕ) × (s : Text) × (format_digits fuel n ≡ c ∷ s)
unfolding format_digits
format_digits_cons zero n = (b'0' + n % 10, [], refl)
format_digits_cons (suc fuel) n = elim (Bool-cases (ltb n 10)) [
  | inl e ↦ (b'0' + n, [], rw e)
  | inr e ↦
      let (c, s, q) = format_digits_cons fuel (n / 10) in
      (c, s ++ ((b'0' + n % 10) ∷ []), rw (e, q))
]

digits_value-format : (n : ℕ) → n < 10 ^ 21 → digits_value (format_digits 20 n) ≡ some n
digits_value-format n h =
    let (c, s, q) = format_digits_cons 20 n in rw q (rw (← q) (scan-format 20 n h))

digits_head : (c n : ℕ) (s : Text) → scan (c ∷ s) 0 ≡ some n → is_digit c ≡ true
unfolding scan
digits_head c n s h = ground arith

parse_unsigned : (s : Text) (n : ℕ) → digits_value s ≡ some n → parse_int s ≡ in_range false n
unfolding parse_int
parse_unsigned [] n h = cc
parse_unsigned (c ∷ s) n h = ground (arith, digits_head c n s h)

positive_text : (w : ℕ) → ltb w (2 ^ 63) ≡ true → format_int w ≡ format_digits 20 w
unfolding format_int
positive_text w e = rw e

negative_text :
    (w : ℕ) → ltb w (2 ^ 63) ≡ false → format_int w ≡ b'-' ∷ format_digits 20 (2 ^ 64 - w)
unfolding format_int
negative_text w e = rw e

negative_value :
    (w : ℕ)
    → Is64 w
    → ltb w (2 ^ 63) ≡ false
    → parse_int (b'-' ∷ format_digits 20 (2 ^ 64 - w)) ≡ some w
unfolding parse_int
negative_value w h e = rw (digits_value-format (2 ^ 64 - w) (omega arith)) (ground arith)

-- A printed int64 is read back.
pub parse-format_int : (w : ℕ) → Is64 w → parse_int (format_int w) ≡ some w
parse-format_int w h = elim (Bool-cases (ltb w (2 ^ 63))) [
  | inl e ↦
      rw
        (
          positive_text w e,
          parse_unsigned (format_digits 20 w) w (digits_value-format w (omega arith)),
        )
        (ground arith)
  | inr e ↦ rw (negative_text w e) (negative_value w h e)
]

bind-in_range : (b : Bool) (o : Option ℕ) (w : ℕ) → (o >>= in_range b) ≡ some w → Is64 w
bind-in_range b none w h = cc
bind-in_range true (some n) w h = ground arith
bind-in_range false (some n) w h = ground arith

-- What is read is a 64-bit pattern.
pub parse_int-Is64 : (s : Text) (w : ℕ) → parse_int s ≡ some w → Is64 w
unfolding parse_int
parse_int-Is64 [] w h = cc
parse_int-Is64 (c ∷ s) w h = elim (Bool-cases (c == b'-')) [
  | inl e ↦ bind-in_range true (digits_value s) w (rw e at h)
  | inr e ↦ elim (Bool-cases (c == b'+')) [
    | inl e' ↦ bind-in_range false (digits_value s) w (rw (e, e') at h)
    | inr e' ↦ bind-in_range false (digits_value (c ∷ s)) w (rw (e, e') at h)
  ]
]
