-- ===== src/Record/Digits.antt =====
-- Digits of two to an octet in a record: the PLMN and the time stamps (cdr/cdrConvert/sbiToCdr.go).
use chf.Base.{
  ℕ, ◌+◌, ◌-◌, ◌*◌, ◌/◌, ◌%◌, ◌^◌, ◌<◌, ◌≡◌, refl, ap, ◌∙◌, arith, Bool, true, false, List, [], ◌∷◌,
  Option, none, some, ◌==◌, if◌then◌else◌, get_elem?,
}
use chf.Base.Bits.{bit_or_sum}
use chf.Base.Decimal.{Text}
use chf.Models.{PlmnId}
use chf.Record.Convert.{
  LocalTime, nibbles, time_stamp_to_cdr, hex_digit, decode_string, plmn_hex, plmn_id_to_cdr,
}

-- The octets of a PLMN read as TS 24.008 has them: the digits of the country, and those of the
-- network, two of them where the third one is the filler 15.
abbrev pub plmn_digits : List ℕ → List ℕ × List ℕ
plmn_digits (x ∷ y ∷ z ∷ []) =
    (x % 16 ∷ x / 16 ∷ y % 16 ∷ [], z % 16 ∷ z / 16 ∷ (if y / 16 == 15 then [] else y / 16 ∷ []))
plmn_digits _ = ([], [])

abbrev pub text_of : List ℕ → Text
text_of [] = []
text_of (d ∷ ds) = (b'0' + d) ∷ text_of ds

-- Two digits, or three.
abbrev pub network : ℕ → ℕ → Option ℕ → List ℕ
network d e none = d ∷ e ∷ []
network d e (some f) = d ∷ e ∷ f ∷ []

abbrev pub ThirdFits : Option ℕ → Type 0
ThirdFits none = Unit
ThirdFits (some f) = f < 10

hex_digit_decimal : (d : ℕ) → d < 10 → hex_digit (b'0' + d) ≡ some d
unfolding hex_digit
hex_digit_decimal d h = ground arith

hex_digit_filler : hex_digit b'f' ≡ some 15
unfolding hex_digit
hex_digit_filler = refl

-- The digits of an octet.
low_digit : (h l : ℕ) → l < 16 → (h * 16 + l) % 16 ≡ l
low_digit h l b = omega arith

high_digit : (h l : ℕ) → l < 16 → (h * 16 + l) / 16 ≡ h
high_digit h l b = omega arith

module _ (is_valid : Text → Text → Bool) (a b c d e : ℕ) (third : Option ℕ) where
  abbrev pub plmn : PlmnId
  plmn = record { mcc = text_of (a ∷ b ∷ c ∷ []); mnc = text_of (network d e third) }

-- A PLMN of decimal digits that is valid is converted, without an error or a panic, to three
-- octets from which its digits can be read back, whether the network has two digits or three.
pub plmn_id_to_cdr-Reads :
    (is_valid : Text → Text → Bool) (a b c d e : ℕ) (third : Option ℕ)
    → a < 10
    → b < 10
    → c < 10
    → d < 10
    → e < 10
    → ThirdFits third
    → is_valid (text_of (a ∷ b ∷ c ∷ [])) (text_of (network d e third)) ≡ true
    → (octets : List ℕ) × (plmn_id_to_cdr is_valid (plmn is_valid a b c d e third)
        ≡ some (some octets))
      × (plmn_digits octets ≡ (a ∷ b ∷ c ∷ [], network d e third))
unfolding plmn_id_to_cdr plmn_hex decode_string
plmn_id_to_cdr-Reads is_valid a b c d e none ha hb hc hd he hf v = (
  (b * 16 + a) ∷ (15 * 16 + c) ∷ (e * 16 + d) ∷ [],
  rw
      (
        v,
        hex_digit_decimal a ha,
        hex_digit_decimal b hb,
        hex_digit_decimal c hc,
        hex_digit_decimal d hd,
        hex_digit_decimal e he,
        hex_digit_filler,
      )
      refl,
  rw
      (
        low_digit b a (omega (arith, ha)),
        high_digit b a (omega (arith, ha)),
        low_digit 15 c (omega (arith, hc)),
        high_digit 15 c (omega (arith, hc)),
        low_digit e d (omega (arith, hd)),
        high_digit e d (omega (arith, hd)),
      )
      refl,
)
plmn_id_to_cdr-Reads is_valid a b c d e (some f) ha hb hc hd he hf v = (
  (b * 16 + a) ∷ (f * 16 + c) ∷ (e * 16 + d) ∷ [],
  rw
      (
        v,
        hex_digit_decimal a ha,
        hex_digit_decimal b hb,
        hex_digit_decimal c hc,
        hex_digit_decimal d hd,
        hex_digit_decimal e he,
        hex_digit_decimal f hf,
      )
      refl,
  rw
      (
        low_digit b a (omega (arith, ha)),
        high_digit b a (omega (arith, ha)),
        low_digit f c (omega (arith, hc)),
        high_digit f c (omega (arith, hc)),
        low_digit e d (omega (arith, hd)),
        high_digit e d (omega (arith, hd)),
        (let p : (f == 15) ≡ false = ground (arith, hf) in p),
      )
      refl,
)

-- The values of a time stamp's octets, the sign of its zone as it is.
abbrev pub bcd : ℕ → ℕ
bcd x = x / 16 * 10 + x % 16

abbrev pub stamp_values : List ℕ → List ℕ
stamp_values (y ∷ mo ∷ d ∷ h ∷ mi ∷ s ∷ sign ∷ zh ∷ zm ∷ []) =
    bcd y ∷ bcd mo ∷ bcd d ∷ bcd h ∷ bcd mi ∷ bcd s ∷ sign ∷ bcd zh ∷ bcd zm ∷ []
stamp_values _ = []

nibbles_sum : (h l : ℕ) → h < 16 → l < 16 → nibbles h l ≡ h * 16 + l
unfolding nibbles
nibbles_sum h l hh hl =
    bit_or_sum 4 h _ _ (omega (arith, hh)) (omega (arith, hl)) ∙ (omega (arith, hh, hl))

bcd-nibbles : (n : ℕ) → n < 100 → bcd (nibbles (n / 10) (n % 10)) ≡ n
bcd-nibbles n h =
    let e = nibbles_sum (n / 10) (n % 10) (omega (arith, h)) (omega arith) in
    rw e (omega (arith, h))

-- The ranges of a point in time.
pub record IsTime (t : LocalTime) : Type 0 where
  pub month : t.month < 100
  pub day : t.day < 100
  pub hour : t.hour < 100
  pub minute : t.minute < 100
  pub second : t.second < 100

-- For a time whose fields have two digits, in a zone of fewer than 100 whole hours that is not
-- behind UTC, the octets of a time stamp are the two-digit values of the year in its century, the
-- month, the day, the hour, the minute and the second, then a plus, and the hours and no minutes
-- of the zone.
pub time_stamp_to_cdr-Reads :
    (t : LocalTime) (hours : ℕ)
    → IsTime t
    → t.behind ≡ false
    → t.zone ≡ hours * 3600
    → hours < 100
    → stamp_values (time_stamp_to_cdr t)
      ≡ t.year % 100 ∷ t.month ∷ t.day ∷ t.hour ∷ t.minute ∷ t.second ∷ b'+' ∷ hours ∷ 0 ∷ []
unfolding time_stamp_to_cdr
time_stamp_to_cdr-Reads t hours w behind zone small =
    let year : t.year % 10 ≡ t.year % 100 % 10 = omega arith in
    let z : hours * 3600 / 3600 ≡ hours = omega arith in
    let z0 : hours * 3600 % 3600 ≡ 0 = omega arith in
    let z1 : hours / 10 % 2 ^ 8 ≡ hours / 10 = omega (arith, small) in
    let z2 : hours % 10 % 2 ^ 8 ≡ hours % 10 = omega arith in
    rw
      (
        behind,
        zone,
        z,
        z0,
        z1,
        z2,
        year,
        bcd-nibbles (t.year % 100) (omega arith),
        bcd-nibbles t.month w.month,
        bcd-nibbles t.day w.day,
        bcd-nibbles t.hour w.hour,
        bcd-nibbles t.minute w.minute,
        bcd-nibbles t.second w.second,
        bcd-nibbles hours small,
      )
      (unfold nibbles in refl)

-- In a zone of 1 to 9 whole hours behind UTC, the octet of its hours in a time stamp is 256 less
-- the hours, and no pair of decimal digits.
pub time_stamp_to_cdr-behind :
    (t : LocalTime) (hours : ℕ)
    → t.behind ≡ true
    → t.zone ≡ hours * 3600
    → 0 < hours
    → hours < 10
    → (get_elem? (time_stamp_to_cdr t) 7 ≡ some (256 - hours)) × (9 < (256 - hours) / 16)
unfolding time_stamp_to_cdr nibbles
time_stamp_to_cdr-behind t hours behind zone positive small =
    let z : hours * 3600 / 3600 ≡ hours = omega arith in
    let z1 : hours / 10 ≡ 0 = omega (arith, small) in
    let z2 : (2 ^ 8 - hours % 10 % 2 ^ 8) % 2 ^ 8 % 2 ^ 8 ≡ 256 - hours =
      omega (arith, positive, small) in
    (
      rw (behind, zone, z, z1, z2)
          (ap some (bit_or_sum 8 0 0 (256 - hours) refl (omega (arith, positive)) ∙ (omega arith))),
      omega (arith, positive, small),
    )
