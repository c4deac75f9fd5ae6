-- ===== src/Asn/TagRoundTrip.antt =====
-- A tag and a length that were written are read again (`appendTagAndLen` of cdr/asn/ber_marshal.go,
-- `parseTagAndLength` of cdr/asn/ber_unmarshal.go).
use chf.Base.{
  ℕ, suc, ◌+◌, ◌*◌, ◌/◌, ◌%◌, ◌^◌, ◌≤◌, ◌<◌, ◌≡◌, refl, ap, ◌∙◌, arith, ltb, leb, ◌==◌, not, Bool,
  true, false, List, [], ◌∷◌, ◌++◌, append_assoc, length, length-append, inl, inr, Bool-cases,
  bit_or, bit_and, le→ltb, if◌then◌else◌,
}
use chf.Base.Bits.{bit_or_sum, bit_and_mask, bit_and_power}
use chf.Asn.{TagAndLen}
use chf.Asn.Digits.{digit_count, digits}
use chf.Asn.Positional.{digit_count-IsDigitCount, length-digits}
use chf.Asn.Tag.{
  mark, first_octet, tag_octets, length_octets, append_tag_and_len, ok, read_tag_number,
  read_length, parse_tag_and_length,
}
use chf.Asn.TagRead.{length-mark, read-mark-digits, read-length_octets}

first_octet-sum :
    (t : TagAndLen) (low : ℕ)
    → t.class < 4
    → low < 32
    → first_octet t low ≡ t.class * 64 + (if t.constructed then 32 else 0) + low
first_octet-sum t low class small = go t.constructed
  where
    go :
        (c : Bool)
        → bit_or (bit_or (t.class * 2 ^ 6 % 2 ^ 8) (if c then 0x20 else 0)) low
          ≡ t.class * 64 + (if c then 32 else 0) + low
    go true =
        let x = t.class * 2 in
        let inner : bit_or (t.class * 2 ^ 6 % 2 ^ 8) 0x20 ≡ t.class * 64 + 32 = omega (
          arith,
          bit_or_sum 6 t.class (t.class * 2 ^ 6 % 2 ^ 8) 0x20 (omega arith) (omega arith),
        ) in
        rw inner (bit_or_sum 5 (t.class * 2 + 1) (t.class * 64 + 32) low (omega arith) small)
    go false =
        let inner : bit_or (t.class * 2 ^ 6 % 2 ^ 8) 0 ≡ t.class * 64 + 0 =
          omega
            (arith, bit_or_sum 6 t.class (t.class * 2 ^ 6 % 2 ^ 8) 0 (omega arith) (omega arith)) in
        rw inner (bit_or_sum 5 (t.class * 2) (t.class * 64 + 0) low (omega arith) small)

first_octet-class :
    (t : TagAndLen) (low : ℕ) → t.class < 4 → low < 32 → first_octet t low / 2 ^ 6 ≡ t.class
first_octet-class t low class small = ground (arith, first_octet-sum t low class small)

first_octet-low :
    (t : TagAndLen) (low : ℕ) → t.class < 4 → low < 32 → bit_and (first_octet t low) 0x1f ≡ low
first_octet-low t low class small =
    ground (arith, first_octet-sum t low class small, bit_and_mask 5 (first_octet t low))

first_octet-constructed :
    (t : TagAndLen) (low : ℕ)
    → t.class < 4
    → low < 32
    → not (bit_and (first_octet t low) 0x20 == 0) ≡ t.constructed
first_octet-constructed t low class small =
    go t.constructed (first_octet t low) (first_octet-sum t low class small)
  where
    go :
        (c : Bool) (b : ℕ)
        → b ≡ t.class * 64 + (if c then 32 else 0) + low
        → not (bit_and b 0x20 == 0) ≡ c
    go true b e = ground (arith, bit_and_power 5 b)
    go false b e = ground (arith, bit_and_power 5 b)

parse_low :
    (t : TagAndLen) (bytes spare : List ℕ) (off : ℕ)
    → t.class < 4
    → t.tag_number < 31
    → read_length (first_octet t t.tag_number ∷ bytes) spare 1 ≡ ok (t.len, off)
    → parse_tag_and_length (first_octet t t.tag_number ∷ bytes) spare ≡ ok (t, off)
unfolding parse_tag_and_length
parse_low t bytes spare off class small e =
    let low : (t.tag_number == 0x1f) ≡ false = ground arith in
    rw
      (
        first_octet-low t t.tag_number class (omega arith),
        low,
        first_octet-class t t.tag_number class (omega arith),
        first_octet-constructed t t.tag_number class (omega arith),
        e,
        parse_tag_and_length,
      )
      (ap (λ n. ok (record t { tag_number = n }, off))
        (first_octet-low t t.tag_number class (omega arith)))

parse_high :
    (t : TagAndLen) (bytes spare : List ℕ) (n off : ℕ)
    → t.class < 4
    → n ≤ 9
    → read_tag_number bytes 0 ≡ (t.tag_number, n)
    → read_length (first_octet t 31 ∷ bytes) spare (1 + n) ≡ ok (t.len, off)
    → parse_tag_and_length (first_octet t 31 ∷ bytes) spare ≡ ok (t, off)
unfolding parse_tag_and_length
parse_high t bytes spare n off class few tag e =
    let allowed : ltb 10 (1 + n) ≡ false = le→ltb 10 (1 + n) (omega arith) in
    rw
      (
        first_octet-low t 31 class (omega arith),
        tag,
        allowed,
        first_octet-class t 31 class (omega arith),
        first_octet-constructed t 31 class (omega arith),
        e,
        parse_tag_and_length,
      )
      refl

length-append_tag_and_len :
    (t : TagAndLen)
    → length (append_tag_and_len [] t) ≡ length (tag_octets t) + length (length_octets t.len)
unfolding append_tag_and_len
length-append_tag_and_len t = length-append (tag_octets t) (length_octets t.len)

parse_number :
    (t : TagAndLen) (rest spare : List ℕ)
    → t.class < 4
    → t.tag_number < 2 ^ 63
    → t.len < 2 ^ 24
    → parse_tag_and_length (tag_octets t ++ (length_octets t.len ++ rest)) spare
      ≡ ok (t, length (tag_octets t) + length (length_octets t.len))
unfolding tag_octets
parse_number t rest spare class number len = elim (Bool-cases (leb t.tag_number 30)) [
  | inl h ↦ rw h (
      parse_low t (length_octets t.len ++ rest) spare (1 + length (length_octets t.len)) class
        (ground arith)
        (read-length_octets (first_octet t t.tag_number ∷ []) rest spare t.len 1 refl len))
  | inr h ↦
      let ds = digits 128 (digit_count 128 10 t.tag_number) t.tag_number in
      let (one, fits, least) =
        digit_count-IsDigitCount 128 10 t.tag_number (omega arith) (omega arith) in
      let count : length (mark ds) ≡ digit_count 128 10 t.tag_number =
        length-mark ds ∙ length-digits 128 (digit_count 128 10 t.tag_number) t.tag_number in
      let same : 1 + digit_count 128 10 t.tag_number + length (length_octets t.len)
          ≡ suc (length (mark ds)) + length (length_octets t.len) =
        omega arith in
      rw h (
        parse_high t (mark ds ++ (length_octets t.len ++ rest)) spare
          (digit_count 128 10 t.tag_number)
          (1 + digit_count 128 10 t.tag_number + length (length_octets t.len)) class
          (least 9 (omega arith) (omega arith))
          (read-mark-digits (digit_count 128 10 t.tag_number) t.tag_number
            (length_octets t.len ++ rest) one (omega arith) fits)
          (read-length_octets (first_octet t 31 ∷ mark ds) rest spare t.len
            (1 + digit_count 128 10 t.tag_number) (omega arith) len)
        ∙ ap (λ k. ok (t, k)) same)
]

-- A tag of a class below 4 with a number below 2^63 and a length below 2^24, that is written in
-- front of any bytes, is read again, with the offset behind it.
pub parse-append_tag_and_len :
    (t : TagAndLen) (rest spare : List ℕ)
    → t.class < 4
    → t.tag_number < 2 ^ 63
    → t.len < 2 ^ 24
    → parse_tag_and_length (append_tag_and_len [] t ++ rest) spare
      ≡ ok (t, length (append_tag_and_len [] t))
unfolding append_tag_and_len
parse-append_tag_and_len t rest spare class number len =
    rw (append_assoc (tag_octets t) (length_octets t.len) rest, length-append_tag_and_len t)
      (parse_number t rest spare class number len)
