-- ===== src/Asn/TagRead.antt =====
-- Reading a tag and a length that were written (`appendTagAndLen` of cdr/asn/ber_marshal.go,
-- `parseTagAndLength` of cdr/asn/ber_unmarshal.go).
use chf.Base.{
  ℕ, zero, suc, ◌+◌, ◌*◌, ◌/◌, ◌%◌, ◌^◌, ◌≤◌, ◌<◌, ◌≡◌, refl, sym, ap, ◌∙◌, arith, ltb, leb, ◌==◌,
  true, false, List, [], ◌∷◌, ◌++◌, append_assoc, some, length, All, get_elem?-append, drop?,
  drop?-append, take?, take?-append, inl, inr, Bool-cases, bit_or, bit_and, le→ltb, ◌>>=◌,
}
use chf.Base.Bits.{bit_and_mask, bit_and_power, bit_or_power}
use chf.Base.Word.{Is64}
use chf.Asn.Digits.{digit_count, digits, parse_int64}
use chf.Asn.Positional.{
  gather, shift_in-gather, gather-digits, digit_count-IsDigitCount, length-digits,
}
use chf.Asn.Tag.{mark, length_octets, ok, read_tag_number, read_length, parsed_length}

AreSeptets : List ℕ → Type 0
AreSeptets ds = All (λ d. d < 128) ds

septets-append : (xs ys : List ℕ) → AreSeptets xs → AreSeptets ys → AreSeptets (xs ++ ys)
unfolding AreSeptets
septets-append [] ys hx hy = hy
septets-append (x ∷ xs) ys (h, hx) hy = (h, septets-append xs ys hx hy)

digits-AreSeptets : (n x : ℕ) → AreSeptets (digits 128 n x)
unfolding digits AreSeptets
digits-AreSeptets zero x = tt
digits-AreSeptets (suc n) x =
    septets-append (digits 128 n (x / 128)) (x % 128 ∷ []) (digits-AreSeptets n (x / 128))
      (omega arith, tt)

septet_low : (d : ℕ) → d < 128 → bit_and d 0x7f ≡ d
septet_low d h = omega (arith, bit_and_mask 7 d)

septet_last : (d : ℕ) → d < 128 → (bit_and d 0x80 == 0) ≡ true
septet_last d h = ground (arith, bit_and_power 7 d)

marked_low : (d : ℕ) → d < 128 → bit_and (bit_or d 0x80) 0x7f ≡ d
marked_low d h = omega (arith, bit_or_power 7 d h, bit_and_mask 7 (bit_or d 0x80))

marked_more : (d : ℕ) → d < 128 → (bit_and (bit_or d 0x80) 0x80 == 0) ≡ false
marked_more d h = ground (arith, bit_or_power 7 d h, bit_and_power 7 (bit_or d 0x80))

read-mark :
    (d : ℕ) (ds rest : List ℕ) (r : ℕ)
    → AreSeptets (d ∷ ds)
    → read_tag_number (mark (d ∷ ds) ++ rest) r ≡ (gather 7 r (d ∷ ds), length (d ∷ ds))
unfolding read_tag_number AreSeptets
read-mark d [] rest r (h, hs) = rw (septet_last d h, septet_low d h) refl
read-mark d (e ∷ ds) rest r (h, hs) =
    rw (marked_more d h, marked_low d h)
      (ap (λ p. (p.0, suc (p.1))) (read-mark e ds rest (bit_or (r * 2 ^ 7 % 2 ^ 64) d) hs))

pub length-mark : (ds : List ℕ) → length (mark ds) ≡ length ds
length-mark [] = refl
length-mark (d ∷ []) = refl
length-mark (d ∷ e ∷ ds) = omega (arith, length-mark (e ∷ ds))

pub read-mark-digits :
    (n x : ℕ) (rest : List ℕ)
    → 1 ≤ n
    → Is64 x
    → x < 128 ^ n
    → read_tag_number (mark (digits 128 n x) ++ rest) 0 ≡ (x, n)
read-mark-digits n x rest one small fits = go (digits 128 n x) refl
  where
    go : (ds : List ℕ) → digits 128 n x ≡ ds → read_tag_number (mark ds ++ rest) 0 ≡ (x, n)
    go [] e =
        absurd
          (let p : length (digits 128 n x) ≡ 0 = rw e refl in omega (arith, length-digits 128 n x))
    go (d ∷ ds) e =
        let septets : AreSeptets (d ∷ ds) = rw (← e) (digits-AreSeptets n x) in
        let value : gather 7 0 (d ∷ ds) ≡ x =
          ap (gather 7 0) (sym e) ∙ gather-digits 7 n x (omega arith) small fits in
        let count : length (d ∷ ds) ≡ n = ap length (sym e) ∙ length-digits 128 n x in
        read-mark d ds rest 0 septets
        ∙ ap (λ a. (a, length (d ∷ ds))) value
        ∙ ap (λ b. (x, b)) count

value_octets :
    (pre ds rest spare : List ℕ) (b off n : ℕ)
    → off ≡ length pre
    → length ds ≡ n
    → (drop? (off + 1) ((pre ++ (b ∷ ds ++ rest)) ++ spare) >>= take? n) ≡ some ds
value_octets pre ds rest spare b off n e f =
    rw
      (
        append_assoc pre (b ∷ ds ++ rest) spare,
        append_assoc ds rest spare,
        drop?-append pre (b ∷ ds ++ (rest ++ spare)) (off + 1) 1 (omega arith),
        take?-append ds (rest ++ spare) n (omega arith),
      )
      refl

read_short :
    (pre rest spare : List ℕ) (len off : ℕ)
    → off ≡ length pre
    → leb len 127 ≡ true
    → read_length (pre ++ (len ∷ rest)) spare off ≡ ok (len, off + 1)
unfolding read_length
read_short pre rest spare len off e h =
    rw (get_elem?-append pre (len ∷ rest) off 0 (omega arith), h, read_length) refl

read_long :
    (pre ds rest spare : List ℕ) (off n len : ℕ)
    → off ≡ length pre
    → length ds ≡ n
    → n ≤ 3
    → parse_int64 ds ≡ some len
    → read_length (pre ++ (bit_or (n % 2 ^ 8) 0x80 ∷ ds ++ rest)) spare off ≡ ok (len, off + 1 + n)
unfolding read_length
read_long pre ds rest spare off n len e f few value =
    let b = bit_or (n % 2 ^ 8) 0x80 in
    let sum : bit_or (n % 2 ^ 8) 0x80 ≡ n + 0x80 =
      omega (arith, bit_or_power 7 (n % 2 ^ 8) (omega arith)) in
    let long : leb (n + 0x80) 127 ≡ false = ground arith in
    let count : bit_and (n + 0x80) 0x7f ≡ n = omega (arith, bit_and_mask 7 (n + 0x80)) in
    let allowed : ltb 3 n ≡ false = le→ltb 3 n few in
    rw
      (
        sum,
        get_elem?-append pre ((n + 0x80) ∷ ds ++ rest) off 0 (omega arith),
        long,
        count,
        allowed,
        value_octets pre ds rest spare (bit_or (n % 2 ^ 8) 0x80) off n e f,
        read_length,
      )
      (ap (parsed_length off n) value)

parse-digits : (n x : ℕ) → n ≤ 8 → Is64 x → x < 256 ^ n → parse_int64 (digits 256 n x) ≡ some x
unfolding parse_int64
parse-digits n x few small fits =
    let short : ltb 8 (length (digits 256 n x)) ≡ false =
      rw (length-digits 256 n x) (le→ltb 8 n few) in
    rw short
      (ap some (shift_in-gather 0 (digits 256 n x) ∙ gather-digits 8 n x (omega arith) small fits))

-- Reading the octets of a length.
pub read-length_octets :
    (pre rest spare : List ℕ) (len off : ℕ)
    → off ≡ length pre
    → len < 2 ^ 24
    → read_length (pre ++ (length_octets len ++ rest)) spare off
      ≡ ok (len, off + length (length_octets len))
unfolding length_octets
read-length_octets pre rest spare len off e small = elim (Bool-cases (leb len 127)) [
  | inl h ↦ rw h (read_short pre rest spare len off e h)
  | inr h ↦
      let n = digit_count 256 8 len in
      let (one, fits, least) = digit_count-IsDigitCount 256 8 len (omega arith) (omega arith) in
      let few = least 3 (omega arith) (omega arith) in
      let count = length-digits 256 (digit_count 256 8 len) len in
      let behind : off + 1 + digit_count 256 8 len
          ≡ off + suc (length (digits 256 (digit_count 256 8 len) len)) =
        omega arith in
      rw h (
        read_long pre (digits 256 (digit_count 256 8 len) len) rest spare off
          (digit_count 256 8 len) len e count few
          (parse-digits (digit_count 256 8 len) len (omega arith) (omega arith) fits)
        ∙ ap (λ k. ok (len, k)) behind)
]
