-- ===== src/Asn/Tag.antt =====
-- Tags and lengths (`appendTagAndLen` of cdr/asn/ber_marshal.go, `parseTagAndLength` of
-- cdr/asn/ber_unmarshal.go).
use chf.Base.{
  ℕ, suc, ◌+◌, ◌*◌, ◌/◌, ◌%◌, ◌^◌, bit_or, bit_and, ltb, leb, ◌==◌, not, Bool, true, false, List,
  [], ◌∷◌, ◌++◌, Option, none, some, if◌then◌else◌, drop?, take?, get_elem?, ◌>>=◌,
}
use chf.Asn.{TagAndLen}
use chf.Asn.Digits.{digit_count, digits, parse_int64}

-- All digits but the last one are marked by their high bit.
abbrev pub mark : List ℕ → List ℕ
mark [] = []
mark (d ∷ []) = d ∷ []
mark (d ∷ e ∷ ds) = bit_or d 0x80 ∷ mark (e ∷ ds)

abbrev pub first_octet : TagAndLen → ℕ → ℕ
first_octet t low =
    bit_or (bit_or (t.class * 2 ^ 6 % 2 ^ 8) (if t.constructed then 0x20 else 0)) low

-- A tag number above 30 takes octets of seven bits.
unfoldable pub tag_octets : TagAndLen → List ℕ
tag_octets t =
    if leb t.tag_number 30
    then first_octet t t.tag_number ∷ []
    else first_octet t 31 ∷ mark (digits 128 (digit_count 128 10 t.tag_number) t.tag_number)

-- A length above 127 takes as many octets as it needs, after their number.
unfoldable pub length_octets : ℕ → List ℕ
length_octets len =
    if leb len 127
    then len ∷ []
    else let n = digit_count 256 8 len in bit_or (n % 2 ^ 8) 0x80 ∷ digits 256 n len

unfoldable pub append_tag_and_len : List ℕ → TagAndLen → List ℕ
append_tag_and_len dst t = dst ++ (tag_octets t ++ length_octets t.len)

-- What reading comes to; a slice expression past the capacity panics.
pub data Parsed {ℓ} (A : Type ℓ) : Type ℓ where
  ok : A → Parsed A
  failed : Parsed A
  panics : Parsed A

-- The loop over a long tag number: the number, and how many octets it took.
unfoldable pub read_tag_number : List ℕ → ℕ → ℕ × ℕ
read_tag_number [] tag = (tag, 0)
read_tag_number (b ∷ bytes) tag =
    let tag' = bit_or (tag * 2 ^ 7 % 2 ^ 64) (bit_and b 0x7f) in
    let (last, n) = read_tag_number bytes tag' in
    if bit_and b 0x80 == 0 then (tag', 1) else (last, suc n)

abbrev pub parsed_length : ℕ → ℕ → Option ℕ → Parsed (ℕ × ℕ)
parsed_length off n none = failed
parsed_length off n (some len) = ok (len, off + 1 + n)

abbrev pub long_length : ℕ → ℕ → Option (List ℕ) → Parsed (ℕ × ℕ)
long_length off n none = panics
long_length off n (some octets) = parsed_length off n (parse_int64 octets)

-- The length at an offset, and the offset behind it.
unfoldable pub read_length : List ℕ → List ℕ → ℕ → Parsed (ℕ × ℕ)
read_length bytes spare off = elim (get_elem? bytes off) [
  | none ↦ failed
  | some b ↦
      if leb b 127
      then ok (b, off + 1)
      else let n = bit_and b 0x7f in
        let octets = (drop? (off + 1) (bytes ++ spare) >>= take? n) in
        if ltb 3 n then failed else long_length off n octets
]

abbrev pub with_length : ℕ → Bool → ℕ → Parsed (ℕ × ℕ) → Parsed (TagAndLen × ℕ)
with_length class constructed tag (ok (len, off)) =
    ok (record { class = class; constructed = constructed; tag_number = tag; len = len }, off)
with_length class constructed tag failed = failed
with_length class constructed tag panics = panics

-- `parseTagAndLength` on a slice and the spare capacity behind it: the tag with its length, and the
-- offset of the value.
-- A tag in one octet, or in the octets behind it.
abbrev pub tag_and_length : List ℕ → List ℕ → ℕ → Bool → ℕ × ℕ → Bool → Parsed (TagAndLen × ℕ)
tag_and_length all spare b constructed (tag, n) false =
    with_length (b / 2 ^ 6) constructed (bit_and b 0x1f) (read_length all spare 1)
tag_and_length all spare b constructed (tag, n) true =
    if ltb 10 (1 + n)
    then failed
    else with_length (b / 2 ^ 6) constructed tag (read_length all spare (1 + n))

unfoldable pub parse_tag_and_length : List ℕ → List ℕ → Parsed (TagAndLen × ℕ)
parse_tag_and_length [] spare = panics
parse_tag_and_length (b ∷ bytes) spare =
    tag_and_length (b ∷ bytes) spare b (not (bit_and b 0x20 == 0)) (read_tag_number bytes 0)
      (bit_and b 0x1f == 0x1f)
