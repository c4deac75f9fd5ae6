-- ===== src/Asn/Split.antt =====
-- The loops of `ParseField` of cdr/asn/ber_unmarshal.go that split a value into elements.
use chf.Base.{
  ℕ, zero, suc, ◌+◌, ◌/◌, ◌^◌, ◌<◌, ◌≤◌, ◌≡◌, refl, ap, arith, leb, ltb, ◌==◌, bit_and, Bool, true,
  false, List, [], ◌∷◌, ◌++◌, Option, none, some, length, drop?, take?, get_elem?, if◌then◌else◌,
  ◌>>=◌, not,
}
use chf.Asn.{TagAndLen}
use chf.Asn.Digits.{parse_int64}
use chf.Asn.Tag.{
  Parsed, ok, failed, panics, parsed_length, long_length, read_length, with_length, tag_and_length,
  read_tag_number, parse_tag_and_length,
}
use chf.Asn.Unmarshal.{Elements, split_element, next_element, elements, element}

IsBehind : ℕ → Parsed (ℕ × ℕ) → Type 0
IsBehind k (ok (len, off)) = k < off
IsBehind k failed = Unit
IsBehind k panics = Unit

unfoldable pub TakesBytes : Parsed (TagAndLen × ℕ) → Type 0
TakesBytes (ok (t, off)) = 0 < off
TakesBytes failed = Unit
TakesBytes panics = Unit

parsed_length-IsBehind : (off n : ℕ) (r : Option ℕ) → IsBehind off (parsed_length off n r)
unfolding IsBehind
parsed_length-IsBehind off n none = tt
parsed_length-IsBehind off n (some len) = omega arith

long_length-IsBehind : (off n : ℕ) (r : Option (List ℕ)) → IsBehind off (long_length off n r)
unfolding IsBehind
long_length-IsBehind off n none = tt
long_length-IsBehind off n (some octets) = parsed_length-IsBehind off n (parse_int64 octets)

read_length-IsBehind : (bytes spare : List ℕ) (off : ℕ) → IsBehind off (read_length bytes spare off)
unfolding read_length IsBehind
read_length-IsBehind bytes spare off = octet (get_elem? bytes off)
  where
    wide :
        (n : ℕ) (octets : Option (List ℕ)) (large : Bool)
        → IsBehind off (if large then failed else long_length off n octets)
    wide n octets true = tt
    wide n octets false = long_length-IsBehind off n octets

    short :
        (b : ℕ) (r : Parsed (ℕ × ℕ)) (s : Bool)
        → IsBehind off r
        → IsBehind off (if s then ok (b, off + 1) else r)
    short b r true h = omega arith
    short b r false h = h

    octet :
        (r : Option ℕ)
        → IsBehind off (elim r [
          | none ↦ failed
          | some b ↦
              if leb b 127
              then ok (b, off + 1)
              else let n = bit_and b 0x7f in
                let octets = (drop? (off + 1) (bytes ++ spare) >>= take? n) in
                if ltb 3 n then failed else long_length off n octets
        ])
    octet none = tt
    octet (some b) =
        let n = bit_and b 0x7f in
        short b _ (leb b 127) (wide n (drop? (off + 1) (bytes ++ spare) >>= take? n) (ltb 3 n))

with_length-TakesBytes :
    (class : ℕ) (constructed : Bool) (tag k : ℕ) (r : Parsed (ℕ × ℕ))
    → IsBehind k r
    → TakesBytes (with_length class constructed tag r)
unfolding IsBehind TakesBytes
with_length-TakesBytes class constructed tag k (ok (len, off)) h = omega arith
with_length-TakesBytes class constructed tag k failed h = tt
with_length-TakesBytes class constructed tag k panics h = tt

tag_and_length-TakesBytes :
    (all spare : List ℕ) (b : ℕ) (constructed : Bool) (r : ℕ × ℕ) (long : Bool)
    → TakesBytes (tag_and_length all spare b constructed r long)
unfolding TakesBytes
tag_and_length-TakesBytes all spare b constructed (tag, n) false =
    with_length-TakesBytes (b / 2 ^ 6) constructed (bit_and b 0x1f) 1 (read_length all spare 1)
      (read_length-IsBehind all spare 1)
tag_and_length-TakesBytes all spare b constructed (tag, n) true = limit (ltb 10 (1 + n))
  where
    limit :
        (large : Bool)
        → TakesBytes (
            if large
            then failed
            else with_length (b / 2 ^ 6) constructed tag (read_length all spare (1 + n)))
    limit true = tt
    limit false =
        with_length-TakesBytes (b / 2 ^ 6) constructed tag (1 + n) (read_length all spare (1 + n))
          (read_length-IsBehind all spare (1 + n))

pub parse-TakesBytes : (bytes spare : List ℕ) → TakesBytes (parse_tag_and_length bytes spare)
unfolding parse_tag_and_length TakesBytes
parse-TakesBytes [] spare = tt
parse-TakesBytes (b ∷ bytes) spare =
    tag_and_length-TakesBytes (b ∷ bytes) spare b (not (bit_and b 0x20 == 0))
      (read_tag_number bytes 0) (bit_and b 0x1f == 0x1f)

-- Two continuations that agree on what is shorter than the bytes.
Agree : ℕ → (List ℕ → Elements) → (List ℕ → Elements) → Type 0
Agree n more more' = (rest : List ℕ) → length rest < n → more rest ≡ more' rest

split-Agree :
    (tag : ℕ) (spare bytes taken : List ℕ) (n k : ℕ) (more more' : List ℕ → Elements)
    → 0 < k
    → length bytes ≤ n
    → Agree n more more'
    → split_element tag spare (some taken) (drop? k bytes) more
      ≡ split_element tag spare (some taken) (drop? k bytes) more'
unfolding Agree
split-Agree tag spare bytes taken n zero more more' positive h same = absurd (omega arith)
split-Agree tag spare [] taken n (suc k) more more' positive h same = refl
split-Agree tag spare (b ∷ bytes) taken n (suc zero) more more' positive h same =
    ap (element tag taken (bytes ++ spare)) (same bytes (omega arith))
split-Agree tag spare (b ∷ bytes) taken n (suc (suc k)) more more' positive h same =
    split-Agree tag spare bytes taken n (suc k) more more' (omega arith) (omega arith) same

next_element-Agree :
    (bytes spare : List ℕ) (r : Parsed (TagAndLen × ℕ)) (more more' : List ℕ → Elements)
    → TakesBytes r
    → Agree (length bytes) more more'
    → next_element bytes spare r more ≡ next_element bytes spare r more'
unfolding TakesBytes
next_element-Agree bytes spare (ok (t, off)) more more' positive same =
    taken (take? (off + t.len) bytes)
  where
    taken :
        (r : Option (List ℕ))
        → split_element t.tag_number spare r (drop? (off + t.len) bytes) more
          ≡ split_element t.tag_number spare r (drop? (off + t.len) bytes) more'
    taken none = refl
    taken (some bs) =
        split-Agree t.tag_number spare bytes bs (length bytes) (off + t.len) more more'
          (omega arith) (omega arith) same
next_element-Agree bytes spare failed more more' positive same = refl
next_element-Agree bytes spare panics more more' positive same = refl

-- Any two amounts of fuel that are at least the number of bytes give the same elements: the loops
-- over the elements of a value end within the fuel they have.
pub elements_fuel :
    (f g : ℕ) (bytes spare : List ℕ)
    → length bytes ≤ f
    → length bytes ≤ g
    → elements f bytes spare ≡ elements g bytes spare
unfolding elements Agree
elements_fuel f g [] spare h k = refl
elements_fuel zero g (b ∷ bytes) spare h k = absurd (omega arith)
elements_fuel (suc f) zero (b ∷ bytes) spare h k = absurd (omega arith)
elements_fuel (suc f) (suc g) (b ∷ bytes) spare h k =
    next_element-Agree (b ∷ bytes) spare (parse_tag_and_length (b ∷ bytes) spare)
      (λ rest. elements f rest spare) (λ rest. elements g rest spare)
      (parse-TakesBytes (b ∷ bytes) spare)
      (λ rest small. elements_fuel f g rest spare (omega arith) (omega arith))
