-- ===== src/Asn/Sequence.antt =====
-- The loops of `ParseField` of cdr/asn/ber_unmarshal.go on elements that were encoded.
use mathlib.Core.Path.{subst}
use chf.Base.{
  ℕ, ◌+◌, ◌≡◌, ◌≢◌, refl, sym, ap, ◌∙◌, arith, ◌==◌, ==_iff, Bool-cases, inl, inr, false, List, [],
  ◌∷◌, ◌++◌, length, length-append, take?-append, drop?-append, Option, none, some, Option-cases,
}
use chf.Asn.{sequence, TagAndLen, FieldParameters, Fields, field}
use chf.Asn.Tag.{Parsed, ok, failed, panics, parse_tag_and_length}
use chf.Asn.Framing.{IsElement, IsNumber}
use chf.Asn.Unmarshal.{
  GoType, FieldTypes, no_types, field_type, zero_value, zero_fields, and_then, parsed_map, Elements,
  no_elements, stop, crash, element, struct_type, value_of, next_element, elements, parse_field,
  parse_sequence,
}
use chf.Asn.Split.{TakesBytes, parse-TakesBytes, elements_fuel}

-- The elements of bytes that begin with one.
abbrev IsFirst : Option ℕ → List ℕ → List ℕ → List ℕ → Elements → Type 0
IsFirst o bytes rest spare els =
    (tag : ℕ) × IsNumber o tag
    × (els ≡ element tag bytes (rest ++ spare) (elements (length rest) rest spare))

next_element_lem :
    (o : Option ℕ) (bytes rest spare : List ℕ) (t : TagAndLen) (off : ℕ) (more : List ℕ → Elements)
    → off + t.len ≡ length bytes
    → next_element (bytes ++ rest) spare (ok (t, off)) more
      ≡ element t.tag_number bytes (rest ++ spare) (more rest)
next_element_lem o bytes rest spare t off more e =
    rw
      (
        take?-append bytes rest (off + t.len) e,
        drop?-append bytes rest (off + t.len) 0 (omega arith),
      )
      refl

elements_cons :
    (params : FieldParameters) (bytes rest spare : List ℕ) (r : Parsed (TagAndLen × ℕ))
    → parse_tag_and_length (bytes ++ rest) spare ≡ r
    → TakesBytes r
    → IsElement params bytes r
    → IsFirst params.tag_number bytes rest spare
        (elements (length (bytes ++ rest)) (bytes ++ rest) spare)
unfolding elements TakesBytes
elements_cons params [] rest spare (ok (t, off)) e takes (size, number) = absurd (omega arith)
elements_cons params (b ∷ bytes) rest spare (ok (t, off)) e takes (size, number) = (
  t.tag_number,
  number,
  rw e (
      next_element_lem params.tag_number (b ∷ bytes) rest spare t off
        (λ more. elements (length (bytes ++ rest)) more spare) size
      ∙ ap (element t.tag_number (b ∷ bytes) (rest ++ spare)) (
          elements_fuel (length (bytes ++ rest)) (length rest) rest spare
            (omega (arith, length-append bytes rest)) (omega arith))),
)
elements_cons params bytes rest spare failed e takes h = absurd h
elements_cons params bytes rest spare panics e takes h = absurd h

pub elements-append :
    (params : FieldParameters) (bytes rest spare : List ℕ)
    → IsElement params bytes (parse_tag_and_length (bytes ++ rest) spare)
    → IsFirst params.tag_number bytes rest spare
        (elements (length (bytes ++ rest)) (bytes ++ rest) spare)
elements-append params bytes rest spare h =
    elements_cons params bytes rest spare (parse_tag_and_length (bytes ++ rest) spare) refl
      (parse-TakesBytes (bytes ++ rest) spare) h

-- The next field has the tag number of the element.
pub parse_sequence-hit :
    (p : FieldParameters) (t : GoType) (ts : FieldTypes) (n : ℕ) (bytes spare : List ℕ)
    (els : Elements)
    → p.tag_number ≡ some n
    → parse_sequence false (field_type p t ts) (element n bytes spare els)
      ≡ and_then
          (parse_field t p bytes spare)
          (λ v. parsed_map (field p v) (parse_sequence false ts els))
unfolding parse_field
parse_sequence-hit p t ts n bytes spare els e = ground (arith, e)

parse_sequence-miss :
    (p : FieldParameters) (t : GoType) (ts : FieldTypes) (n tag : ℕ) (bytes spare : List ℕ)
    (els : Elements)
    → p.tag_number ≡ some n
    → n ≢ tag
    → parse_sequence false (field_type p t ts) (element tag bytes spare els)
      ≡ parsed_map (field p (zero_value t)) (parse_sequence false ts (element tag bytes spare els))
unfolding parse_field
parse_sequence-miss p t ts n tag bytes spare els e h = ground (arith, e)

-- No field has the tag number.
abbrev pub HasNo : ℕ → FieldTypes → Type 0
HasNo n no_types = Unit
HasNo n (field_type p t ts) = (p.tag_number ≢ some n) × HasNo n ts

parse_sequence-none :
    (p : FieldParameters) (t : GoType) (ts : FieldTypes) (tag : ℕ) (bytes spare : List ℕ)
    (els : Elements)
    → p.tag_number ≡ none
    → parse_sequence false (field_type p t ts) (element tag bytes spare els) ≡ panics
unfolding parse_field
parse_sequence-none p t ts tag bytes spare els e = ground (arith, e)

pub parsed_map-ok :
    {A B : Type 0} (f : A → B) (r : Parsed A) (b : B) → parsed_map f r ≡ ok b → (a : A) × (r ≡ ok a)
parsed_map-ok f (ok a) b e = (a, refl)
parsed_map-ok f failed b e = cc
parsed_map-ok f panics b e = cc

pub parse_sequence-no_elements :
    (ts : FieldTypes) → parse_sequence false ts no_elements ≡ ok (zero_fields ts)
unfolding parse_field
parse_sequence-no_elements no_types = refl
parse_sequence-no_elements (field_type p t ts) = refl

parse_sequence-stop : (ts : FieldTypes) → parse_sequence false ts stop ≡ failed
unfolding parse_field
parse_sequence-stop no_types = refl
parse_sequence-stop (field_type p t ts) = refl

parse_sequence-crash : (ts : FieldTypes) → parse_sequence false ts crash ≡ panics
unfolding parse_field
parse_sequence-crash no_types = refl
parse_sequence-crash (field_type p t ts) = refl

parse_sequence-no_types :
    (tag : ℕ) (bytes spare : List ℕ) (els : Elements)
    → parse_sequence false no_types (element tag bytes spare els) ≡ failed
unfolding parse_field
parse_sequence-no_types tag bytes spare els = refl

failed-ne-ok : {A : Type 0} (r : Parsed A) (a : A) → r ≡ failed → r ≡ ok a → ⊥
failed-ne-ok r a e e' = let t : failed ≡ ok a = sym e ∙ e' in absurd (cc)

panics-ne-ok : {A : Type 0} (r : Parsed A) (a : A) → r ≡ panics → r ≡ ok a → ⊥
panics-ne-ok r a e e' = let t : panics ≡ ok a = sym e ∙ e' in absurd (cc)

-- A sequence that is read has a field for its first element.
read-HasNo :
    (ts : FieldTypes) (tag : ℕ) (bytes spare : List ℕ) (els : Elements) (fs : Fields)
    → parse_sequence false ts (element tag bytes spare els) ≡ ok fs
    → HasNo tag ts
    → ⊥
read-HasNo no_types tag bytes spare els fs e h =
    failed-ne-ok (parse_sequence false no_types (element tag bytes spare els)) fs
      (parse_sequence-no_types tag bytes spare els) e
read-HasNo (field_type p t ts) tag bytes spare els fs e h = elim (Option-cases p.tag_number) [
  | inl none_there ↦
      panics-ne-ok (parse_sequence false (field_type p t ts) (element tag bytes spare els)) fs
        (parse_sequence-none p t ts tag bytes spare els none_there) e
  | inr (m, there) ↦ elim (Bool-cases (m == tag)) [
    | inl same ↦ absurd (h.0 (there ∙ ap some ((==_iff m tag).0 same)))
    | inr differ ↦
        let miss =
          parse_sequence-miss p t ts m tag bytes spare els there (ground (arith, differ)) in
        let (fs', e') =
          parsed_map-ok (field p (zero_value t))
            (parse_sequence false ts (element tag bytes spare els)) fs (sym miss ∙ e) in
        read-HasNo ts tag bytes spare els fs' e' (h.1)
  ]
]

-- A field that is absent is skipped.
pub parse_sequence-skip :
    (p : FieldParameters) (t : GoType) (ts : FieldTypes) (n : ℕ) (els : Elements) (fs : Fields)
    → p.tag_number ≡ some n
    → HasNo n ts
    → parse_sequence false ts els ≡ ok fs
    → parse_sequence false (field_type p t ts) els ≡ ok (field p (zero_value t) fs)
unfolding zero_value
parse_sequence-skip p t ts n no_elements fs e h read =
    let same : ok (zero_fields ts) ≡ ok fs = sym (parse_sequence-no_elements ts) ∙ read in
    parse_sequence-no_elements (field_type p t ts) ∙ ap (parsed_map (field p (zero_value t))) same
parse_sequence-skip p t ts n stop fs e h read =
    absurd (failed-ne-ok (parse_sequence false ts stop) fs (parse_sequence-stop ts) read)
parse_sequence-skip p t ts n crash fs e h read =
    absurd (panics-ne-ok (parse_sequence false ts crash) fs (parse_sequence-crash ts) read)
parse_sequence-skip p t ts n (element tag bytes spare els) fs e h read =
    elim (Bool-cases (n == tag)) [
      | inl same ↦ absurd (
          read-HasNo ts tag bytes spare els fs read
            (subst (λ m. HasNo m ts) ((==_iff n tag).0 same) h))
      | inr differ ↦
          parse_sequence-miss p t ts n tag bytes spare els e (ground (arith, differ))
          ∙ ap (parsed_map (field p (zero_value t))) read
    ]

-- A struct that is no set is read from the elements of its value.
pub parse_field-struct :
    (params p : FieldParameters) (t : GoType) (ts : FieldTypes) (bytes spare value : List ℕ)
    → params.set ≡ false
    → params.open_type ≡ false
    → value_of bytes spare ≡ ok value
    → parse_field (struct_type (field_type p t ts)) params bytes spare
      ≡ parsed_map sequence
          (parse_sequence false (field_type p t ts) (elements (length value) value spare))
unfolding parse_field
parse_field-struct params p t ts bytes spare value set closed e = rw (e, set, closed) refl
