-- ===== src/Asn/Tests.antt =====
-- BER encoding on concrete values, and the theorems at concrete inputs (cdr/asn).
use chf.Base.{
  ap, ◌∙◌, none, ℕ, Bool, List, false, ◌-◌, ◌^◌, ◌<◌, ◌≡◌, refl, arith, true, [], ◌∷◌, ◌++◌, some,
  length,
}
use chf.Base.Maps.{text_eq}
use chf.Base.Decimal.{parse_int, scan}
use chf.Base.Word.{slt64}
use chf.Asn.{
  TagAndLen, FieldParameters, Value, text, slice, item, no_items, Fields, nil_pointer, integer,
  sequence, no_fields, field,
}
use chf.Asn.Params.{no_parameters, parse_field_parameters, parse_part, split, behind}
use chf.Asn.Digits.{
  digit_count, encode_int64, parse_int64, int64_len, shift_right, count_positive, count_negative,
}
use chf.Asn.Positional.{IsDigitCount, digit_count-IsDigitCount}
use chf.Asn.IntegerRoundTrip.{
  IsOctetCount, int64_len-IsOctetCount, parse-encode_int64, parse-encode_int64_negative,
}
use chf.Asn.Tag.{ok, tag_octets, length_octets, append_tag_and_len, parse_tag_and_length}
use chf.Asn.TagRoundTrip.{parse-append_tag_and_len}
use chf.Asn.Marshal.{
  before_fields, finish_slice, finish_sequence, make_fields, make_items, panics, made, finish,
  make_field,
}
use chf.Asn.Framing.{make_field-absent, IsElement, AreTagged}
use chf.Asn.Element.{make_field-IsElement}
use mathlib.Core.Option.{some-injective}
use chf.Asn.Unmarshal.{
  FieldTypes, no_types, field_type, zero_value, pointer_type, struct_type, slice_type, string_type,
  int_type, elements, parse_field,
}
use chf.Asn.Split.{elements_fuel}
use chf.Asn.Readable.{
  IsReadable, readable_sequence, readable_slice, readable_int, readable_text, present, absent,
  no_more, one_more, no_more_items,
}
use chf.Asn.ReadBack.{made_size, parse_field-make_field}

digit_count-IsDigitCount_example : IsDigitCount 256 1000 (digit_count 256 8 1000)
digit_count-IsDigitCount_example = digit_count-IsDigitCount 256 8 1000 (omega arith) (omega arith)

int64_len-IsOctetCount_example :
    IsOctetCount 200 (int64_len 200) × IsOctetCount 200 (int64_len (2 ^ 64 - 1 - 200))
int64_len-IsOctetCount_example = int64_len-IsOctetCount 200 (omega arith)

parse-encode_int64_example : parse_int64 (encode_int64 200) ≡ some 200
parse-encode_int64_example = parse-encode_int64 200 (omega arith)

parse-encode_int64_negative_example :
    (i : ℕ) × (parse_int64 (encode_int64 (2 ^ 64 - 1 - 4)) ≡ some i) × (i < 2 ^ 56)
parse-encode_int64_negative_example = parse-encode_int64_negative 4 (omega arith)

abbrev long_tag : TagAndLen
long_tag = record { class = 2; constructed = true; tag_number = 200; len = 1000 }

parse-append_tag_and_len_example :
    parse_tag_and_length (append_tag_and_len [] long_tag ++ (1 ∷ [])) []
    ≡ ok (long_tag, length (append_tag_and_len [] long_tag))
parse-append_tag_and_len_example =
    parse-append_tag_and_len long_tag (1 ∷ []) [] (omega arith) (omega arith) (omega arith)

abbrev all_absent : Fields
all_absent =
    field (record no_parameters { optional = true; tag_number = some 0 }) nil_pointer no_fields

make_field-absent_example : make_field no_parameters (sequence all_absent) ≡ panics
make_field-absent_example = make_field-absent no_parameters all_absent (refl, refl, tt)

abbrev fourth : FieldParameters
fourth = record no_parameters { tag_number = some 4 }

encoded_seven : make_field fourth (integer 7) ≡ made (0x84 ∷ 1 ∷ 7 ∷ [])
unfolding make_field finish append_tag_and_len tag_octets length_octets encode_int64 int64_len
    count_negative slt64 count_positive
encoded_seven = refl

make_field-IsElement_example :
    IsElement fourth (0x84 ∷ 1 ∷ 7 ∷ []) (parse_tag_and_length (0x84 ∷ 1 ∷ 7 ∷ []) [])
unfolding AreTagged
make_field-IsElement_example =
    make_field-IsElement fourth (integer 7) (0x84 ∷ 1 ∷ 7 ∷ []) [] [] (omega arith, omega arith) tt
      encoded_seven (omega arith)

abbrev numbered : Bool → ℕ → FieldParameters
numbered optional n = record no_parameters { optional = optional; tag_number = some n }

-- A number, an optional pointer and a list of texts.
abbrev sample_types : FieldTypes
sample_types = field_type (numbered false 0) int_type (
    field_type (numbered true 1) (pointer_type int_type)
      (field_type (numbered false 2) (slice_type string_type) no_types))

abbrev texts : Value
texts = slice (item (text (b'a' ∷ [])) (item (text []) no_items))

abbrev sample_fields : Fields
sample_fields =
    field (numbered false 0) (integer 300)
      (field (numbered true 1) nil_pointer (field (numbered false 2) texts no_fields))

abbrev sample : Value
sample = sequence sample_fields

sample-IsReadable : IsReadable no_parameters (struct_type sample_types) sample
unfolding zero_value
sample-IsReadable = readable_sequence refl refl (
    present 0 refl (omega arith, omega arith) refl refl (λ e. cc) (readable_int 300 (omega arith))
      (absent 1 refl refl refl (λ e. absurd (omega (arith, some-injective 2 1 e)), tt)
        (present 2 refl (omega arith, omega arith) refl refl (λ e. cc)
          (readable_slice
            (one_more (readable_text (b'a' ∷ [])) (one_more (readable_text []) no_more_items)))
          no_more)))

encoded_texts :
    make_items
      (record no_parameters { tag_number = none })
      (item (text (b'a' ∷ [])) (item (text []) no_items))
    ≡ made (0 ∷ 1 ∷ b'a' ∷ 0 ∷ 0 ∷ [])
unfolding make_field finish append_tag_and_len tag_octets length_octets
encoded_texts = refl

encoded_list : make_field (numbered false 2) texts ≡ made (0xa2 ∷ 5 ∷ 0 ∷ 1 ∷ b'a' ∷ 0 ∷ 0 ∷ [])
unfolding make_field finish append_tag_and_len tag_octets length_octets
encoded_list = ap (finish_slice (numbered false 2)) encoded_texts

encoded_number : make_field (numbered false 0) (integer 300) ≡ made (0x80 ∷ 2 ∷ 1 ∷ 44 ∷ [])
unfolding make_field finish append_tag_and_len tag_octets length_octets encode_int64 int64_len
    count_negative slt64 count_positive shift_right
encoded_number = refl

encoded_fields :
    make_fields sample_fields
    ≡ (true, made (0x80 ∷ 2 ∷ 1 ∷ 44 ∷ 0xa2 ∷ 5 ∷ 0 ∷ 1 ∷ b'a' ∷ 0 ∷ 0 ∷ []))
unfolding make_fields
encoded_fields =
    ap (λ m. before_fields m (before_fields (make_field (numbered false 2) texts) (false, made [])))
      encoded_number
    ∙ ap (λ m. before_fields (made (0x80 ∷ 2 ∷ 1 ∷ 44 ∷ [])) (before_fields m (false, made [])))
        encoded_list

encoded_sample :
    make_field no_parameters sample
    ≡ made (0x30 ∷ 11 ∷ 0x80 ∷ 2 ∷ 1 ∷ 44 ∷ 0xa2 ∷ 5 ∷ 0 ∷ 1 ∷ b'a' ∷ 0 ∷ 0 ∷ [])
unfolding make_field finish append_tag_and_len tag_octets length_octets
encoded_sample = ap (finish_sequence no_parameters) encoded_fields

sample_size : made_size (make_field no_parameters sample) < 2 ^ 24
sample_size = rw encoded_sample (omega arith)

parse_field-make_field_example :
    (bytes : List ℕ) × (make_field no_parameters sample ≡ made bytes)
    × (parse_field (struct_type sample_types) no_parameters bytes [] ≡ ok sample)
parse_field-make_field_example =
    parse_field-make_field no_parameters (struct_type sample_types) sample [] (omega arith, tt) refl
      sample-IsReadable sample_size

elements_fuel_example :
    elements 6 (0x84 ∷ 1 ∷ 7 ∷ 0x85 ∷ 0 ∷ []) [] ≡ elements 5 (0x84 ∷ 1 ∷ 7 ∷ 0x85 ∷ 0 ∷ []) []
elements_fuel_example =
    elements_fuel 6 5 (0x84 ∷ 1 ∷ 7 ∷ 0x85 ∷ 0 ∷ []) [] (omega arith) (omega arith)

-- "tagNum:4,optional"
parsed_fourth :
    parse_field_parameters (
      b't' ∷ b'a' ∷ b'g' ∷ b'N' ∷ b'u' ∷ b'm' ∷ b':' ∷ b'4' ∷ b',' ∷ b'o' ∷ b'p' ∷ b't' ∷ b'i'
      ∷ b'o' ∷ b'n' ∷ b'a' ∷ b'l' ∷ [])
    ≡ record no_parameters { tag_number = some 4; optional = true }
unfolding parse_field_parameters split parse_part behind text_eq parse_int scan
parsed_fourth = refl
