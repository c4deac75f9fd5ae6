-- ===== src/Asn/Element.antt =====
-- Every field is encoded to one element, which can be read from its tag and length (`makeField` of
-- cdr/asn/ber_marshal.go).
use chf.Base.{
  ℕ, zero, suc, ◌+◌, ◌-◌, ◌%◌, ◌^◌, ◌<◌, ◌∷◌, if◌then◌else◌, ◌≡◌, refl, sym, ap, ◌∙◌, arith, Bool,
  true, false, List, [], append_assoc, ◌++◌, Option, none, some, length, length-append,
}
use chf.Asn.{
  TagAndLen, FieldParameters, Value, Fields, nil_pointer, pointer, bit_string,
  nil_object_identifier, object_identifier, nil_octet_string, octet_string, enumerated, null,
  boolean, integer, text, wrapped, choice, sequence, nil_slice, slice, other, no_fields, field,
}
use chf.Asn.Params.{no_parameters}
use chf.Asn.Digits.{encode_int64}
use chf.Asn.Tag.{append_tag_and_len, parse_tag_and_length}
use chf.Asn.TagRoundTrip.{parse-append_tag_and_len}
use chf.Asn.Marshal.{
  Made, made, failed, panics, make_field, make_present, make_fields, make_items, finish_choice,
  has_field,
}
use chf.Asn.Framing.{
  IsTagged, IsFramed, is_number, IsElement, IsFramedIfMade, universal-IsFramed, collection-IsFramed,
  finish_choice-IsFramed, finish_sequence-IsFramed, finish_slice-IsFramed, unnumbered, AreTagged,
  AreFieldsTagged,
}

unmade :
    (params : FieldParameters) (b : Bool) → IsFramedIfMade params (if b then failed else panics)
unfolding IsFramedIfMade
unmade params true = tt
unmade params false = tt

choice-IsFramed :
    (params : FieldParameters) (b : Bool) (m : Made)
    → IsTagged params
    → (params.tag_number ≡ none → IsFramedIfMade params m)
    → IsFramedIfMade params (
        if params.open_type
        then (if b then failed else panics)
        else (elim params.tag_number [ none ↦ m | some number ↦ finish_choice params m ]))
choice-IsFramed params b m tagged h = go params.open_type params.tag_number refl
  where
    go :
        (x : Bool) (o : Option ℕ)
        → params.tag_number ≡ o
        → IsFramedIfMade params (
            if x
            then (if b then failed else panics)
            else (elim o [ none ↦ m | some number ↦ finish_choice params m ]))
    go true o e = unmade params b
    go false none e = h e
    go false (some number) e = finish_choice-IsFramed params m tagged

mutual
  unfolding make_field IsFramedIfMade AreTagged

  pub make_field-IsFramed :
      (params : FieldParameters) (v : Value)
      → IsTagged params
      → AreTagged v
      → IsFramedIfMade params (make_field params v)
  make_field-IsFramed params nil_pointer tagged vs = tt
  make_field-IsFramed params (pointer v) tagged vs = make_field-IsFramed params v tagged vs
  make_field-IsFramed params (bit_string bytes bit_length) tagged vs =
      universal-IsFramed params false 3 ((8 - bit_length % 8) ∷ bytes) tagged (omega arith)
  make_field-IsFramed params nil_object_identifier tagged vs = tt
  make_field-IsFramed params object_identifier tagged vs = tt
  make_field-IsFramed params nil_octet_string tagged vs =
      universal-IsFramed params false 4 [] tagged (omega arith)
  make_field-IsFramed params (octet_string bytes) tagged vs =
      universal-IsFramed params false 4 bytes tagged (omega arith)
  make_field-IsFramed params (enumerated i) tagged vs =
      universal-IsFramed params false 10 (encode_int64 i) tagged (omega arith)
  make_field-IsFramed params null tagged vs =
      universal-IsFramed params false 5 [] tagged (omega arith)
  make_field-IsFramed params (boolean true) tagged vs =
      universal-IsFramed params false 1 (0xff ∷ []) tagged (omega arith)
  make_field-IsFramed params (boolean false) tagged vs =
      universal-IsFramed params false 1 (0 ∷ []) tagged (omega arith)
  make_field-IsFramed params (integer i) tagged vs =
      universal-IsFramed params false 2 (encode_int64 i) tagged (omega arith)
  make_field-IsFramed params (text s) tagged vs =
      universal-IsFramed params false params.string_type s tagged (tagged.0)
  make_field-IsFramed params (wrapped v) tagged vs = make_field-IsFramed params v tagged vs
  make_field-IsFramed params (choice zero parts) tagged vs = tt
  make_field-IsFramed params (choice (suc present) parts) tagged vs =
      let (p, framed) = make_present-IsFramed present parts vs in
      choice-IsFramed params (has_field present parts) (make_present present parts) tagged
        (λ e. unnumbered params p (make_present present parts) e framed)
  make_field-IsFramed params (sequence no_fields) tagged vs = tt
  make_field-IsFramed params (sequence (field p v fields)) tagged vs =
      finish_sequence-IsFramed params (make_fields (field p v fields)).0
        (make_fields (field p v fields)).1 tagged
  make_field-IsFramed params nil_slice tagged vs = collection-IsFramed params [] tagged
  make_field-IsFramed params (slice items) tagged vs =
      finish_slice-IsFramed params (make_items (record params { tag_number = none }) items) tagged
  make_field-IsFramed params other tagged vs = tt

  make_present-IsFramed :
      (n : ℕ) (fields : Fields)
      → AreFieldsTagged fields
      → (p : FieldParameters) × IsFramedIfMade p (make_present n fields)
  make_present-IsFramed n no_fields vs = (no_parameters, tt)
  make_present-IsFramed zero (field p v parts) (tagged, vs, rest) =
      (p, make_field-IsFramed p v tagged vs)
  make_present-IsFramed (suc n) (field p v parts) (tagged, vs, rest) =
      make_present-IsFramed n parts rest

pub read_framed :
    (params : FieldParameters) (m : Made) (bytes rest spare : List ℕ)
    → IsFramedIfMade params m
    → m ≡ made bytes
    → length bytes < 2 ^ 24
    → IsElement params bytes (parse_tag_and_length (bytes ++ rest) spare)
unfolding IsFramedIfMade
read_framed params m bytes rest spare h e small = go (rw e at h)
  where
    go : IsFramed params bytes → IsElement params bytes (parse_tag_and_length (bytes ++ rest) spare)
    go (t, value, p, class, number, same) =
        let head : TagAndLen = record t { len = length value } in
        let size : length bytes ≡ length (append_tag_and_len [] head) + length value =
          ap length p ∙ length-append (append_tag_and_len [] head) value in
        let read = parse-append_tag_and_len head (value ++ rest) spare class number (omega arith) in
        rw (p, append_assoc (append_tag_and_len [] head) value rest, read)
          (
            sym (length-append (append_tag_and_len [] head) value),
            is_number params.tag_number t.tag_number same,
          )

-- Where a field is encoded to fewer than 2^24 bytes, and the tag numbers of its parameters, of the
-- alternatives of its choices and of its string type are below 2^63, its bytes are one element:
-- the tag and length that are read in front of anything have the tag number of the parameters, if
-- those have one, and end the element with its bytes.
pub make_field-IsElement :
    (params : FieldParameters) (v : Value) (bytes rest spare : List ℕ)
    → IsTagged params
    → AreTagged v
    → make_field params v ≡ made bytes
    → length bytes < 2 ^ 24
    → IsElement params bytes (parse_tag_and_length (bytes ++ rest) spare)
make_field-IsElement params v bytes rest spare tagged vs e small =
    read_framed params (make_field params v) bytes rest spare
      (make_field-IsFramed params v tagged vs) e small
