-- ===== src/Asn/Marshal.antt =====
-- `makeField` of cdr/asn/ber_marshal.go. An encoder is modelled by the bytes it encodes; its length is
-- theirs.
use chf.Base.{
  ℕ, zero, suc, ◌-◌, ◌%◌, Bool, true, false, List, [], ◌∷◌, ◌++◌, Option, none, some, if◌then◌else◌,
  length,
}
use chf.Asn.{
  TagAndLen, FieldParameters, Value, Fields, Items, nil_pointer, pointer, bit_string,
  nil_object_identifier, object_identifier, nil_octet_string, octet_string, enumerated, null,
  boolean, integer, text, wrapped, choice, sequence, nil_slice, slice, other, no_fields, field,
  no_items, item,
}
use chf.Asn.Params.{parse_field_parameters}
use chf.Asn.Digits.{encode_int64}
use chf.Asn.Tag.{append_tag_and_len}

-- An encoder, an error beside no encoder or beside an empty one, or a panic.
pub data Made : Type 0 where
  made : List ℕ → Made
  failed : Made
  failed_empty : Made
  panics : Made

abbrev pub universal : Bool → ℕ → TagAndLen
universal constructed number = record {
  class = 0;
  constructed = constructed;
  tag_number = number;
  len = 0;
}

-- A tag, its length and the value.
abbrev pub frame : TagAndLen → List ℕ → List ℕ
frame t value = append_tag_and_len [] (record t { len = length value }) ++ value

-- The end of `makeField`: a tag number of the parameters replaces the tag of the type, or goes round
-- the whole field if it is explicit.
unfoldable pub finish : FieldParameters → TagAndLen → List ℕ → List ℕ
finish params tag value = elim params.tag_number [
  | none ↦ frame tag value
  | some number ↦
      if params.explicit_tag
      then frame (record { class = 2; constructed = true; tag_number = number; len = 0 })
          (frame tag value)
      else frame (record tag { class = 2; tag_number = number }) value
]

-- `v.IsNil()`; none for a kind on which it panics.
abbrev pub is_nil : Value → Option Bool
is_nil nil_pointer = some true
is_nil (pointer v) = some false
is_nil nil_object_identifier = some true
is_nil object_identifier = some false
is_nil nil_octet_string = some true
is_nil (octet_string bytes) = some false
is_nil nil_slice = some true
is_nil (slice items) = some false
is_nil _ = none

abbrev pub collection : FieldParameters → TagAndLen
collection params = universal true (if params.set then 17 else 16)

-- An explicit choice goes on with the encoder of its field, and an error is only printed; a nil
-- encoder is dereferenced then.
abbrev pub finish_choice : FieldParameters → Made → Made
finish_choice params (made value) = made (finish params (universal true 0) value)
finish_choice params failed_empty = made (finish params (universal true 0) [])
finish_choice params failed = panics
finish_choice params panics = panics

-- The value of a struct is set with its first encoded field, and stays a nil encoder without one.
abbrev pub finish_sequence : FieldParameters → Bool × Made → Made
finish_sequence params (true, made value) = made (finish params (collection params) value)
finish_sequence params (false, made value) = panics
finish_sequence params (set, failed) = failed
finish_sequence params (set, failed_empty) = failed
finish_sequence params (set, panics) = panics

abbrev pub finish_slice : FieldParameters → Made → Made
finish_slice params (made value) = made (finish params (collection params) value)
finish_slice params failed = failed
finish_slice params failed_empty = failed
finish_slice params panics = panics

-- An encoded part before the rest; any error is the error of the whole.
abbrev pub before : Made → Made → Made
before (made value) (made rest) = made (value ++ rest)
before (made value) r = r
before failed r = failed
before failed_empty r = failed
before panics r = panics

abbrev pub before_fields : Made → Bool × Made → Bool × Made
before_fields m (set, rest) = (true, before m rest)

-- An absent optional field takes no bytes.
abbrev pub choose_field : FieldParameters → Option Bool → Made → Bool × Made → Bool × Made
choose_field params nil m rest =
    if params.optional
    then (elim nil [
      | none ↦ (false, panics)
      | some true ↦ rest
      | some false ↦ if params.open_type then (false, failed) else before_fields m rest
    ])
    else if params.open_type
    then (false, failed)
    else before_fields m rest

abbrev pub has_field : ℕ → Fields → Bool
has_field n no_fields = false
has_field zero (field p v parts) = true
has_field (suc n) (field p v parts) = has_field n parts

unfoldable mutual
  pub make_field : FieldParameters → Value → Made
  make_field params nil_pointer = failed
  make_field params (pointer v) = make_field params v
  make_field params (bit_string bytes bit_length) =
      made (finish params (universal false 3) ((8 - bit_length % 8) ∷ bytes))
  make_field params nil_object_identifier = failed_empty
  make_field params object_identifier = failed_empty
  make_field params nil_octet_string = made (finish params (universal false 4) [])
  make_field params (octet_string bytes) = made (finish params (universal false 4) bytes)
  make_field params (enumerated i) = made (finish params (universal false 10) (encode_int64 i))
  make_field params null = made (finish params (universal false 5) [])
  make_field params (boolean true) = made (finish params (universal false 1) (0xff ∷ []))
  make_field params (boolean false) = made (finish params (universal false 1) (0 ∷ []))
  make_field params (integer i) = made (finish params (universal false 2) (encode_int64 i))
  make_field params (text s) = made (finish params (universal false params.string_type) s)
  make_field params (wrapped v) = make_field params v
  make_field params (choice zero parts) = failed
  make_field params (choice (suc present) parts) =
      let picked = make_present present parts in
      if params.open_type
      then (if has_field present parts then failed else panics)
      else (elim params.tag_number [ none ↦ picked | some number ↦ finish_choice params picked ])
  make_field params (sequence no_fields) = panics
  make_field params (sequence (field p v fields)) =
      finish_sequence params (make_fields (field p v fields))
  make_field params nil_slice = made (finish params (collection params) [])
  make_field params (slice items) =
      finish_slice params (make_items (record params { tag_number = none }) items)
  make_field params other = panics

  -- The field that a choice has; past the last one reflection panics.
  pub make_present : ℕ → Fields → Made
  make_present n no_fields = panics
  make_present zero (field p v parts) = make_field p v
  make_present (suc n) (field p v parts) = make_present n parts

  -- Whether a field was encoded, and all of them.
  pub make_fields : Fields → Bool × Made
  make_fields no_fields = (false, made [])
  make_fields (field p v fields) = choose_field p (is_nil v) (make_field p v) (make_fields fields)

  pub make_items : FieldParameters → Items → Made
  make_items params no_items = made []
  make_items params (item v items) = before (make_field params v) (make_items params items)

-- `BerMarshalWithParams`
unfoldable pub ber_marshal : List ℕ → Value → Made
ber_marshal params v = make_field (parse_field_parameters params) v
