-- ===== src/Asn/Unmarshal.antt =====
-- `ParseField` of cdr/asn/ber_unmarshal.go, on the Go types that reflection shows to it.
use chf.Base.{
  ℕ, zero, suc, ◌+◌, ◌-◌, ◌*◌, ◌%◌, ◌^◌, ltb, ◌==◌, Bool, true, false, List, [], ◌∷◌, ◌++◌, Option,
  none, some, if◌then◌else◌, length, drop?, take?,
}
use chf.Asn.{
  TagAndLen, FieldParameters, Value, Fields, Items, nil_pointer, pointer, bit_string,
  nil_object_identifier, nil_octet_string, octet_string, enumerated, null, boolean, integer, text,
  wrapped, choice, sequence, nil_slice, slice, other, no_fields, field, no_items, item,
}
use chf.Asn.Params.{parse_field_parameters}
use chf.Asn.Digits.{parse_int64}
use chf.Asn.Tag.{Parsed, ok, failed, panics, parse_tag_and_length}

-- A type by its kind, where the types of package asn come first; `wrapped_type` is a struct whose
-- first field is named Value or List, `choice_type` one whose first field is Present, without it.
mutual
  pub data GoType : Type 0 where
    pointer_type : GoType → GoType
    bit_string_type : GoType
    object_identifier_type : GoType
    octet_string_type : GoType
    enumerated_type : GoType
    null_type : GoType
    bool_type : GoType
    int_type : GoType
    int32_type : GoType
    wrapped_type : GoType → GoType
    choice_type : FieldTypes → GoType
    struct_type : FieldTypes → GoType
    slice_type : GoType → GoType
    string_type : GoType
    other_type : GoType

  pub data FieldTypes : Type 0 where
    no_types : FieldTypes
    field_type : FieldParameters → GoType → FieldTypes → FieldTypes

-- The value of a variable before it is set.
unfoldable mutual
  pub zero_value : GoType → Value
  zero_value (pointer_type t) = nil_pointer
  zero_value bit_string_type = bit_string [] 0
  zero_value object_identifier_type = nil_object_identifier
  zero_value octet_string_type = nil_octet_string
  zero_value enumerated_type = enumerated 0
  zero_value null_type = null
  zero_value bool_type = boolean false
  zero_value int_type = integer 0
  zero_value int32_type = integer 0
  zero_value (wrapped_type t) = wrapped (zero_value t)
  zero_value (choice_type ts) = choice 0 (zero_fields ts)
  zero_value (struct_type ts) = sequence (zero_fields ts)
  zero_value (slice_type t) = nil_slice
  zero_value string_type = text []
  zero_value other_type = other

  pub zero_fields : FieldTypes → Fields
  zero_fields no_types = no_fields
  zero_fields (field_type p t ts) = field p (zero_value t) (zero_fields ts)

abbrev pub and_then {ℓ κ} : {A : Type ℓ} {B : Type κ} → Parsed A → (A → Parsed B) → Parsed B
and_then (ok a) f = f a
and_then failed f = failed
and_then panics f = panics

-- The elements that a value consists of, as the loops meet them: each with its tag number, its bytes
-- and the capacity behind them.
pub data Elements : Type 0 where
  no_elements : Elements
  stop : Elements
  crash : Elements
  element : ℕ → List ℕ → List ℕ → Elements → Elements

abbrev pub split_element :
    ℕ → List ℕ → Option (List ℕ) → Option (List ℕ) → (List ℕ → Elements) → Elements
split_element tag spare (some bytes) (some rest) more =
    element tag bytes (rest ++ spare) (more rest)
split_element tag spare _ _ more = stop

abbrev pub next_element : List ℕ → List ℕ → Parsed (TagAndLen × ℕ) → (List ℕ → Elements) → Elements
next_element bytes spare (ok (t, off)) more =
    split_element t.tag_number spare (take? (off + t.len) bytes) (drop? (off + t.len) bytes) more
next_element bytes spare failed more = stop
next_element bytes spare panics more = crash

unfoldable pub elements : ℕ → List ℕ → List ℕ → Elements
elements fuel [] spare = no_elements
elements zero (b ∷ bytes) spare = stop
elements (suc fuel) (b ∷ bytes) spare =
    next_element (b ∷ bytes) spare (parse_tag_and_length (b ∷ bytes) spare)
      (λ rest. elements fuel rest spare)

-- `parseBitString`
unfoldable pub parse_bit_string : List ℕ → Parsed Value
parse_bit_string [] = panics
parse_bit_string (unused ∷ bytes) =
    ok (bit_string bytes ((length bytes * 8 + 2 ^ 64 - unused) % 2 ^ 64))

abbrev pub parsed_number : (ℕ → Value) → Option ℕ → Parsed Value
parsed_number f none = failed
parsed_number f (some i) = ok (f i)

-- SetInt on an int32 keeps the low bits, and reading it extends the sign.
unfoldable pub low_int32 : ℕ → ℕ
low_int32 i = if ltb (i % 2 ^ 32) (2 ^ 31) then i % 2 ^ 32 else 2 ^ 64 - 2 ^ 32 + i % 2 ^ 32

-- `parseBool` on the first octet.
abbrev pub parse_bool : List ℕ → Parsed Value
parse_bool [] = panics
parse_bool (b ∷ bytes) = ok (boolean (if b == 0 then false else true))

-- The bytes behind a tag and a length, if the value is in range.
abbrev pub value_bytes : List ℕ → TagAndLen × ℕ → Parsed (List ℕ)
value_bytes bytes (t, off) =
    if ltb (length bytes) (off + t.len)
    then failed
    else (elim (drop? off bytes) [ none ↦ failed | some value ↦ ok value ])

abbrev pub value_of : List ℕ → List ℕ → Parsed (List ℕ)
value_of bytes spare = and_then (parse_tag_and_length bytes spare) (value_bytes bytes)

abbrev pub parsed_map {ℓ κ} : {A : Type ℓ} {B : Type κ} → (A → B) → Parsed A → Parsed B
parsed_map f (ok a) = ok (f a)
parsed_map f failed = failed
parsed_map f panics = panics

abbrev matches : Option ℕ → ℕ → Bool
matches none tag = false
matches (some n) tag = n == tag

-- The bytes of the alternative of a choice: behind the tag of the field that the choice is in, if it
-- has one, and then as many octets on as the tag of the alternative takes.
abbrev chosen_bytes : FieldParameters → List ℕ → List ℕ → TagAndLen → List ℕ → Parsed (ℕ × List ℕ)
chosen_bytes params bytes spare t value = elim params.tag_number [
  | none ↦ ok (t.tag_number, bytes)
  | some n ↦
      and_then (parse_tag_and_length value spare)
        (λ h. parsed_map (λ rest. ((h.0).tag_number, rest)) (value_bytes bytes h))
]

abbrev set_field : ℕ → Value → Fields → Fields
set_field i v no_fields = no_fields
set_field zero v (field p w parts) = field p v parts
set_field (suc i) v (field p w parts) = field p w (set_field i v parts)

-- The loop over the elements of a set.
abbrev parse_set : (ℕ → List ℕ → List ℕ → Parsed (ℕ × Value)) → Elements → Fields → Parsed Fields
parse_set f no_elements parts = ok parts
parse_set f stop parts = failed
parse_set f crash parts = panics
parse_set f (element tag bytes spare rest) parts =
    and_then (f tag bytes spare) (λ r. parse_set f rest (set_field (r.0) (r.1) parts))

-- A slice is split before its elements are parsed.
abbrev pub split_end : Elements → Parsed ℕ
split_end no_elements = ok 0
split_end stop = failed
split_end crash = panics
split_end (element tag bytes spare rest) = split_end rest

abbrev pub parse_items : (List ℕ → List ℕ → Parsed Value) → Elements → Parsed Items
parse_items f (element tag bytes spare rest) =
    and_then (f bytes spare) (λ v. parsed_map (item v) (parse_items f rest))
parse_items f _ = ok no_items

unfoldable mutual
  pub parse_field : GoType → FieldParameters → List ℕ → List ℕ → Parsed Value
  parse_field (pointer_type t) params bytes spare =
      parsed_map pointer (parse_field t params bytes spare)
  parse_field bit_string_type params bytes spare = and_then (value_of bytes spare) parse_bit_string
  parse_field object_identifier_type params bytes spare =
      and_then (value_of bytes spare) (λ v. failed)
  parse_field octet_string_type params bytes spare = parsed_map octet_string (value_of bytes spare)
  parse_field enumerated_type params bytes spare =
      and_then (value_of bytes spare) (λ v. parsed_number enumerated (parse_int64 v))
  parse_field null_type params bytes spare = and_then (value_of bytes spare) (λ v. panics)
  parse_field bool_type params bytes spare = and_then (value_of bytes spare) parse_bool
  parse_field int_type params bytes spare =
      and_then (value_of bytes spare) (λ v. parsed_number integer (parse_int64 v))
  parse_field int32_type params bytes spare =
      and_then (value_of bytes spare)
        (λ v. parsed_number (λ i. integer (low_int32 i)) (parse_int64 v))
  parse_field (wrapped_type t) params bytes spare =
      and_then (value_of bytes spare) (λ v. parsed_map wrapped (parse_field t params bytes spare))
  parse_field (choice_type ts) params bytes spare =
      and_then (parse_tag_and_length bytes spare) (λ h. and_then (value_bytes bytes h) (λ v.
        if params.open_type
        then failed
        else and_then (chosen_bytes params bytes spare (h.0) v)
            (λ c. parsed_map (λ r. choice (r.0) (r.1)) (parse_choice ts 1 (c.0) (c.1) spare))))
  parse_field (struct_type no_types) params bytes spare =
      and_then (value_of bytes spare) (λ v. panics)
  parse_field (struct_type (field_type p t ts)) params bytes spare =
      and_then (value_of bytes spare) (λ v. parsed_map sequence (
        if params.set
        then parse_set (parse_any params.open_type (field_type p t ts) 0)
            (elements (length v) v spare) (zero_fields (field_type p t ts))
        else parse_sequence params.open_type (field_type p t ts) (elements (length v) v spare)))
  parse_field (slice_type t) params bytes spare = and_then (value_of bytes spare) (λ v.
      and_then (split_end (elements (length v) v spare))
        (λ n. parsed_map slice (parse_items (parse_field t params) (elements (length v) v spare))))
  parse_field string_type params bytes spare = parsed_map text (value_of bytes spare)
  parse_field other_type params bytes spare = and_then (value_of bytes spare) (λ v. failed)

  -- The first alternative with the tag number, and its position.
  pub parse_choice : FieldTypes → ℕ → ℕ → List ℕ → List ℕ → Parsed (ℕ × Fields)
  parse_choice no_types n tag bytes spare = failed
  parse_choice (field_type p t ts) n tag bytes spare =
      let rest = parse_choice ts (suc n) tag bytes spare in
      if matches p.tag_number tag
      then parsed_map (λ v. (n, field p v (zero_fields ts))) (parse_field t p bytes spare)
      else parsed_map (λ r. (r.0, field p (zero_value t) (r.1))) rest

  -- The elements of a sequence, each for the next field that has its tag number.
  pub parse_sequence : Bool → FieldTypes → Elements → Parsed Fields
  parse_sequence unread ts no_elements = ok (zero_fields ts)
  parse_sequence unread ts stop = failed
  parse_sequence unread ts crash = panics
  parse_sequence unread no_types (element tag bytes spare els) = failed
  parse_sequence unread (field_type p t ts) (element tag bytes spare els) =
      if unread then failed else (elim p.tag_number [
        | none ↦ panics
        | some n ↦
            if n == tag
            then and_then (parse_field t p bytes spare)
                (λ v. parsed_map (field p v) (parse_sequence unread ts els))
            else parsed_map (field p (zero_value t))
                (parse_sequence unread ts (element tag bytes spare els))
      ])

  -- An element of a set, for the first field that has its tag number, and the position of that.
  pub parse_any : Bool → FieldTypes → ℕ → ℕ → List ℕ → List ℕ → Parsed (ℕ × Value)
  parse_any unread no_types n tag bytes spare = failed
  parse_any unread (field_type p t ts) n tag bytes spare =
      if unread then failed else (elim p.tag_number [
        | none ↦ panics
        | some m ↦
            if m == tag
            then parsed_map (λ v. (n, v)) (parse_field t p bytes spare)
            else parse_any unread ts (suc n) tag bytes spare
      ])

-- `UnmarshalWithParams`, where the slice that is read ends with its capacity.
unfoldable pub ber_unmarshal : GoType → List ℕ → List ℕ → Parsed Value
ber_unmarshal t params bytes = parse_field t (parse_field_parameters params) bytes []
