-- ===== src/Asn/Readable.antt =====
-- Which values are read as they were encoded (`makeField` of cdr/asn/ber_marshal.go and `ParseField` of
-- cdr/asn/ber_unmarshal.go).
use chf.Base.{
  ℕ, ◌+◌, ◌^◌, ◌<◌, ◌≤◌, ◌≡◌, refl, arith, ltb, le→ltb, Bool, true, false, List, [], ◌++◌,
  Bool-cases, length, length-append, drop?-append, inl, inr, Option-cases, Option, some,
}
use chf.Asn.{
  TagAndLen, FieldParameters, Value, Fields, Items, pointer, octet_string, enumerated, boolean,
  integer, text, wrapped, sequence, slice, no_fields, field, no_items, item,
}
use chf.Asn.Tag.{ok, append_tag_and_len}
use chf.Asn.TagRoundTrip.{parse-append_tag_and_len}
use chf.Asn.Marshal.{Made, frame, finish, is_nil, choose_field, before_fields}
use chf.Asn.Framing.{IsTagged, AreTagged, small_number, finish-none, finish-implicit}
use chf.Asn.Unmarshal.{
  GoType, FieldTypes, no_types, field_type, pointer_type, octet_string_type, enumerated_type,
  bool_type, int_type, wrapped_type, string_type, struct_type, slice_type, zero_value, value_bytes,
  value_of,
}
use chf.Asn.Sequence.{HasNo}

value_bytes-frame :
    (t : TagAndLen) (head value : List ℕ)
    → t.len ≡ length value
    → value_bytes (head ++ value) (t, length head) ≡ ok value
value_bytes-frame t head value e =
    let whole : ltb (length (head ++ value)) (length head + t.len) ≡ false =
      le→ltb (length (head ++ value)) (length head + t.len)
        (omega (arith, length-append head value)) in
    rw (whole, drop?-append head value (length head) 0 (omega arith)) refl

value_of-frame :
    (t : TagAndLen) (value spare : List ℕ)
    → t.class < 4
    → t.tag_number < 2 ^ 63
    → length (frame t value) < 2 ^ 24
    → value_of (frame t value) spare ≡ ok value
value_of-frame t value spare class number small =
    let head : TagAndLen = record t { len = length value } in
    let size = length-append (append_tag_and_len [] head) value in
    rw (parse-append_tag_and_len head value spare class number (omega arith))
      (value_bytes-frame head (append_tag_and_len [] head) value refl)

pub value_of-finish :
    (params : FieldParameters) (tag : TagAndLen) (value spare : List ℕ)
    → IsTagged params
    → params.explicit_tag ≡ false
    → tag.class < 4
    → tag.tag_number < 2 ^ 63
    → length (finish params tag value) < 2 ^ 24
    → value_of (finish params tag value) spare ≡ ok value
value_of-finish params tag value spare tagged implicit class number small =
    elim (Option-cases params.tag_number) [
      | inl e ↦
          let p = finish-none params tag value e in
          rw p (value_of-frame tag value spare class number (rw p at small))
      | inr (n, e) ↦
          let p = finish-implicit params tag value n e implicit in
          rw p (
            value_of-frame (record tag { class = 2; tag_number = n }) value spare (omega arith)
              (small_number params.tag_number n (tagged.1) e) (rw p at small))
    ]

frame-size : (t : TagAndLen) (value : List ℕ) → length value ≤ length (frame t value)
frame-size t value =
    let head : TagAndLen = record t { len = length value } in
    omega (arith, length-append (append_tag_and_len [] head) value)

pub finish-size :
    (params : FieldParameters) (tag : TagAndLen) (value : List ℕ)
    → params.explicit_tag ≡ false
    → length value ≤ length (finish params tag value)
finish-size params tag value implicit = elim (Option-cases params.tag_number) [
  | inl e ↦ rw (finish-none params tag value e) (frame-size tag value)
  | inr (n, e) ↦
      rw (finish-implicit params tag value n e implicit)
        (frame-size (record tag { class = 2; tag_number = n }) value)
]

-- Values with their types, for the parameters that they are read with: values without parts, integers
-- from 0 on, sequences whose parts are numbered and slices, behind pointers and wrappers.
mutual
  pub data IsReadable : FieldParameters → GoType → Value → Type 0 where
    readable_pointer :
        {p : FieldParameters} {t : GoType} {v : Value}
        → IsReadable p t v
        → IsReadable p (pointer_type t) (pointer v)
    readable_wrapped :
        {p : FieldParameters} {t : GoType} {v : Value}
        → IsReadable p t v
        → IsReadable p (wrapped_type t) (wrapped v)
    readable_octets :
        {p : FieldParameters} (bytes : List ℕ) → IsReadable p octet_string_type (octet_string bytes)
    readable_text : {p : FieldParameters} (s : List ℕ) → IsReadable p string_type (text s)
    readable_bool : {p : FieldParameters} (b : Bool) → IsReadable p bool_type (boolean b)
    readable_int : {p : FieldParameters} (i : ℕ) → i < 2 ^ 63 → IsReadable p int_type (integer i)
    readable_enumerated :
        {p : FieldParameters} (i : ℕ) → i < 2 ^ 63 → IsReadable p enumerated_type (enumerated i)
    readable_sequence :
        {params p : FieldParameters} {t : GoType} {v : Value} {ts : FieldTypes} {parts : Fields}
        → params.set ≡ false
        → params.open_type ≡ false
        → AreReadable (field_type p t ts) (field p v parts) true
        → IsReadable params (struct_type (field_type p t ts)) (sequence (field p v parts))
    readable_slice :
        {p : FieldParameters} {t : GoType} {items : Items}
        → EachIsReadable p t items
        → IsReadable p (slice_type t) (slice items)

  -- A field that is nil is optional, and has a number that no later field has; with whether there is a
  -- field that is not nil.
  pub data AreReadable : FieldTypes → Fields → Bool → Type 0 where
    no_more : AreReadable no_types no_fields false
    present :
        {p : FieldParameters} {t : GoType} {v : Value} {ts : FieldTypes} {parts : Fields} {b : Bool}
        (n : ℕ)
        → p.tag_number ≡ some n
        → IsTagged p
        → p.explicit_tag ≡ false
        → p.open_type ≡ false
        → (p.optional ≡ true → is_nil v ≡ some false)
        → IsReadable p t v
        → AreReadable ts parts b
        → AreReadable (field_type p t ts) (field p v parts) true
    absent :
        {p : FieldParameters} {t : GoType} {ts : FieldTypes} {parts : Fields} {b : Bool} (n : ℕ)
        → p.tag_number ≡ some n
        → p.optional ≡ true
        → is_nil (zero_value t) ≡ some true
        → HasNo n ts
        → AreReadable ts parts b
        → AreReadable (field_type p t ts) (field p (zero_value t) parts) b

  pub data EachIsReadable : FieldParameters → GoType → Items → Type 0 where
    no_more_items : {p : FieldParameters} {t : GoType} → EachIsReadable p t no_items
    one_more :
        {p : FieldParameters} {t : GoType} {v : Value} {items : Items}
        → IsReadable p t v
        → EachIsReadable p t items
        → EachIsReadable p t (item v items)

pub IsReadable-AreTagged :
    {p : FieldParameters} {t : GoType} {v : Value} → IsReadable p t v → AreTagged v
unfolding AreTagged
IsReadable-AreTagged (readable_pointer h) = IsReadable-AreTagged h
IsReadable-AreTagged (readable_wrapped h) = IsReadable-AreTagged h
IsReadable-AreTagged (readable_octets bytes) = tt
IsReadable-AreTagged (readable_text s) = tt
IsReadable-AreTagged (readable_bool b) = tt
IsReadable-AreTagged (readable_int i small) = tt
IsReadable-AreTagged (readable_enumerated i small) = tt
IsReadable-AreTagged (readable_sequence set closed h) = tt
IsReadable-AreTagged (readable_slice h) = tt

-- How a field that is present, or nil, is encoded.
pub choose_present :
    (p : FieldParameters) (nil : Option Bool) (m : Made) (r : Bool × Made)
    → p.open_type ≡ false
    → (p.optional ≡ true → nil ≡ some false)
    → choose_field p nil m r ≡ before_fields m r
choose_present p nil m r closed there = elim (Bool-cases p.optional) [
  | inl e ↦ rw (e, there e, closed) refl
  | inr e ↦ rw (e, closed) refl
]

pub choose_absent :
    (p : FieldParameters) (nil : Option Bool) (m : Made) (r : Bool × Made)
    → p.optional ≡ true
    → nil ≡ some true
    → choose_field p nil m r ≡ r
choose_absent p nil m r optional there = rw (optional, there) refl
