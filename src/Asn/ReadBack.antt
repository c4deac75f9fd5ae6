-- ===== src/Asn/ReadBack.antt =====
-- Values that are encoded and read again (`makeField` of cdr/asn/ber_marshal.go and `ParseField` of
-- cdr/asn/ber_unmarshal.go).
use mathlib.Core.Path.{subst}
use chf.Base.{ℕ, ◌^◌, ◌<◌, ◌≡◌, refl, sym, arith, Bool, true, false, List, [], ◌∷◌, none, length}
use chf.Asn.{
  FieldParameters, Value, Fields, Items, octet_string, enumerated, boolean, integer, text, field,
}
use chf.Asn.Digits.{encode_int64}
use chf.Asn.Tag.{ok}
use chf.Asn.IntegerRoundTrip.{parse-encode_int64}
use chf.Asn.Marshal.{
  Made, made, failed, failed_empty, panics, is_nil, make_field, make_fields, make_items,
}
use chf.Asn.Framing.{IsTagged}
use chf.Asn.Element.{make_field-IsFramed}
use chf.Asn.Unmarshal.{
  GoType, FieldTypes, field_type, octet_string_type, enumerated_type, bool_type, int_type,
  string_type, zero_value, parse_field,
}
use chf.Asn.Readable.{
  choose_present, choose_absent, IsReadable, AreReadable, EachIsReadable, IsReadable-AreTagged,
  readable_pointer, readable_wrapped, readable_octets, readable_text, readable_bool, readable_int,
  readable_enumerated, readable_sequence, readable_slice, no_more, present, absent, no_more_items,
  one_more,
}
use chf.Asn.Encodable.{IsMade, make_field-IsMade}
use chf.Asn.ReadParts.{
  ReadsBack, FieldsReadBack, ItemsReadBack, framed-IsHead, reads_universal, reads_sequence,
  reads_slice, reads_pointer, reads_wrapped, reads_present, reads_absent, reads_item,
  reads_no_fields, reads_no_items,
}

mutual
  unfolding make_field parse_field

  make_field-ReadsBack :
      {params : FieldParameters} {t : GoType} {v : Value} (outer : FieldParameters)
      → IsTagged outer
      → outer.explicit_tag ≡ false
      → IsReadable params t v
      → ReadsBack params t v (make_field outer v)
  make_field-ReadsBack {params} outer tagged implicit (readable_pointer {t = t} {v = v} h) =
      reads_pointer params t v (make_field outer v) (make_field-ReadsBack outer tagged implicit h)
  make_field-ReadsBack {params} outer tagged implicit (readable_wrapped {t = t} {v = v} h) =
      reads_wrapped params t v (make_field outer v) (make_field-ReadsBack outer tagged implicit h)
  make_field-ReadsBack {params} outer tagged implicit (readable_octets bytes) =
      reads_universal outer tagged implicit params octet_string_type (octet_string bytes) false 4
        bytes (omega arith) (λ b spare small e. rw e refl)
  make_field-ReadsBack {params} outer tagged implicit (readable_text s) =
      reads_universal outer tagged implicit params string_type (text s) false outer.string_type s
        (tagged.0) (λ b spare small e. rw e refl)
  make_field-ReadsBack {params} outer tagged implicit (readable_bool true) =
      reads_universal outer tagged implicit params bool_type (boolean true) false 1 (0xff ∷ [])
        (omega arith) (λ b spare small e. rw e refl)
  make_field-ReadsBack {params} outer tagged implicit (readable_bool false) =
      reads_universal outer tagged implicit params bool_type (boolean false) false 1 (0 ∷ [])
        (omega arith) (λ b spare small e. rw e refl)
  make_field-ReadsBack {params} outer tagged implicit (readable_int i fits) =
      reads_universal outer tagged implicit params int_type (integer i) false 2 (encode_int64 i)
        (omega arith) (λ b spare small e. rw (e, parse-encode_int64 i fits) refl)
  make_field-ReadsBack {params} outer tagged implicit (readable_enumerated i fits) =
      reads_universal outer tagged implicit params enumerated_type (enumerated i) false 10
        (encode_int64 i) (omega arith) (λ b spare small e. rw (e, parse-encode_int64 i fits) refl)
  make_field-ReadsBack {params} outer tagged implicit
        (readable_sequence {p = p} {t = t} {v = v} {ts = ts} {parts = parts} set closed h) =
      reads_sequence outer tagged implicit params p t v ts parts (make_fields (field p v parts)) set
        closed (make_fields-ReadBack h)
  make_field-ReadsBack {params} outer tagged implicit (readable_slice {t = t} {items = items} h) =
      reads_slice outer tagged implicit params t items
        (make_items (record outer { tag_number = none }) items)
        (make_items-ReadBack (record outer { tag_number = none }) (tagged.0, tt) implicit h)

  make_fields-ReadBack :
      {ts : FieldTypes} {parts : Fields} {b : Bool}
      → AreReadable ts parts b
      → FieldsReadBack ts parts (make_fields parts)
  make_fields-ReadBack no_more = reads_no_fields
  make_fields-ReadBack
        (present {p = p} {t = t} {v = v} {ts = ts} {parts = parts} n e tagged implicit closed there
          h rest) =
      subst (FieldsReadBack (field_type p t ts) (field p v parts))
        (sym (choose_present p (is_nil v) (make_field p v) (make_fields parts) closed there))
        (reads_present p t v ts parts n e (make_field p v) (make_fields parts)
          (framed-IsHead p (make_field p v)
            (make_field-IsFramed p v tagged (IsReadable-AreTagged h)))
          (make_field-ReadsBack p tagged implicit h) (make_fields-ReadBack rest))
  make_fields-ReadBack
        (absent {p = p} {t = t} {ts = ts} {parts = parts} n e optional nil none_later rest) =
      subst (FieldsReadBack (field_type p t ts) (field p (zero_value t) parts))
        (sym (
          choose_absent p (is_nil (zero_value t)) (make_field p (zero_value t)) (make_fields parts)
            optional nil))
        (reads_absent p t (zero_value t) ts parts n e (make_fields parts) none_later
          (make_fields-ReadBack rest))

  make_items-ReadBack :
      {params : FieldParameters} {t : GoType} {items : Items} (outer : FieldParameters)
      → IsTagged outer
      → outer.explicit_tag ≡ false
      → EachIsReadable params t items
      → ItemsReadBack params t items (make_items outer items)
  make_items-ReadBack {params} {t} outer tagged implicit no_more_items = reads_no_items params t
  make_items-ReadBack {params} outer tagged implicit
        (one_more {t = t} {v = v} {items = items} h rest) =
      reads_item outer params t v items (make_field outer v) (make_items outer items)
        (framed-IsHead outer (make_field outer v)
          (make_field-IsFramed outer v tagged (IsReadable-AreTagged h)))
        (make_field-ReadsBack outer tagged implicit h)
        (make_items-ReadBack outer tagged implicit rest)

abbrev pub made_size : Made → ℕ
made_size (made bytes) = length bytes
made_size _ = 0

IsMade-ReadsBack :
    (params : FieldParameters) (t : GoType) (v : Value) (m : Made) (spare : List ℕ)
    → IsMade m
    → ReadsBack params t v m
    → made_size m < 2 ^ 24
    → (bytes : List ℕ) × (m ≡ made bytes) × (parse_field t params bytes spare ≡ ok v)
unfolding IsMade ReadsBack
IsMade-ReadsBack params t v (made bytes) spare h read small = (bytes, refl, (read small spare).0)
IsMade-ReadsBack params t v failed spare h read small = absurd h
IsMade-ReadsBack params t v failed_empty spare h read small = absurd h
IsMade-ReadsBack params t v panics spare h read small = absurd h

-- A readable value (octets, a string, a Boolean, an integer or an enumerated number from 0 to 2^63
-- - 1, a slice of readable values, or a sequence of fields with tag numbers, where a field is
-- readable, or optional, nil and without its number at a later field, and not all are nil; behind
-- any pointers and wrappers) that is encoded with tags in their range and no explicit tags, into
-- fewer than 2^24 bytes, is encoded without an error or a panic, and reading its bytes with the
-- same parameters and its type returns it.
pub parse_field-make_field :
    (params : FieldParameters) (t : GoType) (v : Value) (spare : List ℕ)
    → IsTagged params
    → params.explicit_tag ≡ false
    → IsReadable params t v
    → made_size (make_field params v) < 2 ^ 24
    → (bytes : List ℕ) × (make_field params v ≡ made bytes)
      × (parse_field t params bytes spare ≡ ok v)
parse_field-make_field params t v spare tagged implicit readable small =
    IsMade-ReadsBack params t v (make_field params v) spare (make_field-IsMade params readable)
      (make_field-ReadsBack params tagged implicit readable) small
