-- ===== src/Asn/ReadParts.antt =====
-- Reading a value whose parts are read as they were encoded (`makeField` of cdr/asn/ber_marshal.go and
-- `ParseField` of cdr/asn/ber_unmarshal.go).
use mathlib.Core.Path.{subst}
use chf.Base.{
  ℕ, ◌^◌, ◌<◌, ◌≡◌, refl, ap, ◌∙◌, arith, Bool, true, false, List, [], ◌++◌, some, length,
  length-append, if◌then◌else◌,
}
use chf.Asn.{
  FieldParameters, Value, Fields, Items, pointer, wrapped, sequence, slice, no_fields, field,
  no_items, item,
}
use chf.Asn.Tag.{ok, parse_tag_and_length}
use chf.Asn.Marshal.{
  Made, made, failed, failed_empty, panics, universal, finish, finish_sequence, finish_slice,
  before, before_fields,
}
use chf.Asn.Framing.{collection_number, IsNumber, IsTagged, IsElement, IsFramedIfMade}
use chf.Asn.Element.{read_framed}
use chf.Asn.Unmarshal.{
  GoType, FieldTypes, no_types, field_type, pointer_type, wrapped_type, struct_type, slice_type,
  zero_value, value_of, parsed_map, element, elements, split_end, parse_items, parse_field,
  parse_sequence,
}
use chf.Asn.Sequence.{
  HasNo, elements-append, parse_sequence-hit, parse_sequence-skip, parse_sequence-no_elements,
  parse_field-struct,
}
use chf.Asn.Readable.{value_of-finish, finish-size}

-- The element is read, and so is its value, as the wrappers do.
unfoldable pub ReadsBack : FieldParameters → GoType → Value → Made → Type 0
ReadsBack params t v (made bytes) =
    length bytes < 2 ^ 24
    → (spare : List ℕ)
    → (parse_field t params bytes spare ≡ ok v)
      × ((value : List ℕ) × (value_of bytes spare ≡ ok value))
ReadsBack params t v _ = Unit

unfoldable pub FieldsReadBack : FieldTypes → Fields → Bool × Made → Type 0
FieldsReadBack ts parts (set, made value) =
    length value < 2 ^ 24
    → (spare : List ℕ) → parse_sequence false ts (elements (length value) value spare) ≡ ok parts
FieldsReadBack ts parts _ = Unit

unfoldable pub ItemsReadBack : FieldParameters → GoType → Items → Made → Type 0
ItemsReadBack params t items (made value) =
    length value < 2 ^ 24
    → (spare : List ℕ)
    → (split_end (elements (length value) value spare) ≡ ok 0)
      × (parse_items (parse_field t params) (elements (length value) value spare) ≡ ok items)
ItemsReadBack params t items _ = Unit

-- The bytes are an element in front of any others.
unfoldable pub IsHead : FieldParameters → Made → Type 0
IsHead params (made bytes) =
    length bytes < 2 ^ 24
    → (rest spare : List ℕ) → IsElement params bytes (parse_tag_and_length (bytes ++ rest) spare)
IsHead params _ = Unit

pub framed-IsHead :
    (params : FieldParameters) (m : Made) → IsFramedIfMade params m → IsHead params m
unfolding IsHead
framed-IsHead params (made bytes) h =
    λ small rest spare. read_framed params (made bytes) bytes rest spare h refl small
framed-IsHead params failed h = tt
framed-IsHead params failed_empty h = tt
framed-IsHead params panics h = tt

module _ (outer : FieldParameters) (tagged : IsTagged outer)
    (implicit : outer.explicit_tag ≡ false) where
  pub reads_universal :
      (params : FieldParameters) (t : GoType) (v : Value) (constructed : Bool) (number : ℕ)
      (value : List ℕ)
      → number < 2 ^ 63
      → ((bytes spare : List ℕ)
          → length value < 2 ^ 24
          → value_of bytes spare ≡ ok value
          → parse_field t params bytes spare ≡ ok v)
      → ReadsBack params t v (made (finish outer (universal constructed number) value))
  unfolding ReadsBack
  reads_universal params t v constructed number value fits h = λ small spare.
      let e =
        value_of-finish outer (universal constructed number) value spare tagged implicit
          (omega arith) fits small in
      (
        h (finish outer (universal constructed number) value) spare
            (omega (arith, finish-size outer (universal constructed number) value implicit)) e,
        (value, e),
      )

  pub reads_sequence :
      (params p : FieldParameters) (t : GoType) (v : Value) (ts : FieldTypes) (parts : Fields)
      (r : Bool × Made)
      → params.set ≡ false
      → params.open_type ≡ false
      → FieldsReadBack (field_type p t ts) (field p v parts) r
      → ReadsBack params
          (struct_type (field_type p t ts))
          (sequence (field p v parts))
          (finish_sequence outer r)
  unfolding FieldsReadBack ReadsBack parse_field
  reads_sequence params p t v ts parts (true, made value) set closed h =
      reads_universal params (struct_type (field_type p t ts)) (sequence (field p v parts)) true
        (if outer.set then 17 else 16) value (collection_number outer.set)
        (λ bytes spare small e.
          parse_field-struct params p t ts bytes spare value set closed e
          ∙ ap (parsed_map sequence) (h small spare))
  reads_sequence params p t v ts parts (false, made value) set closed h = tt
  reads_sequence params p t v ts parts (b, failed) set closed h = tt
  reads_sequence params p t v ts parts (b, failed_empty) set closed h = tt
  reads_sequence params p t v ts parts (b, panics) set closed h = tt

  pub reads_slice :
      (params : FieldParameters) (t : GoType) (items : Items) (m : Made)
      → ItemsReadBack params t items m
      → ReadsBack params (slice_type t) (slice items) (finish_slice outer m)
  unfolding ItemsReadBack ReadsBack parse_field
  reads_slice params t items (made value) h =
      reads_universal params (slice_type t) (slice items) true (if outer.set then 17 else 16) value
        (collection_number outer.set)
        (λ bytes spare small e.
          rw (e, (h small spare).0) (ap (parsed_map slice) ((h small spare).1)))
  reads_slice params t items failed h = tt
  reads_slice params t items failed_empty h = tt
  reads_slice params t items panics h = tt

pub reads_pointer :
    (params : FieldParameters) (t : GoType) (v : Value) (m : Made)
    → ReadsBack params t v m
    → ReadsBack params (pointer_type t) (pointer v) m
unfolding ReadsBack parse_field
reads_pointer params t v (made bytes) h =
    λ small spare. (ap (parsed_map pointer) ((h small spare).0), (h small spare).1)
reads_pointer params t v failed h = tt
reads_pointer params t v failed_empty h = tt
reads_pointer params t v panics h = tt

pub reads_wrapped :
    (params : FieldParameters) (t : GoType) (v : Value) (m : Made)
    → ReadsBack params t v m
    → ReadsBack params (wrapped_type t) (wrapped v) m
unfolding ReadsBack parse_field
reads_wrapped params t v (made bytes) h = λ small spare.
    let (value, e) = (h small spare).1 in
    (rw e (ap (parsed_map wrapped) ((h small spare).0)), (value, e))
reads_wrapped params t v failed h = tt
reads_wrapped params t v failed_empty h = tt
reads_wrapped params t v panics h = tt

module _ (p : FieldParameters) (t : GoType) (v : Value) (ts : FieldTypes) (parts : Fields) (n : ℕ)
    (e : p.tag_number ≡ some n) where
  pub reads_present :
      (m : Made) (r : Bool × Made)
      → IsHead p m
      → ReadsBack p t v m
      → FieldsReadBack ts parts r
      → FieldsReadBack (field_type p t ts) (field p v parts) (before_fields m r)
  unfolding IsHead ReadsBack FieldsReadBack
  reads_present (made bytes) (b, made rest) head h k = λ small spare.
      let size = length-append bytes rest in
      let (tag, number, first) =
        elements-append p bytes rest spare (head (omega arith) rest spare) in
      let same : tag ≡ n = subst (λ o. IsNumber o tag) e number in
      let els = elements (length rest) rest spare in
      ap (parse_sequence false (field_type p t ts))
        (first ∙ ap (λ k'. element k' bytes (rest ++ spare) els) same)
      ∙ parse_sequence-hit p t ts n bytes (rest ++ spare) els e
      ∙ rw ((h (omega arith) (rest ++ spare)).0)
          (ap (parsed_map (field p v)) (k (omega arith) spare))
  reads_present (made bytes) (b, failed) head h k = tt
  reads_present (made bytes) (b, failed_empty) head h k = tt
  reads_present (made bytes) (b, panics) head h k = tt
  reads_present failed r head h k = tt
  reads_present failed_empty r head h k = tt
  reads_present panics r head h k = tt

  pub reads_absent :
      (r : Bool × Made)
      → HasNo n ts
      → FieldsReadBack ts parts r
      → FieldsReadBack (field_type p t ts) (field p (zero_value t) parts) r
  unfolding FieldsReadBack
  reads_absent (b, made value) none_later h = λ small spare.
      parse_sequence-skip p t ts n (elements (length value) value spare) parts e none_later
        (h small spare)
  reads_absent (b, failed) none_later h = tt
  reads_absent (b, failed_empty) none_later h = tt
  reads_absent (b, panics) none_later h = tt

pub reads_item :
    (outer params : FieldParameters) (t : GoType) (v : Value) (items : Items) (m r : Made)
    → IsHead outer m
    → ReadsBack params t v m
    → ItemsReadBack params t items r
    → ItemsReadBack params t (item v items) (before m r)
unfolding IsHead ReadsBack ItemsReadBack
reads_item outer params t v items (made bytes) (made rest) head h k = λ small spare.
    let size = length-append bytes rest in
    let (tag, number, first) =
      elements-append outer bytes rest spare (head (omega arith) rest spare) in
    let later = k (omega arith) spare in
    rw (first, (h (omega arith) (rest ++ spare)).0) (later.0, ap (parsed_map (item v)) (later.1))
reads_item outer params t v items (made bytes) failed head h k = tt
reads_item outer params t v items (made bytes) failed_empty head h k = tt
reads_item outer params t v items (made bytes) panics head h k = tt
reads_item outer params t v items failed r head h k = tt
reads_item outer params t v items failed_empty r head h k = tt
reads_item outer params t v items panics r head h k = tt

pub reads_no_fields : FieldsReadBack no_types no_fields (false, made [])
unfolding FieldsReadBack elements zero_value
reads_no_fields = λ small spare. parse_sequence-no_elements no_types

pub reads_no_items :
    (params : FieldParameters) (t : GoType) → ItemsReadBack params t no_items (made [])
unfolding ItemsReadBack elements
reads_no_items params t = λ small spare. (refl, refl)
