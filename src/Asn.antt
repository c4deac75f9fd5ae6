-- ===== src/Asn.antt =====
-- BER encoding (cdr/asn): the Go values that reflection shows to it, and the parameters of a field.
pub mod Digits
pub mod Params
pub mod Tag
pub mod Marshal
pub mod Positional
pub mod Integers
pub mod IntegerRoundTrip
pub mod TagRead
pub mod TagRoundTrip
pub mod Unmarshal
pub mod Framing
pub mod Element
pub mod Split
pub mod Sequence
pub mod Readable
pub mod ReadParts
pub mod Encodable
pub mod ReadBack
mod Tests
use chf.Base.{ℕ, Bool, Option, List}

-- A uint64 tag number and an int64 length.
pub record TagAndLen : Type 0 where
  pub class : ℕ
  pub constructed : Bool
  pub tag_number : ℕ
  pub len : ℕ

-- The parameters that encoding and decoding read; the others are parsed and not used.
pub record FieldParameters : Type 0 where
  pub optional : Bool
  pub open_type : Bool
  pub tag_number : Option ℕ
  pub explicit_tag : Bool
  pub set : Bool
  pub string_type : ℕ

-- A value by its kind, where the types of package asn come first. A pointer or an interface points to
-- a value or is nil, and a slice is nil or has elements. `wrapped` is a struct whose first field is
-- named Value or List, `choice` one whose first field is Present; integers are int64 patterns.
mutual
  pub data Value : Type 0 where
    nil_pointer : Value
    pointer : Value → Value
    bit_string : List ℕ → ℕ → Value
    nil_object_identifier : Value
    object_identifier : Value
    nil_octet_string : Value
    octet_string : List ℕ → Value
    enumerated : ℕ → Value
    null : Value
    boolean : Bool → Value
    integer : ℕ → Value
    text : List ℕ → Value
    wrapped : Value → Value
    choice : ℕ → Fields → Value
    sequence : Fields → Value
    nil_slice : Value
    slice : Items → Value
    other : Value

  pub data Fields : Type 0 where
    no_fields : Fields
    field : FieldParameters → Value → Fields → Fields

  pub data Items : Type 0 where
    no_items : Items
    item : Value → Items → Items
