-- ===== src/Asn/Framing.antt =====
-- What a field is encoded to: one element with a tag and its length (`makeField` of
-- cdr/asn/ber_marshal.go).
use chf.Base.{
  ℕ, ◌+◌, ◌^◌, ◌<◌, if◌then◌else◌, ◌≡◌, refl, sym, ◌∙◌, arith, Bool, true, false, List, [], Option,
  none, some, length, inl, inr, Bool-cases, Option-cases,
}
use chf.Asn.{
  TagAndLen, FieldParameters, Value, Fields, pointer, wrapped, choice, sequence, no_fields, field,
}
use chf.Asn.Tag.{Parsed, ok}
use chf.Asn.Marshal.{
  Made, made, failed, failed_empty, panics, frame, universal, finish, is_nil, make_field,
  make_fields, collection, finish_choice, finish_sequence, finish_slice,
}

-- Fields that are optional and nil.
abbrev pub AreAbsent : Fields → Type 0
AreAbsent no_fields = Unit
AreAbsent (field p v fields) = (p.optional ≡ true) × (is_nil v ≡ some true) × AreAbsent fields

make_fields-absent : (fields : Fields) → AreAbsent fields → make_fields fields ≡ (false, made [])
unfolding make_fields
make_fields-absent no_fields absent = refl
make_fields-absent (field p v fields) (optional, nil, absent) =
    rw (optional, nil) (make_fields-absent fields absent)

-- Encoding a struct whose fields are all optional and nil panics.
pub make_field-absent :
    (params : FieldParameters) (fields : Fields)
    → AreAbsent fields
    → make_field params (sequence fields) ≡ panics
unfolding make_field
make_field-absent params no_fields absent = refl
make_field-absent params (field p v fields) absent =
    rw (make_fields-absent (field p v fields) absent) refl

abbrev pub IsSmall : Option ℕ → Type 0
IsSmall none = Unit
IsSmall (some n) = n < 2 ^ 63

pub small_number : (o : Option ℕ) (n : ℕ) → IsSmall o → o ≡ some n → n < 2 ^ 63
small_number none n h e = cc
small_number (some m) n h e = (let same : m ≡ n = cc in omega arith)

-- Tag numbers below 2^63, of a field and of the alternatives of choices.
abbrev pub IsTagged : FieldParameters → Type 0
IsTagged params = (params.string_type < 2 ^ 63) × IsSmall params.tag_number

unfoldable mutual
  pub AreTagged : Value → Type 0
  AreTagged (pointer v) = AreTagged v
  AreTagged (wrapped v) = AreTagged v
  AreTagged (choice present parts) = AreFieldsTagged parts
  AreTagged _ = Unit

  pub AreFieldsTagged : Fields → Type 0
  AreFieldsTagged no_fields = Unit
  AreFieldsTagged (field p v fields) = IsTagged p × AreTagged v × AreFieldsTagged fields

-- One element, with the tag number of the parameters if they have one.
abbrev pub IsFramed : FieldParameters → List ℕ → Type 0
IsFramed params bytes =
    (t : TagAndLen) × (value : List ℕ) × (bytes ≡ frame t value)
    × (t.class < 4)
    × (t.tag_number < 2 ^ 63)
    × ((n : ℕ) → params.tag_number ≡ some n → t.tag_number ≡ n)

-- The number that is asked for, if any.
abbrev pub IsNumber : Option ℕ → ℕ → Type 0
IsNumber none number = Unit
IsNumber (some n) number = number ≡ n

pub is_number :
    (o : Option ℕ) (number : ℕ) → ((n : ℕ) → o ≡ some n → number ≡ n) → IsNumber o number
is_number none number h = tt
is_number (some n) number h = h n refl

-- Where the tag is read, with the tag number of the parameters if they have one, and the element that
-- it heads ends with the bytes.
abbrev pub IsElement : FieldParameters → List ℕ → Parsed (TagAndLen × ℕ) → Type 0
IsElement params bytes (ok (t, off)) =
    (off + t.len ≡ length bytes) × IsNumber params.tag_number t.tag_number
IsElement params bytes _ = ⊥

unfoldable pub IsFramedIfMade : FieldParameters → Made → Type 0
IsFramedIfMade params (made bytes) = IsFramed params bytes
IsFramedIfMade params _ = Unit

numbered :
    (params : FieldParameters) (t : TagAndLen) (value : List ℕ) (number : ℕ)
    → params.tag_number ≡ some number
    → t.class < 4
    → t.tag_number ≡ number
    → number < 2 ^ 63
    → IsFramed params (frame t value)
numbered params t value number e class same small = (
  t,
  value,
  refl,
  class,
  omega arith,
  λ n f. (let p : some number ≡ some n = sym e ∙ f in same ∙ cc),
)

pub finish-none :
    (params : FieldParameters) (tag : TagAndLen) (value : List ℕ)
    → params.tag_number ≡ none
    → finish params tag value ≡ frame tag value
unfolding finish
finish-none params tag value e = rw e refl

finish-explicit :
    (params : FieldParameters) (tag : TagAndLen) (value : List ℕ) (number : ℕ)
    → params.tag_number ≡ some number
    → params.explicit_tag ≡ true
    → finish params tag value
      ≡ frame
          (record { class = 2; constructed = true; tag_number = number; len = 0 })
          (frame tag value)
unfolding finish
finish-explicit params tag value number e x = rw (e, x) refl

pub finish-implicit :
    (params : FieldParameters) (tag : TagAndLen) (value : List ℕ) (number : ℕ)
    → params.tag_number ≡ some number
    → params.explicit_tag ≡ false
    → finish params tag value ≡ frame (record tag { class = 2; tag_number = number }) value
unfolding finish
finish-implicit params tag value number e x = rw (e, x) refl

finish-IsFramed :
    (params : FieldParameters) (tag : TagAndLen) (value : List ℕ)
    → IsTagged params
    → tag.class < 4
    → tag.tag_number < 2 ^ 63
    → IsFramed params (finish params tag value)
finish-IsFramed params tag value (string, tagged) class small =
    elim (Option-cases params.tag_number) [
      | inl e ↦ (
        tag,
        value,
        finish-none params tag value e,
        class,
        small,
        λ n f. (let no : none ≡ some n = sym e ∙ f in cc),
      )
      | inr (number, e) ↦ elim (Bool-cases params.explicit_tag) [
        | inl x ↦
            let outer : TagAndLen = record {
              class = 2;
              constructed = true;
              tag_number = number;
              len = 0;
            } in
            rw (finish-explicit params tag value number e x) (
              numbered params outer (frame tag value) number e (omega arith) refl
                (small_number params.tag_number number tagged e))
        | inr x ↦
            let outer : TagAndLen = record tag { class = 2; tag_number = number } in
            rw (finish-implicit params tag value number e x) (
              numbered params outer value number e (omega arith) refl
                (small_number params.tag_number number tagged e))
      ]
    ]

pub universal-IsFramed :
    (params : FieldParameters) (constructed : Bool) (number : ℕ) (value : List ℕ)
    → IsTagged params
    → number < 2 ^ 63
    → IsFramed params (finish params (universal constructed number) value)
universal-IsFramed params constructed number value tagged small =
    finish-IsFramed params (universal constructed number) value tagged (omega arith) small

pub collection_number : (set : Bool) → (if set then 17 else 16) < 2 ^ 63
collection_number true = omega arith
collection_number false = omega arith

pub collection-IsFramed :
    (params : FieldParameters) (value : List ℕ)
    → IsTagged params
    → IsFramed params (finish params (collection params) value)
collection-IsFramed params value tagged =
    universal-IsFramed params true (if params.set then 17 else 16) value tagged
      (collection_number params.set)

pub finish_choice-IsFramed :
    (params : FieldParameters) (m : Made)
    → IsTagged params
    → IsFramedIfMade params (finish_choice params m)
unfolding IsFramedIfMade
finish_choice-IsFramed params (made value) tagged =
    universal-IsFramed params true 0 value tagged (omega arith)
finish_choice-IsFramed params failed tagged = tt
finish_choice-IsFramed params failed_empty tagged =
    universal-IsFramed params true 0 [] tagged (omega arith)
finish_choice-IsFramed params panics tagged = tt

pub finish_sequence-IsFramed :
    (params : FieldParameters) (set : Bool) (m : Made)
    → IsTagged params
    → IsFramedIfMade params (finish_sequence params (set, m))
unfolding IsFramedIfMade
finish_sequence-IsFramed params true (made value) tagged = collection-IsFramed params value tagged
finish_sequence-IsFramed params false (made value) tagged = tt
finish_sequence-IsFramed params set failed tagged = tt
finish_sequence-IsFramed params set failed_empty tagged = tt
finish_sequence-IsFramed params set panics tagged = tt

pub finish_slice-IsFramed :
    (params : FieldParameters) (m : Made)
    → IsTagged params
    → IsFramedIfMade params (finish_slice params m)
unfolding IsFramedIfMade
finish_slice-IsFramed params (made value) tagged = collection-IsFramed params value tagged
finish_slice-IsFramed params failed tagged = tt
finish_slice-IsFramed params failed_empty tagged = tt
finish_slice-IsFramed params panics tagged = tt

-- A field without a tag number asks for no number.
pub unnumbered :
    (params p : FieldParameters) (m : Made)
    → params.tag_number ≡ none
    → IsFramedIfMade p m
    → IsFramedIfMade params m
unfolding IsFramedIfMade
unnumbered params p (made bytes) e (t, value, f, class, small, same) =
    (t, value, f, class, small, λ n h. (let no : none ≡ some n = sym e ∙ h in cc))
unnumbered params p failed e h = tt
unnumbered params p failed_empty e h = tt
unnumbered params p panics e h = tt
