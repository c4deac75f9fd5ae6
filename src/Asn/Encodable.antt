-- ===== src/Asn/Encodable.antt =====
-- Readable values are encoded without an error or a panic (`makeField` of cdr/asn/ber_marshal.go).
use mathlib.Core.Path.{subst}
use chf.Base.{◌≡◌, refl, sym, Bool, true, false, none}
use chf.Asn.{FieldParameters, Value, Fields, Items, field}
use chf.Asn.Marshal.{
  Made, made, failed, failed_empty, panics, finish_sequence, finish_slice, before, before_fields,
  is_nil, make_field, make_fields, make_items,
}
use chf.Asn.Unmarshal.{GoType, FieldTypes, zero_value}
use chf.Asn.Readable.{
  choose_present, choose_absent, IsReadable, AreReadable, EachIsReadable, readable_pointer,
  readable_wrapped, readable_octets, readable_text, readable_bool, readable_int,
  readable_enumerated, readable_sequence, readable_slice, no_more, present, absent, no_more_items,
  one_more,
}

unfoldable pub IsMade : Made → Type 0
IsMade (made bytes) = Unit
IsMade _ = ⊥

finish_sequence-IsMade :
    (outer : FieldParameters) (r : Bool × Made)
    → r.0 ≡ true
    → IsMade (r.1)
    → IsMade (finish_sequence outer r)
unfolding IsMade
finish_sequence-IsMade outer (true, made value) set h = tt
finish_sequence-IsMade outer (false, m) set h = cc
finish_sequence-IsMade outer (true, failed) set h = absurd h
finish_sequence-IsMade outer (true, failed_empty) set h = absurd h
finish_sequence-IsMade outer (true, panics) set h = absurd h

finish_slice-IsMade :
    (outer : FieldParameters) (m : Made) → IsMade m → IsMade (finish_slice outer m)
unfolding IsMade
finish_slice-IsMade outer (made value) h = tt
finish_slice-IsMade outer failed h = absurd h
finish_slice-IsMade outer failed_empty h = absurd h
finish_slice-IsMade outer panics h = absurd h

before-IsMade : (m r : Made) → IsMade m → IsMade r → IsMade (before m r)
unfolding IsMade
before-IsMade (made value) (made rest) h k = tt
before-IsMade (made value) failed h k = absurd k
before-IsMade (made value) failed_empty h k = absurd k
before-IsMade (made value) panics h k = absurd k
before-IsMade failed r h k = absurd h
before-IsMade failed_empty r h k = absurd h
before-IsMade panics r h k = absurd h

AreMade : Bool → Bool × Made → Type 0
AreMade b r = (r.0 ≡ b) × IsMade (r.1)

before_fields-AreMade :
    (m : Made) (b : Bool) (r : Bool × Made)
    → IsMade m
    → AreMade b r
    → AreMade true (before_fields m r)
unfolding AreMade
before_fields-AreMade m b (set, rest) h k = (refl, before-IsMade m rest h (k.1))

mutual
  unfolding make_field IsMade AreMade

  pub make_field-IsMade :
      {params : FieldParameters} {t : GoType} {v : Value} (outer : FieldParameters)
      → IsReadable params t v
      → IsMade (make_field outer v)
  make_field-IsMade outer (readable_pointer h) = make_field-IsMade outer h
  make_field-IsMade outer (readable_wrapped h) = make_field-IsMade outer h
  make_field-IsMade outer (readable_octets bytes) = tt
  make_field-IsMade outer (readable_text s) = tt
  make_field-IsMade outer (readable_bool true) = tt
  make_field-IsMade outer (readable_bool false) = tt
  make_field-IsMade outer (readable_int i fits) = tt
  make_field-IsMade outer (readable_enumerated i fits) = tt
  make_field-IsMade outer (readable_sequence {p = p} {v = v} {parts = parts} set closed h) =
      let every = make_fields-AreMade h in
      finish_sequence-IsMade outer (make_fields (field p v parts)) (every.0) (every.1)
  make_field-IsMade outer (readable_slice {items = items} h) =
      finish_slice-IsMade outer (make_items (record outer { tag_number = none }) items)
        (make_items-IsMade (record outer { tag_number = none }) h)

  make_fields-AreMade :
      {ts : FieldTypes} {parts : Fields} {b : Bool}
      → AreReadable ts parts b
      → AreMade b (make_fields parts)
  make_fields-AreMade no_more = (refl, tt)
  make_fields-AreMade
        (present {p = p} {v = v} {parts = parts} {b = b} n e tagged implicit closed there h rest) =
      subst (AreMade true)
        (sym (choose_present p (is_nil v) (make_field p v) (make_fields parts) closed there))
        (before_fields-AreMade (make_field p v) b (make_fields parts) (make_field-IsMade p h)
          (make_fields-AreMade rest))
  make_fields-AreMade
        (absent {p = p} {t = t} {parts = parts} {b = b} n e optional nil none_later rest) =
      subst (AreMade b)
        (sym (
          choose_absent p (is_nil (zero_value t)) (make_field p (zero_value t)) (make_fields parts)
            optional nil))
        (make_fields-AreMade rest)

  make_items-IsMade :
      {params : FieldParameters} {t : GoType} {items : Items} (outer : FieldParameters)
      → EachIsReadable params t items
      → IsMade (make_items outer items)
  make_items-IsMade outer no_more_items = tt
  make_items-IsMade outer (one_more {v = v} {items = items} h rest) =
      before-IsMade (make_field outer v) (make_items outer items) (make_field-IsMade outer h)
        (make_items-IsMade outer rest)
