-- ===== src/CdrFile/Header.antt =====
-- The bytes of a written file header, part by part, and what `Decoding` reads at each of them
-- (cdr/cdrFile/cdrFile.go).
use chf.Base.{
  ℕ, ◌+◌, ◌^◌, ◌<◌, ◌≡◌, ◌≢◌, refl, sym, ap, ◌∙◌, arith, List, [], ◌∷◌, ◌++◌, append_assoc, some,
  ◌==◌, get_elem?, length, length-append, inl, inr, Bool-cases,
}
use chf.Base.Bytes.{put_u16, put_u32, uint16_bytes}
use chf.CdrFile.{CdrFileHeader}
use chf.CdrFile.Encode.{pack_timestamp, identifier_octet, put_extension, encode_header}
use chf.CdrFile.Decode.{slice, read_u16, read_extension, extension_size}
use chf.CdrFile.Layout.{
  FitsTimestamp, slice_at, get_at, slice_skip, put_extension_seven, read_extension_at,
}

-- A header whose fields fit, whose variable parts have the stated lengths and end below 2^16, and
-- which has an extension octet only under release identifier 7, a low one only beside a high one.
pub record IsEncodable (h : CdrFileHeader) : Type 0 where
  pub file_length_fits : h.file_length < 2 ^ 32
  pub header_length_fits : h.header_length < 2 ^ 32
  pub high_release : h.high_release_identifier < 8
  pub high_version : h.high_version_identifier < 32
  pub low_release : h.low_release_identifier < 8
  pub low_version : h.low_version_identifier < 32
  pub opened : FitsTimestamp h.file_opening_timestamp
  pub appended : FitsTimestamp h.timestamp_when_last_cdr_was_appended_to_file
  pub number_fits : h.number_of_cdrs_in_file < 2 ^ 32
  pub sequence_fits : h.file_sequence_number < 2 ^ 32
  pub address : length h.ip_address_of_node_that_generated_file ≡ 20
  pub filter_length : h.length_of_cdr_routeing_filter ≡ length h.cdr_routeing_filter
  pub private_length : h.length_of_private_extension ≡ length h.private_extension
  pub short : 54 + length h.cdr_routeing_filter + length h.private_extension < 2 ^ 16
  pub high_extension : h.high_release_identifier ≢ 7 → h.high_release_identifier_extension ≡ 0
  pub low_extension : h.low_release_identifier ≢ 7 → h.low_release_identifier_extension ≡ 0

-- The offset behind the private extension.
abbrev pub fixed_size : CdrFileHeader → ℕ
fixed_size h = 52 + length h.cdr_routeing_filter + length h.private_extension

abbrev pub header_size : CdrFileHeader → ℕ
header_size h =
    fixed_size h
    + extension_size h.high_release_identifier
    + extension_size h.low_release_identifier

-- The written header up to its variable parts, one after the other.
module _ (h : CdrFileHeader) where
  abbrev front : List ℕ
  front = put_u32 h.file_length (
      put_u32 h.header_length (
        identifier_octet h.high_release_identifier h.high_version_identifier
        ∷ identifier_octet h.low_release_identifier h.low_version_identifier
        ∷ put_u32 (pack_timestamp h.file_opening_timestamp) (
            put_u32 (pack_timestamp h.timestamp_when_last_cdr_was_appended_to_file) (
              put_u32 h.number_of_cdrs_in_file
                (put_u32 h.file_sequence_number (h.file_closure_trigger_reason ∷ []))))))

  abbrev filter_head : List ℕ
  filter_head = h.lost_cdr_indicator ∷ put_u16 h.length_of_cdr_routeing_filter []

  abbrev to_address : List ℕ
  to_address = front ++ h.ip_address_of_node_that_generated_file

  abbrev to_filter : List ℕ
  to_filter = to_address ++ filter_head

  abbrev to_private_length : List ℕ
  to_private_length = to_filter ++ h.cdr_routeing_filter

  abbrev to_private : List ℕ
  to_private = to_private_length ++ put_u16 h.length_of_private_extension []

  abbrev pub to_extension : List ℕ
  to_extension = to_private ++ h.private_extension

  abbrev pub extensions : List ℕ → List ℕ
  extensions rest =
      put_extension h.high_release_identifier h.high_release_identifier_extension
        (put_extension h.low_release_identifier h.low_release_identifier_extension rest)

  abbrev after_private_length : List ℕ → List ℕ
  after_private_length rest = h.private_extension ++ extensions rest

  abbrev after_filter : List ℕ → List ℕ
  after_filter rest = put_u16 h.length_of_private_extension (after_private_length rest)

  at_address :
      (rest : List ℕ)
      → encode_header h rest
        ≡ to_address ++ (filter_head ++ (h.cdr_routeing_filter ++ after_filter rest))
  unfolding encode_header
  at_address rest = sym (append_assoc front h.ip_address_of_node_that_generated_file _)

  at_filter :
      (rest : List ℕ)
      → encode_header h rest ≡ to_filter ++ (h.cdr_routeing_filter ++ after_filter rest)
  at_filter rest = at_address rest ∙ sym (append_assoc to_address filter_head _)

  at_private_length :
      (rest : List ℕ)
      → encode_header h rest
        ≡ to_private_length
          ++ (put_u16 h.length_of_private_extension [] ++ after_private_length rest)
  at_private_length rest = at_filter rest ∙ sym (append_assoc to_filter h.cdr_routeing_filter _)

  at_private :
      (rest : List ℕ)
      → encode_header h rest ≡ to_private ++ (h.private_extension ++ extensions rest)
  at_private rest =
      at_private_length rest
      ∙ sym (append_assoc to_private_length (put_u16 h.length_of_private_extension []) _)

  pub at_extensions : (rest : List ℕ) → encode_header h rest ≡ to_extension ++ extensions rest
  at_extensions rest = at_private rest ∙ sym (append_assoc to_private h.private_extension _)

  module _ (w : IsEncodable h) where
    length-to_filter : length to_filter ≡ 50
    length-to_filter = omega (
      arith,
      length-append to_address filter_head,
      length-append front h.ip_address_of_node_that_generated_file,
      w.address,
    )

    length-to_private_length : length to_private_length ≡ 50 + length h.cdr_routeing_filter
    length-to_private_length =
        omega (arith, length-append to_filter h.cdr_routeing_filter, length-to_filter)

    length-to_private : length to_private ≡ 52 + length h.cdr_routeing_filter
    length-to_private = omega (
      arith,
      length-append to_private_length (put_u16 h.length_of_private_extension []),
      length-to_private_length,
    )

    pub length-to_extension : length to_extension ≡ fixed_size h
    length-to_extension =
        omega (arith, length-append to_private h.private_extension, length-to_private)

    length-to_address : length to_address ≡ 47
    length-to_address =
        omega (arith, length-append front h.ip_address_of_node_that_generated_file, w.address)

    pub read_filter_length :
        (rest spare : List ℕ)
        → read_u16 (encode_header h rest) spare 48 50 ≡ some h.length_of_cdr_routeing_filter
    read_filter_length rest spare =
        rw
          (
            at_address rest,
            slice_skip to_address _ spare 48 50 1 3 (omega (arith, length-to_address))
                (omega (arith, length-to_address)) (omega arith),
          )
          (ap some (uint16_bytes _ (omega arith)))

    pub read_private_length :
        (rest spare : List ℕ) (a b : ℕ)
        → a ≡ 50 + length h.cdr_routeing_filter
        → b ≡ 52 + length h.cdr_routeing_filter
        → read_u16 (encode_header h rest) spare a b ≡ some h.length_of_private_extension
    read_private_length rest spare a b ha hb =
        rw
          (
            at_private_length rest,
            slice_at to_private_length (put_u16 h.length_of_private_extension []) _ spare a b
                (omega (arith, length-to_private_length)) (omega arith),
          )
          (ap some (uint16_bytes _ (omega arith)))

    pub slice_address :
        (rest spare : List ℕ)
        → slice (encode_header h rest) spare 27 47 ≡ some h.ip_address_of_node_that_generated_file
    slice_address rest spare =
        unfold encode_header in
        slice_at front h.ip_address_of_node_that_generated_file _ spare 27 47 refl
          (omega (arith, w.address))

    pub get_lost : (rest : List ℕ) → get_elem? (encode_header h rest) 47 ≡ some h.lost_cdr_indicator
    get_lost rest =
        rw (at_address rest) (get_at to_address _ _ 47 (omega (arith, length-to_address)))

    pub slice_filter :
        (rest spare : List ℕ)
        → slice (encode_header h rest) spare 50 (50 + length h.cdr_routeing_filter)
          ≡ some h.cdr_routeing_filter
    slice_filter rest spare = rw (at_filter rest) (
        slice_at to_filter h.cdr_routeing_filter _ spare 50 _ (omega (arith, length-to_filter))
          (omega arith))

    pub slice_private :
        (rest spare : List ℕ) (a : ℕ)
        → a ≡ 52 + length h.cdr_routeing_filter
        → slice (encode_header h rest) spare a (fixed_size h) ≡ some h.private_extension
    slice_private rest spare a e = rw (at_private rest) (
        slice_at to_private h.private_extension _ spare a _ (omega (arith, length-to_private))
          (omega arith))

    pub read_high_extension :
        (rest : List ℕ)
        → read_extension (encode_header h rest) h.high_release_identifier (fixed_size h)
          ≡ some h.high_release_identifier_extension
    read_high_extension rest = rw (at_extensions rest) (
        read_extension_at to_extension _ h.high_release_identifier
          h.high_release_identifier_extension (fixed_size h) (omega (arith, length-to_extension))
          w.high_extension)

    -- Behind a high extension octet.
    at_low_extension :
        (rest : List ℕ)
        → h.high_release_identifier ≡ 7
        → encode_header h rest
          ≡ (to_extension ++ (h.high_release_identifier_extension ∷ []))
            ++ put_extension h.low_release_identifier h.low_release_identifier_extension rest
    at_low_extension rest e =
        at_extensions rest
        ∙ ap (◌++◌ to_extension)
            (put_extension_seven h.high_release_identifier h.high_release_identifier_extension _ e)
        ∙ sym (append_assoc to_extension (h.high_release_identifier_extension ∷ []) _)

    pub read_low_extension :
        (rest : List ℕ) (at : ℕ)
        → (h.low_release_identifier ≡ 7 → h.high_release_identifier ≡ 7)
        → at ≡ fixed_size h + 1
        → read_extension (encode_header h rest) h.low_release_identifier at
          ≡ some h.low_release_identifier_extension
    read_low_extension rest at both e = elim (Bool-cases (h.low_release_identifier == 7)) [
      | inl q ↦ rw (at_low_extension rest (both (ground arith))) (
          read_extension_at (to_extension ++ (h.high_release_identifier_extension ∷ [])) rest
            h.low_release_identifier h.low_release_identifier_extension at
            (omega (
              arith,
              length-append to_extension (h.high_release_identifier_extension ∷ []),
              length-to_extension,
            ))
            w.low_extension)
      | inr q ↦ unfold read_extension in rw q (ap some (sym (w.low_extension (λ r. ground arith))))
    ]
