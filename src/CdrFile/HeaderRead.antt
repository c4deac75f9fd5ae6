-- ===== src/CdrFile/HeaderRead.antt =====
-- The file header: `Decoding` reads back what `Encoding` wrote (cdr/cdrFile/cdrFile.go).
use chf.Base.{
  ℕ, ◌+◌, ◌/◌, ◌%◌, ◌^◌, ◌≡◌, refl, ap, bit_and, arith, List, Option, some, ◌>>=◌, get_elem?,
  length,
}
use chf.Base.Bytes.{uint32_bytes}
use chf.CdrFile.{CdrFileHeader}
use chf.CdrFile.Encode.{pack_timestamp, identifier_octet, encode_header}
use chf.CdrFile.Decode.{
  slice, unpack_timestamp, read_u16, read_u32, read_extension, extension_size, decode_header,
}
use chf.CdrFile.Layout.{octet_release, octet_version, pack_timestamp-IsU32, unpack-pack}
use chf.CdrFile.Header.{
  IsEncodable, fixed_size, header_size, read_filter_length, read_private_length, slice_address,
  get_lost, slice_filter, slice_private, read_high_extension, read_low_extension,
}

-- `decode_header` from what its reads return.
pub decode_header_reads :
    (bytes spare : List ℕ) (xy n high low opened appended : ℕ) (low_read : Option ℕ)
    (h : CdrFileHeader)
    → high / 2 ^ 5 ≡ h.high_release_identifier
    → bit_and high 0b11111 ≡ h.high_version_identifier
    → low / 2 ^ 5 ≡ h.low_release_identifier
    → bit_and low 0b11111 ≡ h.low_version_identifier
    → unpack_timestamp opened ≡ h.file_opening_timestamp
    → unpack_timestamp appended ≡ h.timestamp_when_last_cdr_was_appended_to_file
    → read_u32 bytes spare 10 14 ≡ some opened
    → read_u32 bytes spare 14 18 ≡ some appended
    → read_u32 bytes spare 18 22 ≡ some h.number_of_cdrs_in_file
    → read_u16 bytes spare 48 50 ≡ some h.length_of_cdr_routeing_filter
    → (50 + h.length_of_cdr_routeing_filter) % 2 ^ 16 ≡ xy
    → read_u16 bytes spare xy ((xy + 2) % 2 ^ 16) ≡ some h.length_of_private_extension
    → (xy + 2 + h.length_of_private_extension) % 2 ^ 16 ≡ n
    → slice bytes spare 27 47 ≡ some h.ip_address_of_node_that_generated_file
    → read_u32 bytes spare 0 4 ≡ some h.file_length
    → read_u32 bytes spare 4 8 ≡ some h.header_length
    → get_elem? bytes 8 ≡ some high
    → get_elem? bytes 9 ≡ some low
    → read_u32 bytes spare 22 26 ≡ some h.file_sequence_number
    → get_elem? bytes 26 ≡ some h.file_closure_trigger_reason
    → get_elem? bytes 47 ≡ some h.lost_cdr_indicator
    → slice bytes spare 50 xy ≡ some h.cdr_routeing_filter
    → slice bytes spare ((xy + 2) % 2 ^ 16) n ≡ some h.private_extension
    → read_extension bytes h.high_release_identifier n ≡ some h.high_release_identifier_extension
    → read_extension bytes h.low_release_identifier ((n + 1) % 2 ^ 16) ≡ low_read
    → decode_header bytes spare ≡ (
        low_read >>= λ x. some (
          record h { low_release_identifier_extension = x },
          n + extension_size h.high_release_identifier + extension_size h.low_release_identifier,
        ))
unfolding decode_header
decode_header_reads bytes spare xy n high low opened appended low_read h r v r' v' t t' h10 h14 h18
      h48 hxy hlp hn h27 h0 h4 h8 h9 h22 h26 h47 h50 hp he he' =
    rw (
      h10, h14, h18, h48, hxy, hlp, hn, h27, h0, h4, h8, h9, r, v, r', v', h22, h26, h47, h50, hp,
      he, he', t, t',
    )

module _ (h : CdrFileHeader) (w : IsEncodable h) where
  -- The header that is decoded, from what is read for the low extension octet.
  pub decode_header_low :
      (rest spare : List ℕ) (low_read : Option ℕ)
      → read_extension (encode_header h rest) h.low_release_identifier ((fixed_size h + 1) % 2 ^ 16)
        ≡ low_read
      → decode_header (encode_header h rest) spare ≡ (
          low_read >>= λ x. some (record h { low_release_identifier_extension = x }, header_size h))
  decode_header_low rest spare low_read low =
      decode_header_reads (encode_header h rest) spare (50 + length h.cdr_routeing_filter)
        (fixed_size h) (identifier_octet h.high_release_identifier h.high_version_identifier)
        (identifier_octet h.low_release_identifier h.low_version_identifier)
        (pack_timestamp h.file_opening_timestamp)
        (pack_timestamp h.timestamp_when_last_cdr_was_appended_to_file) low_read h
        (octet_release _ _ w.high_release w.high_version)
        (octet_version _ _ w.high_release w.high_version)
        (octet_release _ _ w.low_release w.low_version)
        (octet_version _ _ w.low_release w.low_version) (unpack-pack _ w.opened)
        (unpack-pack _ w.appended)
        (unfold encode_header in ap some (uint32_bytes _ (pack_timestamp-IsU32 _ w.opened)))
        (unfold encode_header in ap some (uint32_bytes _ (pack_timestamp-IsU32 _ w.appended)))
        (unfold encode_header in ap some (uint32_bytes _ w.number_fits))
        (read_filter_length h w rest spare) (omega arith)
        (read_private_length h w rest spare (50 + length h.cdr_routeing_filter)
          ((50 + length h.cdr_routeing_filter + 2) % 2 ^ 16) (omega arith) (omega arith))
        (omega arith) (slice_address h w rest spare)
        (unfold encode_header in ap some (uint32_bytes _ w.file_length_fits))
        (unfold encode_header in ap some (uint32_bytes _ w.header_length_fits))
        (unfold encode_header in refl) (unfold encode_header in refl)
        (unfold encode_header in ap some (uint32_bytes _ w.sequence_fits))
        (unfold encode_header in refl) (get_lost h w rest) (slice_filter h w rest spare)
        (slice_private h w rest spare ((50 + length h.cdr_routeing_filter + 2) % 2 ^ 16)
          (omega arith))
        (read_high_extension h w rest) low

  -- The header comes back, whatever bytes follow it; a low extension octet must follow a high one.
  pub decode-encode_header :
      (rest spare : List ℕ)
      → (h.low_release_identifier ≡ 7 → h.high_release_identifier ≡ 7)
      → decode_header (encode_header h rest) spare ≡ some (h, header_size h)
  decode-encode_header rest spare both =
      decode_header_low rest spare _
        (read_low_extension h w rest ((fixed_size h + 1) % 2 ^ 16) both (omega arith))
