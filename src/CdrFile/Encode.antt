-- ===== src/CdrFile/Encode.antt =====
-- The three `Encoding` methods of cdr/cdrFile/cdrFile.go. Each writes in front of what follows it.
-- Writes into a bytes.Buffer do not fail; the warnings that the methods print are the two tests below.
use chf.Base.{
  ℕ, ◌*◌, ◌%◌, ◌^◌, bit_or, Bool, not, ◌&&◌, List, [], ◌∷◌, ◌++◌, length, ◌==◌, if◌then◌else◌,
}
use chf.Base.Bytes.{put_u16, put_u32}
use chf.CdrFile.{CdrHdrTimeStamp, CdrFileHeader, CdrHeader, Cdr, CdrFile}

-- `uint32(x) << k`
abbrev pub shl32 : ℕ → ℕ → ℕ
shl32 x k = x * 2 ^ k % 2 ^ 32

unfoldable pub pack_timestamp : CdrHdrTimeStamp → ℕ
pack_timestamp t =
    let month_date = bit_or (shl32 t.month_local 28) (shl32 t.date_local 23) in
    let to_hour = bit_or month_date (shl32 t.hour_local 18) in
    let to_minute = bit_or to_hour (shl32 t.minute_local 12) in
    let to_sign = bit_or to_minute (shl32 t.sign_of_the_local_time_differential_from_utc 11) in
    bit_or (bit_or to_sign (shl32 t.hour_deviation 6)) t.minute_deviation

-- `(release << 5) | version` on uint8.
unfoldable pub identifier_octet : ℕ → ℕ → ℕ
identifier_octet release version = bit_or (release * 2 ^ 5 % 256) version

-- A release identifier of 7 is followed by its extension octet.
unfoldable pub put_extension : ℕ → ℕ → List ℕ → List ℕ
put_extension release ext rest = if release == 7 then ext ∷ rest else rest

unfoldable pub encode_header : CdrFileHeader → List ℕ → List ℕ
encode_header h rest = put_u32 h.file_length (
    put_u32 h.header_length (
      identifier_octet h.high_release_identifier h.high_version_identifier
      ∷ identifier_octet h.low_release_identifier h.low_version_identifier
      ∷ put_u32 (pack_timestamp h.file_opening_timestamp) (
          put_u32 (pack_timestamp h.timestamp_when_last_cdr_was_appended_to_file) (
            put_u32 h.number_of_cdrs_in_file (
              put_u32 h.file_sequence_number (
                h.file_closure_trigger_reason
                ∷ (h.ip_address_of_node_that_generated_file
                    ++ (h.lost_cdr_indicator
                        ∷ put_u16 h.length_of_cdr_routeing_filter (
                            h.cdr_routeing_filter
                            ++ put_u16 h.length_of_private_extension (
                                h.private_extension
                                ++ put_extension h.high_release_identifier
                                    h.high_release_identifier_extension
                                    (put_extension h.low_release_identifier
                                      h.low_release_identifier_extension rest)))))))))))

unfoldable pub encode_cdr_header : CdrHeader → List ℕ → List ℕ
encode_cdr_header h rest = put_u16 h.cdr_length (
    identifier_octet h.release_identifier h.version_identifier
    ∷ identifier_octet h.data_record_format h.ts_number
    ∷ put_extension h.release_identifier h.release_identifier_extension rest)

unfoldable pub encode_cdrs : List Cdr → List ℕ
encode_cdrs [] = []
encode_cdrs (cdr ∷ cdrs) = encode_cdr_header cdr.hdr (cdr.cdr_byte ++ encode_cdrs cdrs)

-- The bytes that `CDRFile.Encoding` writes to the file.
unfoldable pub encode_file : CdrFile → List ℕ
encode_file f = encode_header f.hdr (encode_cdrs f.cdr_list)

-- `field != uint32(len) && field != 0xffffffff`
abbrev pub length_mismatch : ℕ → List ℕ → Bool
length_mismatch field bytes = not (field == length bytes % 2 ^ 32) && not (field == 0xffff_ffff)

unfoldable pub warns_header_length : CdrFileHeader → Bool
warns_header_length h = length_mismatch h.header_length (encode_header h [])

unfoldable pub warns_file_length : CdrFile → Bool
warns_file_length f = length_mismatch f.hdr.file_length (encode_file f)
