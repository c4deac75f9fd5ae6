-- ===== src/CdrFile/Tests.antt =====
-- Concrete files through cdr/cdrFile/cdrFile.go, and the theorems at concrete inputs.
use chf.Base.{ℕ, ◌≡◌, refl, arith, List, [], ◌∷◌, some, none}
use chf.CdrFile.{CdrHdrTimeStamp, CdrFileHeader, Cdr, CdrFile}
use chf.CdrFile.Encode.{encode_header, encode_file}
use chf.CdrFile.Decode.{decode_header, decode_file}
use chf.CdrFile.Header.{header_size}
use chf.CdrFile.Header
use chf.CdrFile.RoundTrip
use chf.CdrFile.RoundTrip.{decode-encode_file}
use chf.CdrFile.Extension.{decode-encode_low_alone}

abbrev january : CdrHdrTimeStamp
january = record {
  month_local = 1;
  date_local = 11;
  hour_local = 3;
  minute_local = 59;
  sign_of_the_local_time_differential_from_utc = 1;
  hour_deviation = 8;
  minute_deviation = 30;
}

abbrev address : List ℕ
address = 0 ∷ 0 ∷ 0 ∷ 0 ∷ 0 ∷ 0 ∷ 0 ∷ 0 ∷ 0 ∷ 0 ∷ 0 ∷ 0 ∷ 0 ∷ 0 ∷ 0 ∷ 0 ∷ 127 ∷ 0 ∷ 0 ∷ 1 ∷ []

abbrev header : ℕ → ℕ → CdrFileHeader
header high low = record {
  file_length = 71;
  header_length = 57;
  high_release_identifier = high;
  high_version_identifier = 3;
  low_release_identifier = low;
  low_version_identifier = 5;
  file_opening_timestamp = january;
  timestamp_when_last_cdr_was_appended_to_file = january;
  number_of_cdrs_in_file = 2;
  file_sequence_number = 11;
  file_closure_trigger_reason = 4;
  ip_address_of_node_that_generated_file = address;
  lost_cdr_indicator = 4;
  length_of_cdr_routeing_filter = 2;
  cdr_routeing_filter = b'a' ∷ b'b' ∷ [];
  length_of_private_extension = 3;
  private_extension = b'f' ∷ b'g' ∷ b'h' ∷ [];
  high_release_identifier_extension = 0;
  low_release_identifier_extension = 0;
}

abbrev plain_cdr : Cdr
plain_cdr = record {
  hdr = record {
    cdr_length = 3;
    release_identifier = 2;
    version_identifier = 3;
    data_record_format = 1;
    ts_number = 19;
    release_identifier_extension = 0;
  };
  cdr_byte = b'a' ∷ b'b' ∷ b'c' ∷ [];
}

abbrev extended_cdr : Cdr
extended_cdr = record plain_cdr {
  hdr = record {
    cdr_length = 3;
    release_identifier = 7;
    version_identifier = 3;
    data_record_format = 1;
    ts_number = 19;
    release_identifier_extension = 9;
  };
}

abbrev two_cdrs : CdrFile
two_cdrs = record { hdr = header 2 3; cdr_list = plain_cdr ∷ extended_cdr ∷ [] }

two_cdrs-IsEncodable : RoundTrip.IsEncodable two_cdrs
two_cdrs-IsEncodable = omega arith

decode-encode_file_example : decode_file [] (encode_file two_cdrs) (0 ∷ []) ≡ some two_cdrs
decode-encode_file_example = decode-encode_file two_cdrs [] (0 ∷ []) two_cdrs-IsEncodable

low_alone-IsEncodable : Header.IsEncodable (header 2 7)
low_alone-IsEncodable = omega arith

decode-encode_low_alone_example : decode_header (encode_header (header 2 7) []) [] ≡ none
decode-encode_low_alone_example =
    decode-encode_low_alone (header 2 7) low_alone-IsEncodable [] [] (omega arith) refl
