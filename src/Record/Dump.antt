-- ===== src/Record/Dump.antt =====
-- The file of the records of a subscriber (`dumpCdrFile` and `buildCdrFileName` of
-- internal/sbi/processor/cdr.go).
use chf.Base.{ℕ, zero, suc, ◌+◌, ◌%◌, ◌^◌, List, [], ◌∷◌, Option, none, some, length}
use chf.CdrFile.{CdrHdrTimeStamp, Cdr, CdrFile}
use chf.CdrFile.Encode.{encode_file}
use chf.Record.{ChargingRecord}

abbrev pub no_time : CdrHdrTimeStamp
no_time = record {
  month_local = 0;
  date_local = 0;
  hour_local = 0;
  minute_local = 0;
  sign_of_the_local_time_differential_from_utc = 0;
  hour_deviation = 0;
  minute_deviation = 0;
}

abbrev zeros : ℕ → List ℕ
zeros zero = []
zeros (suc n) = 0 ∷ zeros n

-- The record format is BasicEncodingRules.
abbrev pub dumped_record : List ℕ → Cdr
dumped_record bytes = record {
  hdr = record {
    cdr_length = length bytes % 2 ^ 16;
    release_identifier = 0;
    version_identifier = 0;
    data_record_format = 1;
    ts_number = 0;
    release_identifier_extension = 0;
  };
  cdr_byte = bytes;
}

abbrev pub dumped_records : List (List ℕ) → List Cdr
dumped_records [] = []
dumped_records (bytes ∷ rest) = dumped_record bytes ∷ dumped_records rest

-- The file length counts four octets and the bytes of each record, as a uint32.
abbrev pub dumped_length : ℕ → List (List ℕ) → ℕ
dumped_length total [] = total
dumped_length total (bytes ∷ rest) =
    dumped_length ((total + (length bytes % 2 ^ 32 + 4) % 2 ^ 32) % 2 ^ 32) rest

unfoldable pub dumped_file : List (List ℕ) → CdrFile
dumped_file encoded = record {
  hdr = record {
    file_length = dumped_length 52 encoded;
    header_length = 52;
    high_release_identifier = 0;
    high_version_identifier = 0;
    low_release_identifier = 0;
    low_version_identifier = 0;
    file_opening_timestamp = no_time;
    timestamp_when_last_cdr_was_appended_to_file = no_time;
    number_of_cdrs_in_file = length encoded % 2 ^ 32;
    file_sequence_number = 0;
    file_closure_trigger_reason = 0;
    ip_address_of_node_that_generated_file = zeros 20;
    lost_cdr_indicator = 0;
    length_of_cdr_routeing_filter = 0;
    cdr_routeing_filter = [];
    length_of_private_extension = 0;
    private_extension = [];
    high_release_identifier_extension = 0;
    low_release_identifier_extension = 0;
  };
  cdr_list = dumped_records encoded;
}

-- What follows a failed BER encoding: the error is logged, and the record has no bytes.
abbrev bytes_or_none : Option (List ℕ) → List ℕ
bytes_or_none none = []
bytes_or_none (some bytes) = bytes

-- `marshal` is asn.BerMarshalWithParams with "explicit,choice" on a record.
unfoldable pub encoded_records :
    (marshal : ChargingRecord → Option (List ℕ)) → List ChargingRecord → List (List ℕ)
encoded_records marshal [] = []
encoded_records marshal (cdr ∷ cdrs) = bytes_or_none (marshal cdr) ∷ encoded_records marshal cdrs

-- The bytes that `dumpCdrFile` writes.
unfoldable pub dump_cdr_file : (ChargingRecord → Option (List ℕ)) → List ChargingRecord → List ℕ
dump_cdr_file marshal cdrs = encode_file (dumped_file (encoded_records marshal cdrs))
