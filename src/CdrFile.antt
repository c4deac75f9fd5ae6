-- ===== src/CdrFile.antt =====
-- The CDR file of TS 32.297 (cdr/cdrFile/cdrFile.go): its headers and records.
pub mod Encode
pub mod Decode
pub mod Layout
pub mod Records
pub mod Header
pub mod HeaderRead
pub mod RoundTrip
pub mod Extension
mod Tests
use chf.Base.{ℕ, List}

pub record CdrHdrTimeStamp : Type 0 where
  pub month_local : ℕ
  pub date_local : ℕ
  pub hour_local : ℕ
  pub minute_local : ℕ
  pub sign_of_the_local_time_differential_from_utc : ℕ
  pub hour_deviation : ℕ
  pub minute_deviation : ℕ

-- Unsigned fields of a fixed width are numbers; their ranges stand in the theorems.
pub record CdrFileHeader : Type 0 where
  pub file_length : ℕ
  pub header_length : ℕ
  pub high_release_identifier : ℕ
  pub high_version_identifier : ℕ
  pub low_release_identifier : ℕ
  pub low_version_identifier : ℕ
  pub file_opening_timestamp : CdrHdrTimeStamp
  pub timestamp_when_last_cdr_was_appended_to_file : CdrHdrTimeStamp
  pub number_of_cdrs_in_file : ℕ
  pub file_sequence_number : ℕ
  pub file_closure_trigger_reason : ℕ
  pub ip_address_of_node_that_generated_file : List ℕ
  pub lost_cdr_indicator : ℕ
  pub length_of_cdr_routeing_filter : ℕ
  pub cdr_routeing_filter : List ℕ
  pub length_of_private_extension : ℕ
  pub private_extension : List ℕ
  pub high_release_identifier_extension : ℕ
  pub low_release_identifier_extension : ℕ

pub record CdrHeader : Type 0 where
  pub cdr_length : ℕ
  pub release_identifier : ℕ
  pub version_identifier : ℕ
  pub data_record_format : ℕ
  pub ts_number : ℕ
  pub release_identifier_extension : ℕ

pub record Cdr : Type 0 where
  pub hdr : CdrHeader
  pub cdr_byte : List ℕ

pub record CdrFile : Type 0 where
  pub hdr : CdrFileHeader
  pub cdr_list : List Cdr
