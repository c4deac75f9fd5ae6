-- ===== src/Record/Tests.antt =====
-- Records on concrete data, and the theorems at concrete inputs (internal/sbi/processor/cdr.go,
-- cdr/cdrConvert/sbiToCdr.go).
use chf.Base.{
  ℕ, ◌/◌, ◌<◌, ◌≡◌, refl, arith, Bool, true, false, List, [], ◌∷◌, Option, none, some, get_elem?,
  length,
}
use chf.CdrFile.{CdrFile}
use chf.CdrFile.Decode.{decode_file}
use chf.Record.{ChargingRecord}
use chf.Record.Convert.{LocalTime, time_stamp_to_cdr, plmn_id_to_cdr}
use chf.Record.Dump.{encoded_records, dump_cdr_file}
use chf.Record.ReadBack.{bodies, dump_cdr_file-Reads}
use chf.Record.Digits.{
  plmn, plmn_digits, stamp_values, IsTime, plmn_id_to_cdr-Reads, time_stamp_to_cdr-Reads,
  time_stamp_to_cdr-behind,
}

abbrev blank : ChargingRecord
blank = record {
  record_type = 200;
  recording_network_function_id = [];
  subscriber_identifier = none;
  nfunction_consumer_information = record {
    network_functionality = 1;
    network_function_name = none;
    network_function_ipv4_address = none;
    network_function_ipv6_address = none;
    network_function_fqdn = none;
    network_function_plmn_identifier = none;
  };
  list_of_multiple_unit_usage = [];
  record_opening_time = [];
  duration = 0;
  record_sequence_number = none;
  cause_for_rec_closing = 0;
  local_record_sequence_number = 1;
  pdu_session_charging_information = none;
  charging_session_identifier = none;
  service_specification_information = none;
  registration_charging_information = false;
  charging_id = 7;
}

-- An encoding of a record by its type and its charging identifier.
abbrev marshal : ChargingRecord → Option (List ℕ)
marshal cdr = some (cdr.record_type ∷ cdr.charging_id ∷ [])

dump_cdr_file-Reads_example :
    (f : CdrFile) × (decode_file [] (dump_cdr_file marshal (blank ∷ blank ∷ [])) [] ≡ some f)
    × (bodies f.cdr_list ≡ (200 ∷ 7 ∷ []) ∷ (200 ∷ 7 ∷ []) ∷ [])
    × (f.hdr.file_length ≡ length (dump_cdr_file marshal (blank ∷ blank ∷ [])))
unfolding encoded_records
dump_cdr_file-Reads_example =
    dump_cdr_file-Reads marshal (blank ∷ blank ∷ []) []
      ((omega arith, (omega arith, tt)), omega arith)

-- The PLMN 208 93.
plmn_id_to_cdr-Reads_example :
    (octets : List ℕ) × (plmn_id_to_cdr (λ mcc mnc. true) (plmn (λ mcc mnc. true) 2 0 8 9 3 none)
      ≡ some (some octets))
    × (plmn_digits octets ≡ (2 ∷ 0 ∷ 8 ∷ [], 9 ∷ 3 ∷ []))
plmn_id_to_cdr-Reads_example =
    plmn_id_to_cdr-Reads (λ mcc mnc. true) 2 0 8 9 3 none (omega arith) (omega arith) (omega arith)
      (omega arith) (omega arith) tt refl

abbrev evening : Bool → ℕ → LocalTime
evening behind zone = record {
  year = 2024;
  month = 2;
  day = 29;
  hour = 23;
  minute = 59;
  second = 7;
  behind = behind;
  zone = zone;
}

evening-IsTime : (behind : Bool) (zone : ℕ) → IsTime (evening behind zone)
evening-IsTime behind zone = record {
  month = omega arith;
  day = omega arith;
  hour = omega arith;
  minute = omega arith;
  second = omega arith;
}

time_stamp_to_cdr-Reads_example :
    stamp_values (time_stamp_to_cdr (evening false 28800))
    ≡ 24 ∷ 2 ∷ 29 ∷ 23 ∷ 59 ∷ 7 ∷ b'+' ∷ 8 ∷ 0 ∷ []
time_stamp_to_cdr-Reads_example =
    time_stamp_to_cdr-Reads (evening false 28800) 8 (evening-IsTime false 28800) refl refl
      (omega arith)

time_stamp_to_cdr-behind_example :
    (get_elem? (time_stamp_to_cdr (evening true 18000)) 7 ≡ some 251) × (9 < 251 / 16)
time_stamp_to_cdr-behind_example =
    time_stamp_to_cdr-behind (evening true 18000) 5 refl refl (omega arith) (omega arith)
