-- ===== src/Record/Lifecycle.antt =====
-- A new record, a reopened one, and what updates and closes it (`OpenCDR`, `UpdateCDR` and `CloseCDR`
-- of internal/sbi/processor/cdr.go).
use chf.Base.{ℕ, ◌+◌, ◌%◌, ◌^◌, Bool, true, false, [], ◌++◌, Option, none, some}
use chf.Base.Decimal.{Text}
use chf.Models.{ChargingDataRequest}
use chf.Record.{
  NetworkFunctionInformation, SubscriptionId, PduSessionChargingInformation, ChargingRecord,
}
use chf.Record.Convert.{LocalTime, sign_extend, time_stamp_to_cdr, multi_unit_usage_to_cdr}
use chf.Record.Open.{
  Opened, opened, failed, panics, text_option, record_subscriber, consumer_information,
  pdu_charging,
}

-- The values of the context that a new record takes over: the network function's id, the time, and
-- the sequence number that was just counted up.
pub record Opening : Type 0 where
  pub nf_id : Text
  pub now : LocalTime
  pub sequence_number : ℕ

abbrev new_record :
    Opening
    → ChargingDataRequest
    → Text
    → Option SubscriptionId
    → NetworkFunctionInformation
    → Option PduSessionChargingInformation
    → ChargingRecord
new_record o data' session_id subscriber consumer pdu = record {
  record_type = 200;
  recording_network_function_id = o.nf_id;
  subscriber_identifier = subscriber;
  nfunction_consumer_information = consumer;
  list_of_multiple_unit_usage = [];
  record_opening_time = time_stamp_to_cdr o.now;
  duration = 0;
  record_sequence_number = none;
  cause_for_rec_closing = 0;
  local_record_sequence_number = o.sequence_number;
  pdu_session_charging_information = pdu;
  charging_session_identifier = text_option session_id;
  service_specification_information = text_option data'.service_specification_info;
  registration_charging_information = data'.registration_charging_information;
  charging_id = sign_extend data'.charging_id;
}

abbrev open_with_consumer :
    Opening
    → ChargingDataRequest
    → Text
    → Option SubscriptionId
    → Opened NetworkFunctionInformation
    → Opened (Option PduSessionChargingInformation)
    → Opened ChargingRecord
open_with_consumer o data' session_id subscriber panics pdu = panics
open_with_consumer o data' session_id subscriber failed pdu = failed
open_with_consumer o data' session_id subscriber (opened consumer) failed = failed
open_with_consumer o data' session_id subscriber (opened consumer) panics = panics
open_with_consumer o data' session_id subscriber (opened consumer) (opened pdu) =
    opened (new_record o data' session_id subscriber consumer pdu)

-- `OpenCDR` for a new session. It counts the sequence number before it can fail.
unfoldable pub open_cdr :
    (Text → Text → Bool) → Opening → ChargingDataRequest → Text → Text → Opened ChargingRecord
open_cdr is_valid o data' supi session_id = elim (record_subscriber supi) [
  | none ↦ panics
  | some subscriber ↦
      open_with_consumer o data' session_id subscriber
        (consumer_information is_valid data'.nf_consumer_identification)
        (pdu_charging data'.pdu_session_charging_information)
]

-- `OpenCDR` for a partial record: the same record goes on, with one more than the number that the
-- context has for the session.
unfoldable pub reopen_cdr : ℕ → ChargingRecord → ChargingRecord
reopen_cdr counted cdr = record cdr { record_sequence_number = some ((counted + 1) % 2 ^ 64) }

unfoldable pub update_cdr : ChargingDataRequest → ChargingRecord → ChargingRecord
update_cdr data' cdr = record cdr {
  list_of_multiple_unit_usage =
      cdr.list_of_multiple_unit_usage ++ multi_unit_usage_to_cdr data'.multiple_unit_usage;
}

unfoldable pub close_cdr : Bool → ChargingRecord → ChargingRecord
close_cdr true cdr = record cdr { cause_for_rec_closing = 1 }
close_cdr false cdr = record cdr { cause_for_rec_closing = 0 }
