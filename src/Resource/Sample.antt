-- ===== src/Resource/Sample.antt =====
-- Concrete data for runs of the resource: a subscriber with one record, and a consumer that creates a
-- session.
use chf.Base.{ℕ, ◌+◌, true, false, [], ◌∷◌, Option, none, some}
use chf.Base.Decimal.{Text}
use chf.Diameter.{RequestSubType, ChargingData}
use chf.Models.{NfIdentification, QuotaManagementIndicator, ChargingDataRequest}
use chf.Record.{ChargingRecord}
use chf.Record.Convert.{LocalTime}
use chf.Ue.{ChfUe}
use chf.Resource.{Subscriber, Chf, Outside}

abbrev pub imsi : Text
imsi = b'i' ∷ b'm' ∷ b's' ∷ b'i' ∷ b'-' ∷ b'7' ∷ []

abbrev pub session : Text
session = b's' ∷ []

abbrev pub noon : LocalTime
noon = record {
  year = 2024;
  month = 1;
  day = 1;
  hour = 12;
  minute = 0;
  second = 0;
  behind = false;
  zone = 0;
}

abbrev pub charging : ChfUe
charging = record {
  supi = imsi;
  rating_groups = [];
  quota_validity_time = 0;
  volume_limit = 0;
  volume_limit_pdu = 0;
  volume_threshold = λ units. units;
  notify_uri = [];
  reserved_quota = λ rg. 0;
  unit_cost = λ rg. 0;
  acct_request_num = λ rg. 0;
  acct_session_id = 1;
  rating_type = λ rg. RequestSubType.aoc;
  rate_session_id = 1;
}

-- Files are the number of writes, and every write succeeds.
abbrev pub outside : Outside
outside = record {
  Files = ℕ;
  write_file = λ files name bytes. (files + 1, true);
  send_cdr = λ files supi. files;
  marshal = λ cdr. some (cdr.charging_id ∷ []);
  marshal_usages = λ usages. some [];
  digest = λ s. s;
  is_valid_plmn = λ mcc mnc. true;
  now = noon;
  new_charging = λ supi. charging;
}

abbrev pub blank : ChargingRecord
blank = record {
  record_type = 200;
  recording_network_function_id = [];
  subscriber_identifier = none;
  nfunction_consumer_information = record {
    network_functionality = 1;
    network_function_name = none;
    network_function_ipv4_address = none;
    network_function_ipv6_address = none;
    network_function_fqdn = none;
    network_function_plmn_identifier = none;
  };
  list_of_multiple_unit_usage = [];
  record_opening_time = [];
  duration = 0;
  record_sequence_number = none;
  cause_for_rec_closing = 0;
  local_record_sequence_number = 1;
  pdu_session_charging_information = none;
  charging_session_identifier = none;
  service_specification_information = none;
  registration_charging_information = false;
  charging_id = 7;
}

-- The subscriber has one record, at address 0, which each session refers to.
abbrev pub subscriber : Subscriber
subscriber = record { charging = charging; cdr = λ s. some 0; records = 0 ∷ [] }

abbrev pub context : Chf
context = record {
  nf_id = [];
  url = [];
  local_record_sequence_number = 1;
  record_sequence_number = λ s. 0;
  ue_pool = λ supi. some subscriber;
  store = λ a. blank;
  next = 1;
}

-- Offline usage of 40 octets for rating group 1.
abbrev pub request : ChargingDataRequest
request = record {
  subscriber_identifier = imsi;
  nf_consumer_identification = none;
  invocation_sequence_number = 2;
  notify_uri = [];
  one_time_event = false;
  charging_id = 7;
  service_specification_info = [];
  multiple_unit_usage =
      record {
        rating_group = 1;
        upf_id = [];
        requested_unit = none;
        used_unit_container =
            record {
              quota_management_indicator = QuotaManagementIndicator.offline_charging;
              local_sequence_number = 1;
              uplink_volume = 10;
              downlink_volume = 30;
              total_volume = 40;
              service_specific_units = 0;
            }
            ∷ [];
      }
      ∷ [];
  triggers = [];
  registration_charging_information = false;
  pdu_session_charging_information = none;
}

abbrev pub no_accounts : Text → ℕ → Option ChargingData
no_accounts supi rg = none

abbrev pub consumer : NfIdentification
consumer = record {
  nf_name = b'm' ∷ [];
  nf_ipv4_address = [];
  nf_ipv6_address = [];
  nf_fqdn = [];
  nf_plmn_id = none;
  node_functionality = b'S' ∷ b'M' ∷ b'F' ∷ [];
}

abbrev pub creation : ChargingDataRequest
creation = record request { nf_consumer_identification = some consumer }

-- Nobody is known.
abbrev pub nobody : Chf
nobody = record context { ue_pool = λ supi. none; next = 0 }
