-- ===== src/Record.antt =====
-- Charging data records (cdr/cdrType) as the charging processor fills them, and what it does to them
-- (internal/sbi/processor/cdr.go, cdr/cdrConvert/sbiToCdr.go). Signed values are int64 patterns; fields
-- that no code sets are left out, and a structure around one value is that value.
pub mod Convert
pub mod Open
pub mod Lifecycle
pub mod Dump
pub mod ReadBack
pub mod Digits
mod Tests
use chf.Base.{ℕ, Bool, Option, List}
use chf.Base.Decimal.{Text}
use chf.Models.{Snssai}

pub record UsedUnitContainer : Type 0 where
  pub local_sequence_number : ℕ
  pub data_volume_uplink : ℕ
  pub data_volume_downlink : ℕ
  pub data_total_volume : ℕ
  pub service_specific_units : ℕ

pub record MultipleUnitUsage : Type 0 where
  pub rating_group : ℕ
  pub used_unit_containers : List UsedUnitContainer
  pub upf_id : Text

-- The addresses are the text forms of an IPv4 and of an IPv6 address.
pub record NetworkFunctionInformation : Type 0 where
  pub network_functionality : ℕ
  pub network_function_name : Option Text
  pub network_function_ipv4_address : Option Text
  pub network_function_ipv6_address : Option Text
  pub network_function_fqdn : Option Text
  pub network_function_plmn_identifier : Option (List ℕ)

pub record SubscriptionId : Type 0 where
  pub subscription_id_type : ℕ
  pub subscription_id_data : Text

pub record PduSessionChargingInformation : Type 0 where
  pub pdu_session_charging_id : ℕ
  pub pdu_session_id : ℕ
  pub network_slice_instance_id : Snssai
  pub data_network_name_identifier : Text

-- There is no field for triggers: `TriggersToCdr` converts none of them.
pub record ChargingRecord : Type 0 where
  pub record_type : ℕ
  pub recording_network_function_id : Text
  pub subscriber_identifier : Option SubscriptionId
  pub nfunction_consumer_information : NetworkFunctionInformation
  pub list_of_multiple_unit_usage : List MultipleUnitUsage
  pub record_opening_time : List ℕ
  pub duration : ℕ
  pub record_sequence_number : Option ℕ
  pub cause_for_rec_closing : ℕ
  pub local_record_sequence_number : ℕ
  pub pdu_session_charging_information : Option PduSessionChargingInformation
  pub charging_session_identifier : Option Text
  pub service_specification_information : Option Text
  pub registration_charging_information : Bool
  pub charging_id : ℕ
