-- ===== src/Models.antt =====
-- The parts of the SBI models (package models of openapi, which is not in the repository) that the
-- charging code reads and writes. Signed 32-bit values are two's complement patterns.
use chf.Base.{ℕ, Bool, Option, List}
use chf.Base.Decimal.{Text}

pub data QuotaManagementIndicator : Type 0 where
  online_charging offline_charging quota_management_suspended unnamed : QuotaManagementIndicator

pub data TriggerType : Type 0 where
  quota_threshold quota_exhausted validity_time volume_limit final : TriggerType
  management_intervention max_number_of_changes_in_charging_conditions unnamed : TriggerType

pub data TriggerCategory : Type 0 where
  immediate_report deferred_report unnamed : TriggerCategory

pub record Trigger : Type 0 where
  pub trigger_type : TriggerType
  pub trigger_category : TriggerCategory
  pub volume_limit : ℕ

pub record UsedUnitContainer : Type 0 where
  pub quota_management_indicator : QuotaManagementIndicator
  pub local_sequence_number : ℕ
  pub uplink_volume : ℕ
  pub downlink_volume : ℕ
  pub total_volume : ℕ
  pub service_specific_units : ℕ

-- `requested_unit` is the total volume of the requested unit, where there is one.
pub record MultipleUnitUsage : Type 0 where
  pub rating_group : ℕ
  pub upf_id : Text
  pub requested_unit : Option ℕ
  pub used_unit_container : List UsedUnitContainer

pub data FinalUnitAction : Type 0 where
  unnamed terminate : FinalUnitAction

pub record GrantedUnit : Type 0 where
  pub total_volume : ℕ
  pub downlink_volume : ℕ
  pub uplink_volume : ℕ

-- The final unit indication is always present, and mostly empty.
pub record MultipleUnitInformation : Type 0 where
  pub upf_id : Text
  pub final_unit_indication : FinalUnitAction
  pub rating_group : ℕ
  pub triggers : List Trigger
  pub volume_quota_threshold : ℕ
  pub granted_unit : Option GrantedUnit
  pub validity_time : ℕ

pub record PlmnId : Type 0 where
  pub mcc : Text
  pub mnc : Text

pub record NfIdentification : Type 0 where
  pub nf_name : Text
  pub nf_ipv4_address : Text
  pub nf_ipv6_address : Text
  pub nf_fqdn : Text
  pub nf_plmn_id : Option PlmnId
  pub node_functionality : Text

pub record Snssai : Type 0 where
  pub sst : ℕ
  pub sd : Text

-- The S-NSSAI of the network slicing information, each of them optional.
pub record PduSessionInformation : Type 0 where
  pub pdu_session_id : ℕ
  pub dnn_id : Text
  pub network_slicing_info : Option (Option Snssai)

pub record PduSessionChargingInformation : Type 0 where
  pub charging_id : ℕ
  pub pdu_session_information : Option PduSessionInformation

pub record ChargingDataRequest : Type 0 where
  pub subscriber_identifier : Text
  pub nf_consumer_identification : Option NfIdentification
  pub invocation_sequence_number : ℕ
  pub notify_uri : Text
  pub one_time_event : Bool
  pub charging_id : ℕ
  pub service_specification_info : Text
  pub multiple_unit_usage : List MultipleUnitUsage
  pub triggers : List Trigger
  pub registration_charging_information : Bool
  pub pdu_session_charging_information : Option PduSessionChargingInformation
