-- ===== src/Diameter.antt =====
-- The messages of the rating and account functions (ccs_diameter/datatype) and the collection of
-- charging data that both functions read. The AVPs that no modelled code reads or writes are left out;
-- a pointer field is an Option, and enumeration values without a name share one constructor.
pub mod Table
use chf.Base.{ℕ, ◌≡◌, ◌≢◌, ◌⊎◌, Bool, Option, none, some, List}
use chf.Base.Decimal.{Text}

pub data RequestSubType : Type 0 where
  aoc reserve debit release unnamed : RequestSubType

pub data CcRequestType : Type 0 where
  initial_request update_request termination_request event_request unnamed : CcRequestType

pub data RequestedAction : Type 0 where
  direct_debiting refund_account check_balance price_enquiry unnamed : RequestedAction

pub data FinalUnitAction : Type 0 where
  terminate redirect restrict_access unnamed : FinalUnitAction

pub data SubscriptionIdType : Type 0 where
  end_user_e164 end_user_imsi end_user_sip_uri end_user_nai end_user_private unnamed :
      SubscriptionIdType

pub record SubscriptionId : Type 0 where
  pub subscription_id_type : SubscriptionIdType
  pub subscription_id_data : Text

-- The service units are the CC-Total-Octets of the grouped AVPs, unsigned 64-bit.
pub record MultipleServicesCreditControl : Type 0 where
  pub rating_group : ℕ
  pub requested_service_unit : Option ℕ
  pub used_service_unit : Option ℕ
  pub granted_service_unit : Option ℕ
  pub final_unit_indication : Option FinalUnitAction

pub record AccountDebitRequest : Type 0 where
  pub session_id : Text
  pub destination_host : Text
  pub destination_realm : Text
  pub requested_action : RequestedAction
  pub cc_request_type : CcRequestType
  pub cc_request_number : ℕ
  pub subscription_id : Option SubscriptionId
  pub multiple_services_credit_control : Option MultipleServicesCreditControl

-- Value digits are an int64 pattern.
pub record UnitValue : Type 0 where
  pub value_digits : ℕ
  pub exponent : ℕ

pub record AccountDebitResponse : Type 0 where
  pub session_id : Text
  pub origin_host : Text
  pub origin_realm : Text
  pub cc_request_type : CcRequestType
  pub cc_request_number : ℕ
  pub remaining_balance : Option UnitValue
  pub multiple_services_credit_control : Option MultipleServicesCreditControl

pub record ServiceRating : Type 0 where
  pub service_identifier : ℕ
  pub request_sub_type : RequestSubType
  pub consumed_units : ℕ
  pub monetary_quota : ℕ

pub record ServiceUsageRequest : Type 0 where
  pub session_id : Text
  pub subscription_id : Option SubscriptionId
  pub service_rating : Option ServiceRating

-- `unit_cost` is the Unit-Cost of the Rate-Element of the Monetary-Tariff.
pub record RatedService : Type 0 where
  pub unit_cost : UnitValue
  pub allowed_units : ℕ
  pub price : ℕ

-- `success` tells Success from UnableToComply.
pub record ServiceUsageResponse : Type 0 where
  pub session_id : Text
  pub success : Bool
  pub service_rating : RatedService

-- What a handler does with a message. A panic is a nil dereference, a failed type assertion or a
-- division by zero; a silent handler returns without an answer.
pub data Reply {ℓ} (A : Type ℓ) : Type ℓ where
  answered : A → Reply A
  silent : Reply A
  panics : Reply A

-- A document of policyData.ues.chargingData; `none` where a field is no text.
pub record ChargingData : Type 0 where
  pub quota : Option Text
  pub unit_cost : Option Text

-- The collection behind mongoapi, which is not part of the repository. `get_one` answers none where
-- RestfulAPIGetOne returns a nil map.
pub record Collection : Type 1 where
  pub Db : Type 0
  pub get_one : Db → Text → ℕ → Option ChargingData
  pub put_quota : Db → Text → ℕ → Text → Db

-- RestfulAPIPutOne of a quota where the document exists and the write does not fail: the document
-- has the new quota, and the other documents and fields are as before.
pub record Keeps (c : Collection) : Type 1 where
  pub get-put_same :
      (db : c.Db) (ue : Text) (rg : ℕ) (quota : Text) (d : ChargingData)
      → c.get_one db ue rg ≡ some d
      → c.get_one (c.put_quota db ue rg quota) ue rg ≡ some (record d { quota = some quota })
  pub get-put_other :
      (db : c.Db) (ue ue' : Text) (rg rg' : ℕ) (quota : Text)
      → (ue ≢ ue') ⊎ (rg ≢ rg')
      → c.get_one (c.put_quota db ue rg quota) ue' rg' ≡ c.get_one db ue' rg'
