-- ===== src/Account.antt =====
-- The account balance function: the Credit-Control handler of pkg/abmf/abmf.go.
pub mod Balance
pub mod Others
pub mod Ledger
pub mod Refines
mod Tests
use chf.Base.{
  ℕ, ◌+◌, ◌-◌, ◌*◌, ◌/◌, ◌%◌, ◌^◌, Bool, true, false, List, [], ◌∷◌, ◌++◌, Option, none, some, ltb,
  leb, if◌then◌else◌, ◌>>=◌, length,
}
use chf.Base.Word.{add64, sub64, slt64}
use chf.Base.Decimal.{Text, format_int, parse_int}
use chf.Diameter.{
  CcRequestType, RequestedAction, FinalUnitAction, SubscriptionIdType, SubscriptionId,
  MultipleServicesCreditControl, AccountDebitRequest, UnitValue, AccountDebitResponse, Reply,
  answered, silent, panics, ChargingData, Collection,
}

abbrev pub imsi_prefix : Text
imsi_prefix = b'i' ∷ b'm' ∷ b's' ∷ b'i' ∷ b'-' ∷ []

abbrev account_of : SubscriptionIdType → Text → Text
account_of SubscriptionIdType.end_user_imsi imsi = imsi_prefix ++ imsi
account_of _ imsi = []

-- The document key of a subscription; only IMSI subscriptions have one.
unfoldable pub subscriber_id : SubscriptionId → Text
subscriber_id s = account_of s.subscription_id_type s.subscription_id_data

-- The new quota, and the credit control part of the answer. The quota is an int64 pattern.
unfoldable pub refund : ℕ → ℕ → ℕ
refund quota units = add64 quota units

-- A request above the quota is cut to the quota and marked as the last one.
unfoldable pub grant : ℕ → ℕ → ℕ
grant quota request = if slt64 quota request then quota else request

unfoldable pub final_indication : ℕ → ℕ → Option FinalUnitAction
final_indication quota request =
    if slt64 quota request then some FinalUnitAction.terminate else none

unfoldable pub debit_granted : ℕ → ℕ → ℕ
debit_granted quota request = sub64 quota (grant quota request)

abbrev pub granted_control : ℕ → ℕ → ℕ → MultipleServicesCreditControl
granted_control rg quota request = record {
  rating_group = rg;
  requested_service_unit = none;
  used_service_unit = none;
  granted_service_unit = some (grant quota request);
  final_unit_indication = final_indication quota request;
}

-- The switch on the request type under DIRECT_DEBITING.
unfoldable pub direct_debit :
    CcRequestType
    → MultipleServicesCreditControl
    → ℕ
    → Option (ℕ × Option MultipleServicesCreditControl)
direct_debit CcRequestType.initial_request m quota = do
  request ← m.requested_service_unit
  some (debit_granted quota request, some (granted_control m.rating_group quota request))
direct_debit CcRequestType.update_request m quota = do
  request ← m.requested_service_unit
  some (debit_granted quota request, some (granted_control m.rating_group quota request))
direct_debit CcRequestType.termination_request m quota = do
  used ← m.used_service_unit
  some (sub64 quota used, none)
direct_debit _ m quota = some (quota, none)

-- The switch on the action; `none` is the nil dereference of a missing unit.
unfoldable pub settle :
    RequestedAction
    → CcRequestType
    → MultipleServicesCreditControl
    → ℕ
    → Option (ℕ × Option MultipleServicesCreditControl)
settle RequestedAction.refund_account type m quota = do
  units ← m.requested_service_unit
  some (refund quota units, none)
settle RequestedAction.direct_debiting type m quota = direct_debit type m quota
settle _ type m quota = some (quota, none)

-- `quota / int64(math.Pow10(exp))` with the sign of a division that truncates. A text of twenty
-- characters has the exponent 19, and amd64 converts 1e19 to the least int64.
abbrev value_digits_of : ℕ → ℕ → ℕ
value_digits_of quota exp =
    if ltb quota (2 ^ 63)
    then quota / 10 ^ exp
    else if leb exp 18
    then (2 ^ 64 - (2 ^ 64 - quota) / 10 ^ exp) % 2 ^ 64
    else (2 ^ 64 - quota) / 2 ^ 63

-- The balance as digits and a power of ten: the exponent is one less than the length of the text.
unfoldable pub remaining_balance : ℕ → UnitValue
remaining_balance quota =
    let exp = length (format_int quota) - 1 in
    record { value_digits = value_digits_of quota exp; exponent = exp }

abbrev empty_answer : AccountDebitResponse
empty_answer = record {
  session_id = [];
  origin_host = [];
  origin_realm = [];
  cc_request_type = CcRequestType.unnamed;
  cc_request_number = 0;
  remaining_balance = none;
  multiple_services_credit_control = none;
}

-- Only a direct debiting is answered with content.
unfoldable pub answer :
    RequestedAction
    → AccountDebitRequest
    → ℕ
    → Option MultipleServicesCreditControl
    → AccountDebitResponse
answer RequestedAction.direct_debiting ccr quota control = record {
  session_id = ccr.session_id;
  origin_host = ccr.destination_host;
  origin_realm = ccr.destination_realm;
  cc_request_type = ccr.cc_request_type;
  cc_request_number = ccr.cc_request_number;
  remaining_balance = some (remaining_balance quota);
  multiple_services_credit_control = control;
}
answer _ ccr quota control = empty_answer

module _ (c : Collection) where
  open c use {Db, get_one, put_quota}

  -- The write of the new quota, and the answer.
  unfoldable pub put_balance :
      Db
      → AccountDebitRequest
      → Text
      → ℕ
      → Option (ℕ × Option MultipleServicesCreditControl)
      → Db × Reply AccountDebitResponse
  put_balance db ccr ue rg none = (db, panics)
  put_balance db ccr ue rg (some (quota, control)) = (
    put_quota db ue rg (format_int quota),
    answered (answer ccr.requested_action ccr quota control),
  )

  unfoldable pub with_quota :
      Db
      → AccountDebitRequest
      → Text
      → MultipleServicesCreditControl
      → Option ℕ
      → Db × Reply AccountDebitResponse
  with_quota db ccr ue m none = (db, silent)
  with_quota db ccr ue m (some quota) =
      put_balance db ccr ue m.rating_group (settle ccr.requested_action ccr.cc_request_type m quota)

  -- The quota of the document is a text, or the type assertion panics.
  unfoldable pub with_text :
      Db
      → AccountDebitRequest
      → Text
      → MultipleServicesCreditControl
      → Option Text
      → Db × Reply AccountDebitResponse
  with_text db ccr ue m none = (db, panics)
  with_text db ccr ue m (some text) = with_quota db ccr ue m (parse_int text)

  unfoldable pub with_document :
      Db
      → AccountDebitRequest
      → Text
      → MultipleServicesCreditControl
      → Option ChargingData
      → Db × Reply AccountDebitResponse
  with_document db ccr ue m none = (db, silent)
  with_document db ccr ue m (some d) = with_text db ccr ue m d.quota

  unfoldable pub with_parts :
      Db
      → AccountDebitRequest
      → Option SubscriptionId
      → Option MultipleServicesCreditControl
      → Db × Reply AccountDebitResponse
  with_parts db ccr none m = (db, panics)
  with_parts db ccr (some s) none = (db, panics)
  with_parts db ccr (some s) (some m) =
      with_document db ccr (subscriber_id s) m (get_one db (subscriber_id s) m.rating_group)

  -- `handleCCR`; the message is none where it cannot be parsed.
  unfoldable pub handle_ccr : Db → Option AccountDebitRequest → Db × Reply AccountDebitResponse
  handle_ccr db none = (db, silent)
  handle_ccr db (some ccr) =
      with_parts db ccr ccr.subscription_id ccr.multiple_services_credit_control
