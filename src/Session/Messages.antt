-- ===== src/Session/Messages.antt =====
-- The requests that `sessionChargingReservation` and `getUnitCost` of
-- internal/sbi/processor/converged_charging.go build, and the subscription that they name.
use chf.Base.{ℕ, ◌==◌, [], ◌∷◌, Option, none, some, drop?, if◌then◌else◌, ◌>>=◌}
use chf.Base.Decimal.{Text, format_int}
use chf.Base.Maps.{text_eq}
use chf.Diameter.{
  CcRequestType, RequestedAction, RequestSubType, SubscriptionIdType, SubscriptionId,
  MultipleServicesCreditControl, AccountDebitRequest, ServiceRating, ServiceUsageRequest,
  ServiceUsageResponse,
}
use chf.Rating.{unit_cost_u32}
use chf.Ue.{ChfUe}
use chf.Session.Peers.{Peers}

-- strings.Split(supi, "-")[0]
unfoldable pub supi_type : Text → Text
supi_type [] = []
supi_type (c ∷ s) = let rest = supi_type s in if c == b'-' then [] else c ∷ rest

abbrev subscription : SubscriptionIdType → Text → Option SubscriptionId
subscription type id = some (record { subscription_id_type = type; subscription_id_data = id })

-- The subscription of a SUPI, where it is of a known kind; `none` outside is a slice out of range.
unfoldable pub subscriber_identifier : Text → Option (Option SubscriptionId)
subscriber_identifier supi =
    let kind = supi_type supi in
    if text_eq kind (b'i' ∷ b'm' ∷ b's' ∷ b'i' ∷ [])
    then (drop? 5 supi >>= λ id. some (subscription SubscriptionIdType.end_user_imsi id))
    else if text_eq kind (b'n' ∷ b'a' ∷ b'i' ∷ [])
    then (drop? 4 supi >>= λ id. some (subscription SubscriptionIdType.end_user_nai id))
    else if text_eq kind (b'g' ∷ b'c' ∷ b'i' ∷ [])
    then (drop? 4 supi >>= λ id. some (subscription SubscriptionIdType.end_user_nai id))
    else if text_eq kind (b'g' ∷ b'l' ∷ b'i' ∷ [])
    then (drop? 4 supi >>= λ id. some (subscription SubscriptionIdType.end_user_nai id))
    else some none

unfoldable pub usage_request : ChfUe → Option SubscriptionId → ServiceRating → ServiceUsageRequest
usage_request ue subscriber rating = record {
  session_id = format_int ue.rate_session_id;
  subscription_id = subscriber;
  service_rating = some rating;
}

-- The zero values of the action and of the request type are DIRECT_DEBITING and no named type. The
-- destination is filled in by the client from the peer's metadata, and is left empty here.
unfoldable pub debit_request :
    ChfUe
    → Option SubscriptionId
    → ℕ
    → RequestedAction
    → CcRequestType
    → MultipleServicesCreditControl
    → AccountDebitRequest
debit_request ue subscriber rg action type m = record {
  session_id = format_int ue.acct_session_id;
  destination_host = [];
  destination_realm = [];
  requested_action = action;
  cc_request_type = type;
  cc_request_number = ue.acct_request_num rg;
  subscription_id = subscriber;
  multiple_services_credit_control = some m;
}

abbrev pub requested_units : ℕ → ℕ → MultipleServicesCreditControl
requested_units rg units = record {
  rating_group = rg;
  requested_service_unit = some units;
  used_service_unit = none;
  granted_service_unit = none;
  final_unit_indication = none;
}

abbrev pub used_units : ℕ → ℕ → MultipleServicesCreditControl
used_units rg units = record {
  rating_group = rg;
  requested_service_unit = none;
  used_service_unit = some units;
  granted_service_unit = none;
  final_unit_indication = none;
}

abbrev pub reserve_rating : ℕ → ℕ → ServiceRating
reserve_rating rg quota = record {
  service_identifier = rg;
  request_sub_type = RequestSubType.reserve;
  consumed_units = 0;
  monetary_quota = quota;
}

abbrev pub debit_rating : ℕ → ℕ → ServiceRating
debit_rating rg units = record {
  service_identifier = rg;
  request_sub_type = RequestSubType.debit;
  consumed_units = units;
  monetary_quota = 0;
}

abbrev unit_cost_or_one : Option ServiceUsageResponse → ℕ
unit_cost_or_one none = 1
unit_cost_or_one (some sua) = unit_cost_u32 sua.service_rating.unit_cost

-- `getUnitCost` with a request: the unit cost is 1 where rating fails. It is the same product as in
-- the rating function.
unfoldable pub get_unit_cost :
    (p : Peers) → p.State → ChfUe → Option SubscriptionId → ℕ → p.State × ℕ
get_unit_cost p st ue subscriber rg =
    let (st', answer) =
      p.send_service_usage st (usage_request ue subscriber (reserve_rating rg 0)) in
    (st', unit_cost_or_one answer)
