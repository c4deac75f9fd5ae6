-- ===== src/Rating.antt =====
-- The rating function: the Service-Usage handler of pkg/rf/rating.go.
pub mod Price
mod Tests
use chf.Base.{
  ℕ, zero, suc, ◌+◌, ◌-◌, ◌*◌, ◌/◌, ◌%◌, ◌^◌, Bool, true, false, List, [], ◌∷◌, ◌++◌, Option, none,
  some, leb, ◌==◌, if◌then◌else◌, length,
}
use chf.Base.Word.{mul32}
use chf.Base.Decimal.{Text, parse_int}
use chf.Diameter.{
  RequestSubType, SubscriptionId, ServiceRating, ServiceUsageRequest, UnitValue, RatedService,
  ServiceUsageResponse, Reply, answered, silent, panics, ChargingData, Collection,
}
use chf.Account.{subscriber_id}

-- strings.Index(s, "."), where none stands for -1.
unfoldable pub dot_index : Text → Option ℕ
dot_index [] = none
dot_index (c ∷ s) =
    if c == b'.' then some 0 else elim (dot_index s) [ none ↦ none | some i ↦ some (suc i) ]

-- strings.ReplaceAll(s, ".", "")
unfoldable pub drop_dots : Text → Text
drop_dots [] = []
drop_dots (c ∷ s) = let rest = drop_dots s in if c == b'.' then rest else c ∷ rest

-- The digits stay 0 where strconv.Atoi fails.
abbrev pub digits_or_zero : Option ℕ → ℕ
digits_or_zero none = 0
digits_or_zero (some n) = n

abbrev unit_cost_at : Text → Option ℕ → UnitValue
unit_cost_at s none = record { value_digits = digits_or_zero (parse_int s); exponent = 0 }
unit_cost_at s (some dot) = record {
  value_digits = digits_or_zero (parse_int (drop_dots s));
  exponent = length s - dot - 1;
}

-- The unit cost of the tariff; its other fields are constants.
unfoldable pub build_tariff : Text → UnitValue
build_tariff s = unit_cost_at s (dot_index s)

-- `Unsigned32(digits) * Unsigned32(math.Pow10(exp))`; on amd64 the conversion of a power of ten
-- that an int64 does not hold gives a multiple of 2^32.
unfoldable pub unit_cost_u32 : UnitValue → ℕ
unit_cost_u32 u =
    mul32 (u.value_digits % 2 ^ 32) (if leb u.exponent 18 then 10 ^ u.exponent % 2 ^ 32 else 0)

-- Price and allowed units by the kind of request; reserving under a unit cost of 0 divides by it.
unfoldable pub rate : RequestSubType → ServiceRating → UnitValue → ℕ → Option RatedService
rate RequestSubType.debit sr tariff unit_cost =
    some
      (record { unit_cost = tariff; allowed_units = 0; price = mul32 sr.consumed_units unit_cost })
rate RequestSubType.reserve sr tariff unit_cost =
    if unit_cost == 0
    then none
    else some (record {
      unit_cost = tariff;
      allowed_units = sr.monetary_quota / unit_cost;
      price = mul32 (sr.monetary_quota / unit_cost) unit_cost;
    })
rate _ sr tariff unit_cost = some (record { unit_cost = tariff; allowed_units = 0; price = 0 })

abbrev answer_rated : ServiceUsageRequest → Option RatedService → Reply ServiceUsageResponse
answer_rated sur none = panics
answer_rated sur (some rated) =
    answered (record { session_id = sur.session_id; success = true; service_rating = rated })

-- The answer where the collection has no charging data: nothing is allowed, at the tariff "1".
unfoldable pub no_charging_data : ServiceUsageRequest → ServiceUsageResponse
no_charging_data sur = record {
  session_id = sur.session_id;
  success = false;
  service_rating = record { unit_cost = build_tariff (b'1' ∷ []); allowed_units = 0; price = 0 };
}

unfoldable pub with_unit_cost :
    ServiceUsageRequest → ServiceRating → Option Text → Reply ServiceUsageResponse
with_unit_cost sur sr none = panics
with_unit_cost sur sr (some text) =
    answer_rated sur
      (rate sr.request_sub_type sr (build_tariff text) (unit_cost_u32 (build_tariff text)))

unfoldable pub with_charging_data :
    ServiceUsageRequest → ServiceRating → Option ChargingData → Reply ServiceUsageResponse
with_charging_data sur sr none = answered (no_charging_data sur)
with_charging_data sur sr (some d) = with_unit_cost sur sr d.unit_cost

module _ (c : Collection) where
  open c use {Db, get_one}

  unfoldable pub with_request :
      Db
      → ServiceUsageRequest
      → Option ServiceRating
      → Option SubscriptionId
      → Reply ServiceUsageResponse
  with_request db sur none s = panics
  with_request db sur (some sr) none = panics
  with_request db sur (some sr) (some s) =
      with_charging_data sur sr (get_one db (subscriber_id s) sr.service_identifier)

  -- `handleSUR`; the message is none where it cannot be parsed. It only reads the collection.
  unfoldable pub handle_sur : Db → Option ServiceUsageRequest → Reply ServiceUsageResponse
  handle_sur db none = silent
  handle_sur db (some sur) = with_request db sur sur.service_rating sur.subscription_id
