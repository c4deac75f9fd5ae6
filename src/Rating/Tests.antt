-- ===== src/Rating/Tests.antt =====
-- Tariffs of pkg/rf/rating.go on concrete texts, and the theorems at concrete inputs.
use chf.Base.{ℕ, ◌+◌, ◌*◌, ◌≤◌, ◌<◌, ◌≡◌, ◌↔◌, refl, arith, true, [], ◌∷◌, Option, none, some}
use chf.Base.Decimal.{Text, parse_int, scan}
use chf.Diameter.{
  RequestSubType, SubscriptionId, SubscriptionIdType, ServiceRating, ServiceUsageRequest,
  ServiceUsageResponse, answered, panics, ChargingData,
}
use chf.Diameter.Table.{table}
use chf.Rating.{dot_index, drop_dots, build_tariff, unit_cost_u32, handle_sur}
use chf.Rating.Price.{unit_cost_u32-point, handle_sur-reserve, handle_sur-panics}
use chf.Base.Word.{mul32}

-- "1.5" costs 150 and not 1.5: the digits behind the point scale up.
fraction_test : unit_cost_u32 (build_tariff (b'1' ∷ b'.' ∷ b'5' ∷ [])) ≡ 150
unfolding build_tariff unit_cost_u32 dot_index drop_dots parse_int scan mul32
fraction_test = refl

unit_cost_u32-point_example : unit_cost_u32 (build_tariff (b'1' ∷ b'.' ∷ b'5' ∷ [])) ≡ 150
unfolding parse_int scan
unit_cost_u32-point_example =
    unit_cost_u32-point (b'1' ∷ []) (b'5' ∷ []) 15 (omega arith, tt) (omega arith, tt) refl
      (omega arith)

abbrev subscriber : SubscriptionId
subscriber = record {
  subscription_id_type = SubscriptionIdType.end_user_imsi;
  subscription_id_data = b'7' ∷ [];
}

abbrev accounts : Text → Text → ℕ → Option ChargingData
accounts cost ue rg = some (record { quota = none; unit_cost = some cost })

abbrev reserving : ServiceRating
reserving = record {
  service_identifier = 1;
  request_sub_type = RequestSubType.reserve;
  consumed_units = 0;
  monetary_quota = 100;
}

abbrev request : ServiceUsageRequest
request = record {
  session_id = [];
  subscription_id = some subscriber;
  service_rating = some reserving;
}

handle_sur-reserve_example :
    (answer : ServiceUsageResponse) × (handle_sur table (accounts (b'7' ∷ [])) (some request)
      ≡ answered answer)
    × (answer.success ≡ true)
    × (answer.service_rating.price
        ≡ answer.service_rating.allowed_units * unit_cost_u32 (build_tariff (b'7' ∷ [])))
    × (answer.service_rating.price ≤ 100)
    × (100 < answer.service_rating.price + unit_cost_u32 (build_tariff (b'7' ∷ [])))
unfolding build_tariff unit_cost_u32 dot_index parse_int scan mul32
handle_sur-reserve_example =
    handle_sur-reserve table (accounts (b'7' ∷ [])) request reserving subscriber
      (record { quota = none; unit_cost = some (b'7' ∷ []) }) (b'7' ∷ []) refl refl refl refl refl
      (omega arith) (omega arith)

handle_sur-panics_example :
    (handle_sur table (accounts (b'0' ∷ [])) (some request) ≡ panics)
    ↔ (unit_cost_u32 (build_tariff (b'0' ∷ [])) ≡ 0)
handle_sur-panics_example =
    handle_sur-panics table (accounts (b'0' ∷ [])) request reserving subscriber
      (record { quota = none; unit_cost = some (b'0' ∷ []) }) (b'0' ∷ []) refl refl refl refl refl
