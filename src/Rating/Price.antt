-- ===== src/Rating/Price.antt =====
-- Tariffs, prices and allowed units of the rating function (`buildTaffif` and `handleSUR` of
-- pkg/rf/rating.go).
use native.Mathlib.Nat.{div-add-mod', mod-lt, mul-add-mod_self_right}
use native.Mathlib.Decide.{ℕ_discrete}
use chf.Base.{
  ℕ, ◌+◌, ◌-◌, ◌*◌, ◌/◌, ◌%◌, ◌^◌, ◌<◌, ◌≤◌, ◌≡◌, ◌≢◌, refl, sym, ap, ◌∙◌, arith, true, false, [],
  ◌∷◌, ◌++◌, none, some, leb, ◌==◌, length, length-append, All, ◌↔◌,
}
use chf.Base.Word.{IsU32, mul32}
use chf.Base.Decimal.{Text, parse_int}
use chf.Diameter.{
  RequestSubType, SubscriptionId, ServiceRating, ServiceUsageRequest, ServiceUsageResponse,
  answered, panics, ChargingData, Collection,
}
use chf.Account.{subscriber_id}
use chf.Rating.{
  dot_index, drop_dots, build_tariff, unit_cost_u32, rate, with_unit_cost, with_charging_data,
  with_request, handle_sur,
}

abbrev pub IsUndotted : Text → Type 0
IsUndotted s = All (λ c. c ≢ b'.') s

dot_index-whole : (s : Text) → IsUndotted s → dot_index s ≡ none
unfolding dot_index
dot_index-whole [] h = refl
dot_index-whole (c ∷ s) (hc, h) = ground (arith, dot_index-whole s h)

drop_dots-whole : (s : Text) → IsUndotted s → drop_dots s ≡ s
unfolding drop_dots
drop_dots-whole [] h = refl
drop_dots-whole (c ∷ s) (hc, h) = ground (arith, drop_dots-whole s h)

dot_index-point : (w f : Text) → IsUndotted w → dot_index (w ++ b'.' ∷ f) ≡ some (length w)
unfolding dot_index
dot_index-point [] f h = refl
dot_index-point (c ∷ w) f (hc, h) = ground (arith, dot_index-point w f h)

drop_dots-point : (w f : Text) → IsUndotted w → IsUndotted f → drop_dots (w ++ b'.' ∷ f) ≡ w ++ f
unfolding drop_dots
drop_dots-point [] f hw hf = drop_dots-whole f hf
drop_dots-point (c ∷ w) f (hc, hw) hf = ground (arith, drop_dots-point w f hw hf)

-- A product modulo m sees its factors modulo m.
mul_mod_left : (n x m : ℕ) → n % m * x % m ≡ n * x % m
mul_mod_left n x m = go (n / m) (n % m) (div-add-mod' n m)
  where
    go : (q r : ℕ) → q * m + r ≡ n → r * x % m ≡ n * x % m
    go q r e =
        let p : q * x * m + r * x ≡ n * x = rw (← e) (omega arith) in
        rw (← p) (sym (mul-add-mod_self_right (q * x) m (r * x)))

mul_mod : (n x m : ℕ) → n % m * (x % m) % m ≡ n * x % m
mul_mod n x m =
    mul_mod_left n (x % m) m
    ∙ ap (λ y. y % m) (let p : n * (x % m) ≡ x % m * n = omega arith in p)
    ∙ mul_mod_left x n m
    ∙ ap (λ y. y % m) (let p : x * n ≡ n * x = omega arith in p)

-- A unit cost written with one decimal point and fewer than 19 characters behind it, which is a
-- number without the point, counts all its digits as a whole number and multiplies them by ten for
-- each digit behind the point, modulo 2^32.
pub unit_cost_u32-point :
    (w f : Text) (n : ℕ)
    → IsUndotted w
    → IsUndotted f
    → parse_int (w ++ f) ≡ some n
    → length f < 19
    → unit_cost_u32 (build_tariff (w ++ b'.' ∷ f)) ≡ n * 10 ^ length f % 2 ^ 32
unfolding build_tariff unit_cost_u32 mul32
unit_cost_u32-point w f n hw hf e small =
    let behind : length (w ++ b'.' ∷ f) - length w - 1 ≡ length f =
      omega (arith, length-append w (b'.' ∷ f)) in
    let fits : leb (length f) 18 ≡ true = ground arith in
    rw (dot_index-point w f hw, drop_dots-point w f hw hf, e, behind, fits)
      (mul_mod n (10 ^ length f) (2 ^ 32))

-- The divisor's multiple below a number.
quotient_bounds : (n d : ℕ) → d ≢ 0 → (n / d * d ≤ n) × (n < n / d * d + d)
quotient_bounds n d h =
    let e = div-add-mod' n d in
    let r = mod-lt n {m = d} (omega (arith, h)) in (omega (arith, e), omega (arith, e, r))

module _ (c : Collection) (db : c.Db) (sur : ServiceUsageRequest) (sr : ServiceRating)
    (s : SubscriptionId) (d : ChargingData) (text : Text) (asks : sur.service_rating ≡ some sr)
    (subscribed : sur.subscription_id ≡ some s)
    (found : c.get_one db (subscriber_id s) sr.service_identifier ≡ some d)
    (priced : d.unit_cost ≡ some text) where
  abbrev cost : ℕ
  cost = unit_cost_u32 (build_tariff text)

  handle_sur_found : handle_sur c db (some sur) ≡ with_unit_cost sur sr (some text)
  unfolding handle_sur with_request with_charging_data
  handle_sur_found = rw (asks, subscribed, found, priced)

  reserved_answer : ServiceUsageResponse
  reserved_answer = record {
    session_id = sur.session_id;
    success = true;
    service_rating = record {
      unit_cost = build_tariff text;
      allowed_units = sr.monetary_quota / cost;
      price = mul32 (sr.monetary_quota / cost) cost;
    };
  }

  handle_sur_positive :
      sr.request_sub_type ≡ RequestSubType.reserve
      → cost ≢ 0
      → handle_sur c db (some sur) ≡ answered reserved_answer
  unfolding with_unit_cost rate reserved_answer
  handle_sur_positive e h =
      let positive : (cost == 0) ≡ false = ground (arith, h) in
      handle_sur_found ∙ (rw (e, positive) refl)

  -- A request with a subscription to reserve units for a monetary quota of 32 bits, for a rating
  -- group whose unit cost is a text and not 0: the answer is successful, the price is the allowed
  -- units at the unit cost without overflow, and they are the most that the quota pays for.
  pub handle_sur-reserve :
      sr.request_sub_type ≡ RequestSubType.reserve
      → IsU32 sr.monetary_quota
      → cost ≢ 0
      → (answer : ServiceUsageResponse) × (handle_sur c db (some sur) ≡ answered answer)
        × (answer.success ≡ true)
        × (answer.service_rating.price ≡ answer.service_rating.allowed_units * cost)
        × (answer.service_rating.price ≤ sr.monetary_quota)
        × (sr.monetary_quota < answer.service_rating.price + cost)
  unfolding reserved_answer
  handle_sur-reserve e small h =
      let (low, high) = quotient_bounds sr.monetary_quota cost h in
      let whole : mul32 (sr.monetary_quota / cost) cost ≡ sr.monetary_quota / cost * cost =
        unfold mul32 in omega (arith, low, small) in
      (reserved_answer, handle_sur_positive e h, refl, whole, rw whole low, rw whole high)

  -- On a request with a subscription to reserve units for a rating group whose unit cost is a
  -- text, the rating function panics exactly where that unit cost is 0.
  pub handle_sur-panics :
      sr.request_sub_type ≡ RequestSubType.reserve
      → (handle_sur c db (some sur) ≡ panics) ↔ (cost ≡ 0)
  unfolding with_unit_cost rate
  handle_sur-panics e = elim (ℕ_discrete cost 0) [
    | yes p ↦ (λ _. p, λ _. handle_sur_found ∙ rw (e, p) refl)
    | no n ↦ (λ h. cc (sym h ∙ handle_sur_positive e n), λ p. absurd (n p))
  ]
