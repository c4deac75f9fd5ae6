-- ===== src/Session/Tests.antt =====
-- Sessions on concrete accounts (internal/sbi/processor/converged_charging.go), and the theorems at
-- concrete inputs.
use chf.Base.{
  ◌≤◌, ◌+◌, true, inr, inl, ◌%◌, ◌^◌, ℕ, ◌≡◌, refl, arith, Bool, false, List, [], ◌∷◌, Option, none,
  some,
}
use chf.Base.Maps.{text_eq, update}
use chf.Base.Word.{add64, slt64, sub64, mul32, pos32}
use chf.Diameter.{CcRequestType, RequestSubType, SubscriptionId, SubscriptionIdType, ChargingData}
use chf.Models.{
  TriggerType, QuotaManagementIndicator, UsedUnitContainer, MultipleUnitUsage,
  MultipleUnitInformation, ChargingDataRequest,
}
use chf.Ue.{find_rating_group, ChfUe}
use chf.Rating.{
  unit_cost_u32, handle_sur, with_request, with_charging_data, with_unit_cost, rate, build_tariff,
  dot_index, drop_dots, no_charging_data,
}
use chf.Base.Decimal.{format_digits, format_int, Text, parse_int, scan}
use chf.Session.Peers.{Peers, servers}
use chf.Session.Scan.{trigger, scan_used_units, scan_triggers, register_rating_group, choose_mode}
use chf.Session.Messages.{
  supi_type, subscriber_identifier, usage_request, debit_request, get_unit_cost,
}
use chf.Session.Reserve.{
  granted, apply_grant, volume_triggers, fill_information, grant_answered, grant_units,
  reserve_answered, reserve_account, use_reserved, reserve_units, reserve_case,
}
use chf.Session.Loop.{
  charge_by_type, charge_scanned, charge_usage, charge_usages, session_charging_reservation,
}
use chf.Session.Untouched.{session_charging_reservation-Stays}
use chf.Session.Usage.{UsagePays, charge_usage-UsagePays, session_charging_reservation-Pays}
use chf.Session.Grants.{granted_total, requested_total, session_charging_reservation-Grants}
use chf.Diameter.Table.{table, table-Keeps}
use chf.Account.{
  subscriber_id, handle_ccr, with_parts, with_document, with_text, with_quota, put_balance, settle,
  direct_debit, answer, debit_granted, final_indication, grant, refund, remaining_balance,
}
use chf.Account.Balance.{balance}
use chf.Models
use chf.Session.Debit.{
  settle_price, debit_answered, debit_case, settle_answered, settle_request, settled_information,
}
use chf.Session.Money.{funds}
use chf.Session.Settle.{Settles, settle_price-Settles}

abbrev imsi : Text
imsi = b'i' ∷ b'm' ∷ b's' ∷ b'i' ∷ b'-' ∷ b'7' ∷ []

abbrev subscriber : SubscriptionId
subscriber = record {
  subscription_id_type = SubscriptionIdType.end_user_imsi;
  subscription_id_data = b'7' ∷ [];
}

-- Every account holds 100, at a unit cost of 2.
abbrev accounts : Text → ℕ → Option ChargingData
accounts ue rg =
    some (record { quota = some (b'1' ∷ b'0' ∷ b'0' ∷ []); unit_cost = some (b'2' ∷ []) })

abbrev fresh : ChfUe
fresh = record {
  supi = imsi;
  rating_groups = [];
  quota_validity_time = 0;
  volume_limit = 0;
  volume_limit_pdu = 0;
  volume_threshold = λ units. units;
  notify_uri = [];
  reserved_quota = λ rg. 0;
  unit_cost = λ rg. 0;
  acct_request_num = λ rg. 0;
  acct_session_id = 1;
  rating_type = λ rg. RequestSubType.aoc;
  rate_session_id = 1;
}

abbrev online : ℕ → UsedUnitContainer
online volume = record {
  quota_management_indicator = QuotaManagementIndicator.online_charging;
  local_sequence_number = 1;
  uplink_volume = 0;
  downlink_volume = 0;
  total_volume = volume;
  service_specific_units = 0;
}

abbrev usage : Option ℕ → ℕ → MultipleUnitUsage
usage requested used = record {
  rating_group = 1;
  upf_id = [];
  requested_unit = requested;
  used_unit_container = online used ∷ [];
}

abbrev update_request : List MultipleUnitUsage → ChargingDataRequest
update_request usages = record {
  subscriber_identifier = imsi;
  nf_consumer_identification = none;
  invocation_sequence_number = 1;
  notify_uri = [];
  one_time_event = false;
  charging_id = 1;
  service_specification_info = [];
  multiple_unit_usage = usages;
  triggers = [];
  registration_charging_information = false;
  pdu_session_charging_information = none;
}

after_first :
    Option (ChfUe × (Text → ℕ → Option ChargingData) × Bool × List MultipleUnitInformation)
after_first =
    session_charging_reservation (servers table) accounts fresh
      (update_request (usage (some 10) 0 ∷ usage (some 30) 5 ∷ []))

-- Thirty units are reserved already; ten more are used at a unit cost of 2.
abbrev running : ChfUe
running = record fresh { reserved_quota = λ rg. 30 }

abbrev blank : MultipleUnitInformation
blank = record {
  upf_id = [];
  final_unit_indication = Models.FinalUnitAction.unnamed;
  rating_group = 1;
  triggers = [];
  volume_quota_threshold = 0;
  granted_unit = none;
  validity_time = 0;
}

hundred : balance table accounts (subscriber_id subscriber) 1 ≡ some 100
unfolding parse_int scan
hundred = refl

charge_usage-UsagePays_example :
    UsagePays table subscriber 1
      (funds 100 30)
      (mul32 (5 % 2 ^ 32) (get_unit_cost (servers table) accounts running (some subscriber) 1).1)
      (charge_usage
        (servers table)
        (some subscriber)
        []
        0
        (usage (some 10) 5)
        accounts
        running
        false)
unfolding pos32 find_rating_group
charge_usage-UsagePays_example =
    charge_usage-UsagePays table subscriber table-Keeps 0 100 10 (usage (some 10) 5) [] accounts
      running false refl refl refl (inl refl) hundred (omega arith)

settle_price-Settles_example :
    Settles table subscriber 1
      (sub64 (funds 100 30) 20)
      (settle_price (servers table) (some subscriber) 1 20 accounts running blank)
settle_price-Settles_example =
    settle_price-Settles table subscriber 1 table-Keeps 100 20 accounts running blank hundred
      (omega arith) (omega arith)

-- Peers that always allow 7 units at a unit cost of 2 and grant 20, and count the requests.
abbrev generous : Peers
generous = record {
  State = ℕ;
  send_service_usage = λ st sur. (
    st + 1,
    some (record {
      session_id = [];
      success = true;
      service_rating = record {
        unit_cost = record { value_digits = 2; exponent = 0 };
        allowed_units = 7;
        price = 14;
      };
    }),
  );
  send_account_debit = λ st ccr. (
    st + 1,
    some (record {
      session_id = [];
      origin_host = [];
      origin_realm = [];
      cc_request_type = CcRequestType.update_request;
      cc_request_number = 0;
      remaining_balance = none;
      multiple_services_credit_control = some (record {
        rating_group = 1;
        requested_service_unit = none;
        used_service_unit = none;
        granted_service_unit = some 20;
        final_unit_indication = none;
      });
    }),
  );
}

abbrev granted_information : MultipleUnitInformation
granted_information = record {
  upf_id = [];
  final_unit_indication = Models.FinalUnitAction.unnamed;
  rating_group = 1;
  triggers = trigger TriggerType.quota_threshold ∷ trigger TriggerType.quota_exhausted ∷ [];
  volume_quota_threshold = 7;
  granted_unit = some (granted 7);
  validity_time = 0;
}

session_charging_reservation-Grants_example :
    granted_total (granted_information ∷ []) ≤ requested_total (usage (some 10) 5 ∷ [])
unfolding session_charging_reservation subscriber_identifier supi_type text_eq charge_usages
    charge_usage charge_scanned scan_used_units scan_triggers register_rating_group
    find_rating_group choose_mode charge_by_type reserve_case pos32 get_unit_cost usage_request
    unit_cost_u32 mul32 reserve_units use_reserved update sub64 slt64 reserve_account
    reserve_answered debit_request apply_grant grant_units grant_answered fill_information
    volume_triggers add64
session_charging_reservation-Grants_example =
    session_charging_reservation-Grants generous 0 fresh (update_request (usage (some 10) 5 ∷ []))
      (_, _, _, granted_information ∷ []) refl

-- What a request leaves, or the start where it panics.
left_or : {A : Type 0} → A → Option A → A
left_or start none = start
left_or start (some a) = a

abbrev one_update : ChargingDataRequest
one_update = update_request (usage (some 10) 5 ∷ [])

abbrev after_update : ChfUe × (Text → ℕ → Option ChargingData) × Bool × List MultipleUnitInformation
after_update =
    left_or (fresh, accounts, false, [])
      (session_charging_reservation (servers table) accounts fresh one_update)

updated : session_charging_reservation (servers table) accounts fresh one_update ≡ some after_update
unfolding left_or session_charging_reservation subscriber_identifier supi_type text_eq charge_usages
    charge_usage charge_scanned scan_used_units scan_triggers register_rating_group
    find_rating_group choose_mode charge_by_type reserve_case pos32 get_unit_cost usage_request
    unit_cost_u32 mul32 reserve_units use_reserved update sub64 slt64 reserve_account
    reserve_answered debit_request apply_grant grant_units grant_answered fill_information
    volume_triggers add64 handle_sur with_request with_charging_data with_unit_cost rate
    build_tariff dot_index parse_int scan handle_ccr with_parts with_document with_text with_quota
    put_balance settle direct_debit answer debit_granted final_indication grant refund
    remaining_balance subscriber_id format_digits format_int drop_dots no_charging_data
    debit_answered debit_case settle_answered settle_price settle_request settled_information
updated = refl

session_charging_reservation-Stays_example :
    (balance table (after_update.1) (subscriber_id subscriber) 2
      ≡ balance table accounts (subscriber_id subscriber) 2)
    × ((after_update.0).reserved_quota 2 ≡ 0)
unfolding subscriber_identifier supi_type text_eq
session_charging_reservation-Stays_example =
    session_charging_reservation-Stays table (some subscriber) (subscriber_id subscriber) 2 2
      accounts fresh one_update after_update table-Keeps refl ((inr (omega arith), omega arith), tt)
      updated

session_charging_reservation-Pays_example :
    (quota : ℕ) × (balance table (after_update.1) (subscriber_id subscriber) 1 ≡ some quota)
    × (funds quota ((after_update.0).reserved_quota 1)
        ≡ sub64 (funds 100 0) (
            mul32
              (5 % 2 ^ 32)
              (get_unit_cost (servers table) accounts fresh (some subscriber) 1).1))
unfolding left_or session_charging_reservation subscriber_identifier supi_type text_eq charge_usages
    charge_usage charge_scanned scan_used_units scan_triggers register_rating_group
    find_rating_group choose_mode charge_by_type reserve_case pos32 get_unit_cost usage_request
    unit_cost_u32 mul32 reserve_units use_reserved update sub64 slt64 reserve_account
    reserve_answered debit_request apply_grant grant_units grant_answered fill_information
    volume_triggers add64 handle_sur with_request with_charging_data with_unit_cost rate
    build_tariff dot_index parse_int scan handle_ccr with_parts with_document with_text with_quota
    put_balance settle direct_debit answer debit_granted final_indication grant refund
    remaining_balance subscriber_id format_digits format_int drop_dots no_charging_data
    debit_answered debit_case settle_answered settle_price settle_request settled_information
session_charging_reservation-Pays_example =
    session_charging_reservation-Pays table subscriber 10 100 (usage (some 10) 5) [] accounts fresh
      one_update after_update table-Keeps refl refl tt refl refl refl (inl refl) hundred
      (omega arith) updated
