-- ===== src/Account/Tests.antt =====
-- The handler of pkg/abmf/abmf.go on concrete accounts, and the theorems at concrete inputs.
use chf.Base.{ℕ, ◌≡◌, inr, refl, arith, false, [], ◌∷◌, Option, none, some}
use chf.Base.Word.{add64, slt64}
use chf.Base.Decimal.{Text, parse_int, scan}
use chf.Diameter.{
  CcRequestType, RequestedAction, FinalUnitAction, SubscriptionIdType, SubscriptionId,
  MultipleServicesCreditControl, AccountDebitRequest, ChargingData,
}
use chf.Diameter.Table.{table, table-Keeps}
use chf.Account.{subscriber_id, handle_ccr}
use chf.Account.Ledger.{ledger_run}
use chf.Account.Refines.{run, run-ledger_run}
use chf.Account.Balance.{balance, reply_control, handle_ccr-Reserves}

abbrev subscriber : SubscriptionId
subscriber = record {
  subscription_id_type = SubscriptionIdType.end_user_imsi;
  subscription_id_data = b'7' ∷ [];
}

abbrev units : Option ℕ → Option ℕ → MultipleServicesCreditControl
units requested used = record {
  rating_group = 1;
  requested_service_unit = requested;
  used_service_unit = used;
  granted_service_unit = none;
  final_unit_indication = none;
}

abbrev request :
    RequestedAction → CcRequestType → MultipleServicesCreditControl → AccountDebitRequest
request action type m = record {
  session_id = [];
  destination_host = [];
  destination_realm = [];
  requested_action = action;
  cc_request_type = type;
  cc_request_number = 0;
  subscription_id = some subscriber;
  multiple_services_credit_control = some m;
}

-- Every account holds 100.
abbrev accounts : Text → ℕ → Option ChargingData
accounts ue rg = some (record { quota = some (b'1' ∷ b'0' ∷ b'0' ∷ []); unit_cost = none })

hundred : balance table accounts (subscriber_id subscriber) 1 ≡ some 100
unfolding parse_int scan
hundred = refl

handle_ccr-Reserves_example :
    let (db', reply) = handle_ccr table accounts (
      some (
        request RequestedAction.direct_debiting CcRequestType.update_request
          (units (some 150) none))) in
    (granted : ℕ) × (remaining : ℕ) × (balance table db' (subscriber_id subscriber) 1
      ≡ some remaining)
    × (reply_control reply
        ≡ some (record {
          rating_group = 1;
          requested_service_unit = none;
          used_service_unit = none;
          granted_service_unit = some granted;
          final_unit_indication = some FinalUnitAction.terminate;
        }))
    × (add64 remaining granted ≡ 100)
    × (slt64 150 granted ≡ false)
    × (slt64 100 granted ≡ false)
unfolding slt64
handle_ccr-Reserves_example =
    handle_ccr-Reserves table table-Keeps accounts
      (request RequestedAction.direct_debiting CcRequestType.update_request (units (some 150) none))
      subscriber (units (some 150) none) 100 150 refl refl (refl, inr refl) refl (omega arith)
      hundred

abbrev first_reservation : AccountDebitRequest
first_reservation =
    request RequestedAction.direct_debiting CcRequestType.initial_request (units (some 60) none)

abbrev give_back : AccountDebitRequest
give_back = request RequestedAction.refund_account CcRequestType.unnamed (units (some 60) none)

run-ledger_run_example :
    let (db, grants) = run table accounts (some first_reservation ∷ some give_back ∷ none ∷ []) in
    (balance table db, grants)
    ≡ ledger_run (balance table accounts) (some first_reservation ∷ some give_back ∷ none ∷ [])
run-ledger_run_example =
    run-ledger_run table accounts (some first_reservation ∷ some give_back ∷ none ∷ []) table-Keeps
