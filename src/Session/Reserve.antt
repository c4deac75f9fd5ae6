-- ===== src/Session/Reserve.antt =====
-- The REQ_SUBTYPE_RESERVE case of `sessionChargingReservation` in
-- internal/sbi/processor/converged_charging.go. The outer Option is a panic, the inner one tells a
-- finished case from a `continue`.
use chf.Base.{
  ℕ, ◌==◌, true, false, List, [], ◌∷◌, ◌++◌, Option, none, some, ltb, if◌then◌else◌, ◌>>=◌,
}
use chf.Base.Word.{add64, sub64, slt64, mul32, pos32}
use chf.Base.Maps.{update}
use chf.Diameter.{
  CcRequestType, RequestedAction, RequestSubType, FinalUnitAction, SubscriptionId,
  MultipleServicesCreditControl, AccountDebitResponse, ServiceUsageResponse,
}
use chf.Models
use chf.Models.{TriggerType, TriggerCategory, Trigger, GrantedUnit, MultipleUnitInformation}
use chf.Ue.{ChfUe}
use chf.Session.Peers.{Peers}
use chf.Session.Scan.{trigger}
use chf.Session.Messages.{
  usage_request, debit_request, requested_units, reserve_rating, get_unit_cost,
}

-- The subscriber's state, the peers' state, and the information for the rating group if the case came
-- to its end.
abbrev pub Outcome : Peers → Type 0
Outcome p = ChfUe × p.State × Option MultipleUnitInformation

-- A TERMINATE indication puts the rating group into debit mode.
abbrev pub apply_final :
    ℕ → Option FinalUnitAction → ChfUe → MultipleUnitInformation → ChfUe × MultipleUnitInformation
apply_final rg (some FinalUnitAction.terminate) ue info = (
  record ue { rating_type = update ue.rating_type rg RequestSubType.debit },
  record info { final_unit_indication = Models.FinalUnitAction.terminate },
)
apply_final rg _ ue info = (ue, info)

-- The granted units of the answer go into the reserved quota; a missing part is a nil dereference.
unfoldable pub apply_grant :
    ℕ
    → Option MultipleServicesCreditControl
    → ChfUe
    → MultipleUnitInformation
    → Option (ChfUe × MultipleUnitInformation)
apply_grant rg none ue info = none
apply_grant rg (some m) ue info = do
  granted ← m.granted_service_unit
  some (
      apply_final rg m.final_unit_indication
        (record ue {
          reserved_quota = update ue.reserved_quota rg (add64 (ue.reserved_quota rg) granted);
        })
        info)

unfoldable pub volume_triggers : ChfUe → ℕ → List Trigger
volume_triggers ue usage_index =
    (if ue.volume_limit == 0
      then []
      else record {
        trigger_type = TriggerType.volume_limit;
        trigger_category = TriggerCategory.deferred_report;
        volume_limit = ue.volume_limit;
      }
        ∷ [])
    ++ (elim (ue.volume_limit_pdu == 0) [
      | true ↦ []
      | false ↦
          if usage_index == 0
          then record {
            trigger_type = TriggerType.volume_limit;
            trigger_category = TriggerCategory.immediate_report;
            volume_limit = ue.volume_limit_pdu;
          }
            ∷ []
          else []
    ])
    ++ (if ue.quota_validity_time == 0 then [] else trigger TriggerType.validity_time ∷ [])

-- The threshold is set while the rating group is in reserve mode.
abbrev set_threshold :
    RequestSubType → ChfUe → ℕ → MultipleUnitInformation → MultipleUnitInformation
set_threshold RequestSubType.reserve ue units info = record info {
  triggers = info.triggers ++ (trigger TriggerType.quota_threshold ∷ []);
  volume_quota_threshold = ue.volume_threshold units;
}
set_threshold _ ue units info = info

abbrev pub granted : ℕ → GrantedUnit
granted units = record { total_volume = units; downlink_volume = units; uplink_volume = units }

unfoldable pub fill_information :
    ChfUe → ℕ → ℕ → ℕ → MultipleUnitInformation → MultipleUnitInformation
fill_information ue rg usage_index units info =
    let marked = set_threshold (ue.rating_type rg) ue units info in
    record marked {
      triggers =
          marked.triggers ++ (trigger TriggerType.quota_exhausted ∷ volume_triggers ue usage_index);
      granted_unit = some (granted units);
      validity_time =
          if ue.quota_validity_time == 0 then marked.validity_time else ue.quota_validity_time;
    }

abbrev pub min_units : ℕ → ℕ → ℕ
min_units a b = if ltb a b then a else b

module _ (p : Peers) (subscriber : Option SubscriptionId) (rg usage_index requested : ℕ) where
  -- The tariff is fetched again and the units are granted.
  unfoldable pub grant_answered :
      p.State → ChfUe → MultipleUnitInformation → Option ServiceUsageResponse → Outcome p
  grant_answered st ue info none = (ue, st, none)
  grant_answered st ue info (some sua) =
      let (st1, cost) = get_unit_cost p st ue subscriber rg in
      let ue1 = record ue { unit_cost = update ue.unit_cost rg cost } in
      (
        ue1,
        st1,
        some (
            fill_information ue1 rg usage_index
              (min_units sua.service_rating.allowed_units requested) info),
      )

  unfoldable pub grant_units : ℕ → p.State → ChfUe → MultipleUnitInformation → Outcome p
  grant_units quota st ue info =
      let (st1, answer) =
        p.send_service_usage st (usage_request ue subscriber (reserve_rating rg quota)) in
      grant_answered st1 ue info answer

  unfoldable pub reserve_answered :
      ℕ
      → p.State
      → ChfUe
      → MultipleUnitInformation
      → Option AccountDebitResponse
      → Option (Outcome p)
  reserve_answered quota st ue info none = some (ue, st, none)
  reserve_answered quota st ue info (some cca) =
      apply_grant rg cca.multiple_services_credit_control ue info >>= λ r.
      some (grant_units quota st (r.0) (r.1))

  -- What is missing in the reserved quota, and the request.
  abbrev pub missing_units : ℕ → ChfUe → ℕ
  missing_units quota ue = add64 (sub64 0 (ue.reserved_quota rg)) quota

  unfoldable pub reserve_account :
      ℕ → p.State → ChfUe → MultipleUnitInformation → Option (Outcome p)
  reserve_account quota st ue info =
      let (st1, answer) = p.send_account_debit st (
        debit_request ue subscriber rg RequestedAction.direct_debiting CcRequestType.update_request
          (requested_units rg (missing_units quota ue))) in
      reserve_answered quota st1 ue info answer

  -- The used units are taken from the reserved quota at the current unit cost.
  unfoldable pub use_reserved : ℕ → ℕ → ChfUe → ChfUe
  use_reserved cost used ue = record ue {
    unit_cost = update ue.unit_cost rg cost;
    reserved_quota = update ue.reserved_quota rg (sub64 (ue.reserved_quota rg) (mul32 used cost));
  }

  -- NeedReserveQuota is that the reserved quota is not above 0.
  unfoldable pub reserve_units :
      ℕ → ℕ → p.State → ChfUe → MultipleUnitInformation → Option (Outcome p)
  reserve_units used cost st ue info =
      let ue1 = use_reserved cost used ue in
      elim (slt64 0 (ue1.reserved_quota rg)) [
        | true ↦ some (grant_units (mul32 requested cost) st ue1 info)
        | false ↦ reserve_account (mul32 requested cost) st ue1 info
      ]

  unfoldable pub reserve_case : ℕ → p.State → ChfUe → MultipleUnitInformation → Option (Outcome p)
  reserve_case used st ue info = elim (pos32 requested) [
    | false ↦ some (ue, st, none)
    | true ↦
        let (st1, cost) = get_unit_cost p st ue subscriber rg in reserve_units used cost st1 ue info
  ]
