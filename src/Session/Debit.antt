-- ===== src/Session/Debit.antt =====
-- The REQ_SUBTYPE_DEBIT case of `sessionChargingReservation` in
-- internal/sbi/processor/converged_charging.go.
use chf.Base.{ℕ, true, false, [], ◌∷◌, ◌++◌, Option, none, some}
use chf.Base.Word.{sub64, slt64}
use chf.Base.Maps.{update}
use chf.Diameter.{
  CcRequestType, RequestedAction, RequestSubType, SubscriptionId, AccountDebitRequest,
  AccountDebitResponse, ServiceUsageResponse,
}
use chf.Models.{TriggerType, MultipleUnitInformation}
use chf.Ue.{ChfUe}
use chf.Session.Peers.{Peers}
use chf.Session.Scan.{trigger}
use chf.Session.Messages.{usage_request, debit_request, requested_units, used_units, debit_rating}
use chf.Session.Reserve.{Outcome, granted}

-- A price below the reserved quota is followed by a refund of the rest and by reserve mode; any
-- other price by a debit of what exceeds the reserved quota.
unfoldable pub settle_request : ChfUe → Option SubscriptionId → ℕ → ℕ → ChfUe × AccountDebitRequest
settle_request ue subscriber rg price = elim (slt64 price (ue.reserved_quota rg)) [
  | true ↦ (
    record ue { rating_type = update ue.rating_type rg RequestSubType.reserve },
    debit_request ue subscriber rg RequestedAction.refund_account CcRequestType.unnamed
        (requested_units rg (sub64 (ue.reserved_quota rg) price)),
  )
  | false ↦ (
    ue,
    debit_request ue subscriber rg RequestedAction.direct_debiting CcRequestType.termination_request
        (used_units rg (sub64 price (ue.reserved_quota rg))),
  )
]

unfoldable pub settled_information : MultipleUnitInformation → MultipleUnitInformation
settled_information info = record info {
  triggers = info.triggers ++ (trigger TriggerType.quota_exhausted ∷ []);
  granted_unit = some (granted 0);
}

module _ (p : Peers) (subscriber : Option SubscriptionId) (rg : ℕ) where
  unfoldable pub settle_answered :
      p.State → ChfUe → MultipleUnitInformation → Option AccountDebitResponse → Outcome p
  settle_answered st ue info none = (ue, st, none)
  settle_answered st ue info (some cca) = (
    record ue { reserved_quota = update ue.reserved_quota rg 0 },
    st,
    some (settled_information info),
  )

  unfoldable pub settle_price : ℕ → p.State → ChfUe → MultipleUnitInformation → Outcome p
  settle_price price st ue info =
      let (ue1, ccr) = settle_request ue subscriber rg price in
      let (st1, answer) = p.send_account_debit st ccr in settle_answered st1 ue1 info answer

  unfoldable pub debit_answered :
      p.State → ChfUe → MultipleUnitInformation → Option ServiceUsageResponse → Outcome p
  debit_answered st ue info none = (ue, st, none)
  debit_answered st ue info (some sua) = settle_price sua.service_rating.price st ue info

  unfoldable pub debit_case : ℕ → p.State → ChfUe → MultipleUnitInformation → Outcome p
  debit_case used st ue info =
      let (st1, answer) =
        p.send_service_usage st (usage_request ue subscriber (debit_rating rg used)) in
      debit_answered st1 ue info answer
