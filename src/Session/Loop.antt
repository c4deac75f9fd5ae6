-- ===== src/Session/Loop.antt =====
-- The loop of `sessionChargingReservation` over the usages of a request, one rating group each
-- (internal/sbi/processor/converged_charging.go).
use chf.Base.{ℕ, ◌+◌, ◌%◌, ◌^◌, Bool, true, false, List, [], ◌∷◌, Option, none, some, ◌>>=◌}
use chf.Base.Maps.{update}
use chf.Diameter.{RequestSubType, SubscriptionId}
use chf.Models
use chf.Models.{Trigger, MultipleUnitUsage, MultipleUnitInformation, ChargingDataRequest}
use chf.Ue.{ChfUe}
use chf.Session.Peers.{Peers}
use chf.Session.Scan.{Scan, register_rating_group, scan_start, scan_used_units, choose_mode}
use chf.Session.Messages.{subscriber_identifier}
use chf.Session.Reserve.{Outcome, reserve_case}
use chf.Session.Debit.{debit_case}

abbrev pub scanned_information : MultipleUnitUsage → Scan → MultipleUnitInformation
scanned_information usage s = record {
  upf_id = usage.upf_id;
  final_unit_indication = Models.FinalUnitAction.unnamed;
  rating_group = usage.rating_group;
  triggers = s.triggers;
  volume_quota_threshold = s.volume_quota_threshold;
  granted_unit = none;
  validity_time = 0;
}

-- A finished usage adds its information, and counts a request of its rating group.
abbrev pub count_request : ℕ → ChfUe → ChfUe
count_request rg ue = record ue {
  acct_request_num = update ue.acct_request_num rg ((ue.acct_request_num rg + 1) % 2 ^ 32);
}

-- What a usage leaves: the subscriber, the peers, whether a partial record is due, the information.
abbrev pub Progress : Peers → Type 0
Progress p = ChfUe × p.State × Bool × Option MultipleUnitInformation

abbrev pub finish : (p : Peers) → ℕ → Bool → Outcome p → Progress p
finish p rg partial (ue, st, none) = (ue, st, partial, none)
finish p rg partial (ue, st, some info) = (count_request rg ue, st, partial, some info)

module _ (p : Peers) (subscriber : Option SubscriptionId) where
  -- The switch on the rating type of the group.
  unfoldable pub charge_by_type :
      RequestSubType
      → ℕ
      → ℕ
      → Option ℕ
      → ℕ
      → p.State
      → ChfUe
      → MultipleUnitInformation
      → Option (Outcome p)
  charge_by_type RequestSubType.reserve rg usage_index none used st ue info = some (ue, st, none)
  charge_by_type RequestSubType.reserve rg usage_index (some requested) used st ue info =
      reserve_case p subscriber rg usage_index requested used st ue info
  charge_by_type RequestSubType.debit rg usage_index requested used st ue info =
      some (debit_case p subscriber rg used st ue info)
  charge_by_type _ rg usage_index requested used st ue info = some (ue, st, some info)

  -- One usage: scan, mode, charging; without online usage there is no information.
  unfoldable pub charge_scanned :
      ℕ → MultipleUnitUsage → p.State → ChfUe → Scan → Option (Progress p)
  charge_scanned usage_index usage st ue s = elim s.credit_control [
    | false ↦ some (record ue { rating_type = s.rating_type }, st, s.partial_record, none)
    | true ↦
        let rg = usage.rating_group in
        let chosen = choose_mode rg usage.requested_unit s in
        let ue1 = record ue { rating_type = chosen.rating_type } in
        charge_by_type (ue1.rating_type rg) rg usage_index usage.requested_unit
          chosen.total_used_unit st ue1 (scanned_information usage chosen)
        >>= λ r. some (finish p rg chosen.partial_record r)
  ]

  unfoldable pub charge_usage :
      List Trigger → ℕ → MultipleUnitUsage → p.State → ChfUe → Bool → Option (Progress p)
  charge_usage triggers usage_index usage st ue partial =
      let ue1 = register_rating_group ue usage.rating_group in
      charge_scanned usage_index usage st ue1 (
        scan_used_units usage.rating_group triggers usage.used_unit_container
          (scan_start ue1 partial))

  abbrev pub add_information :
      Option MultipleUnitInformation → List MultipleUnitInformation → List MultipleUnitInformation
  add_information none infos = infos
  add_information (some info) infos = info ∷ infos

  unfoldable pub charge_usages :
      List Trigger
      → ℕ
      → List MultipleUnitUsage
      → p.State
      → ChfUe
      → Bool
      → Option (ChfUe × p.State × Bool × List MultipleUnitInformation)
  charge_usages triggers usage_index [] st ue partial = some (ue, st, partial, [])
  charge_usages triggers usage_index (usage ∷ rest) st ue partial =
      charge_usage triggers usage_index usage st ue partial >>= λ r.
      charge_usages triggers (usage_index + 1) rest (r.1) (r.0) (r.2) >>= λ q.
      some (q.0, q.1, q.2, add_information (r.3) (q.3))

-- `sessionChargingReservation` on a subscriber that is known.
unfoldable pub session_charging_reservation :
    (p : Peers)
    → p.State
    → ChfUe
    → ChargingDataRequest
    → Option (ChfUe × p.State × Bool × List MultipleUnitInformation)
session_charging_reservation p st ue data' = do
  subscriber ← subscriber_identifier data'.subscriber_identifier
  charge_usages p subscriber data'.triggers 0 data'.multiple_unit_usage st ue false
