-- ===== src/Session/Scan.antt =====
-- The loop over the used unit containers of one rating group, and what follows it, in
-- `sessionChargingReservation` of internal/sbi/processor/converged_charging.go.
use chf.Base.{ℕ, ◌+◌, ◌%◌, ◌^◌, Bool, true, false, List, [], ◌∷◌, ◌++◌, Option, none, some}
use chf.Base.Word.{pos32}
use chf.Base.Maps.{update}
use chf.Diameter.{RequestSubType}
use chf.Models.{QuotaManagementIndicator, TriggerType, TriggerCategory, Trigger, UsedUnitContainer}
use chf.Ue.{ChfUe, find_rating_group}

-- The variables of the loop. `partial_record` lives as long as the request.
pub record Scan : Type 0 where
  pub rating_type : ℕ → RequestSubType
  pub partial_record : Bool
  pub credit_control : Bool
  pub final_seen : Bool
  pub total_used_unit : ℕ
  pub triggers : List Trigger
  pub volume_quota_threshold : ℕ

abbrev pub trigger : TriggerType → Trigger
trigger type = record {
  trigger_type = type;
  trigger_category = TriggerCategory.immediate_report;
  volume_limit = 0;
}

-- A final trigger ends the reserve mode; every other one asks for a partial record.
abbrev pub scan_trigger_type : ℕ → TriggerType → Scan → Scan
scan_trigger_type rg TriggerType.final s = record s {
  final_seen = true;
  rating_type = update s.rating_type rg RequestSubType.debit;
  partial_record = false;
}
scan_trigger_type rg _ s = record s { partial_record = true }

unfoldable pub scan_triggers : ℕ → List Trigger → Scan → Scan
scan_triggers rg [] s = s
scan_triggers rg (t ∷ ts) s = scan_triggers rg ts (scan_trigger_type rg t.trigger_type s)

abbrev pub scan_by_indicator :
    ℕ → List Trigger → QuotaManagementIndicator → UsedUnitContainer → Scan → Scan
scan_by_indicator rg ts QuotaManagementIndicator.offline_charging used s = record s {
  triggers = s.triggers ++ (trigger TriggerType.quota_threshold ∷ []);
  volume_quota_threshold = 30_000_000;
}
scan_by_indicator rg ts QuotaManagementIndicator.online_charging used s =
    let scanned = scan_triggers rg ts (record s { credit_control = true }) in
    record scanned { total_used_unit = (scanned.total_used_unit + used.total_volume) % 2 ^ 32 }
scan_by_indicator rg ts _ used s = s

unfoldable pub scan_used_units : ℕ → List Trigger → List UsedUnitContainer → Scan → Scan
scan_used_units rg ts [] s = s
scan_used_units rg ts (used ∷ rest) s =
    scan_used_units rg ts rest (scan_by_indicator rg ts used.quota_management_indicator used s)

-- A rating group is registered on first sight, in reserve mode.
unfoldable pub register_rating_group : ChfUe → ℕ → ChfUe
register_rating_group ue rg = elim (find_rating_group ue rg) [
  | true ↦ ue
  | false ↦ record ue {
    rating_groups = ue.rating_groups ++ (rg ∷ []);
    rating_type = update ue.rating_type rg RequestSubType.reserve;
  }
]

abbrev pub scan_start : ChfUe → Bool → Scan
scan_start ue partial_record = record {
  rating_type = ue.rating_type;
  partial_record = partial_record;
  credit_control = false;
  final_seen = false;
  total_used_unit = 0;
  triggers = [];
  volume_quota_threshold = 0;
}

-- Online usage without a requested unit settles the rating group; a final trigger beside a positive
-- request keeps it in reserve mode.
abbrev pub reserve_again : ℕ → Bool → Bool → Scan → Scan
reserve_again rg true true s = record s {
  rating_type = update s.rating_type rg RequestSubType.reserve;
}
reserve_again rg _ _ s = s

unfoldable pub choose_mode : ℕ → Option ℕ → Scan → Scan
choose_mode rg none s = record s {
  rating_type = update s.rating_type rg RequestSubType.debit;
  partial_record = false;
}
choose_mode rg (some volume) s = reserve_again rg s.final_seen (pos32 volume) s
