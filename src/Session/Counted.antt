-- ===== src/Session/Counted.antt =====
-- What the loop over the containers of a usage counts, and the mode that follows it
-- (`sessionChargingReservation` of internal/sbi/processor/converged_charging.go).
use chf.Base.{
  ℕ, ◌+◌, ◌%◌, ◌^◌, ◌<◌, ◌≡◌, ◌⊎◌, inl, inr, refl, ap, ◌∙◌, arith, Bool, true, false, List, [], ◌∷◌,
  some, Bool-cases, if◌then◌else◌,
}
use chf.Base.Word.{pos32}
use chf.Base.Maps.{update_same}
use chf.Diameter.{RequestSubType}
use chf.Models.{QuotaManagementIndicator, TriggerType, Trigger, UsedUnitContainer}
use chf.Ue.{ChfUe, find_rating_group}
use chf.Session.Scan.{
  Scan, register_rating_group, scan_trigger_type, scan_triggers, scan_by_indicator, scan_used_units,
  reserve_again, choose_mode,
}

-- The volume that the online containers of a usage report, and whether there are any.
abbrev online_part : QuotaManagementIndicator → ℕ → ℕ
online_part QuotaManagementIndicator.online_charging volume = volume
online_part _ volume = 0

abbrev pub online_volume : List UsedUnitContainer → ℕ
online_volume [] = 0
online_volume (used ∷ rest) =
    online_part used.quota_management_indicator used.total_volume + online_volume rest

abbrev is_online : QuotaManagementIndicator → Bool
is_online QuotaManagementIndicator.online_charging = true
is_online _ = false

abbrev pub has_online : List UsedUnitContainer → Bool
has_online [] = false
has_online (used ∷ rest) =
    if is_online used.quota_management_indicator then true else has_online rest

either_first :
    (a b c : Bool)
    → (if b then true else if a then true else c) ≡ (if if a then true else b then true else c)
either_first true true c = refl
either_first true false c = refl
either_first false true c = refl
either_first false false c = refl

module _ (rg : ℕ) where
  -- In reserve mode, or a final trigger was seen.
  abbrev pub IsReady : Scan → Type 0
  IsReady s = (s.rating_type rg ≡ RequestSubType.reserve) ⊎ (s.final_seen ≡ true)

  scan_trigger_type-IsReady :
      (type : TriggerType) (s : Scan) → IsReady s → IsReady (scan_trigger_type rg type s)
  scan_trigger_type-IsReady TriggerType.final s ready = inr refl
  scan_trigger_type-IsReady _ s ready = ready

  scan_trigger_type-counts :
      (type : TriggerType) (s : Scan)
      → ((scan_trigger_type rg type s).credit_control ≡ s.credit_control)
        × ((scan_trigger_type rg type s).total_used_unit ≡ s.total_used_unit)
  scan_trigger_type-counts TriggerType.final s = (refl, refl)
  scan_trigger_type-counts _ s = (refl, refl)

  scan_triggers-IsReady :
      (ts : List Trigger) (s : Scan) → IsReady s → IsReady (scan_triggers rg ts s)
  unfolding scan_triggers
  scan_triggers-IsReady [] s ready = ready
  scan_triggers-IsReady (t ∷ ts) s ready =
      scan_triggers-IsReady ts (scan_trigger_type rg t.trigger_type s)
        (scan_trigger_type-IsReady t.trigger_type s ready)

  scan_triggers-counts :
      (ts : List Trigger) (s : Scan)
      → ((scan_triggers rg ts s).credit_control ≡ s.credit_control)
        × ((scan_triggers rg ts s).total_used_unit ≡ s.total_used_unit)
  unfolding scan_triggers
  scan_triggers-counts [] s = (refl, refl)
  scan_triggers-counts (t ∷ ts) s =
      let (a, b) = scan_triggers-counts ts (scan_trigger_type rg t.trigger_type s) in
      let (a', b') = scan_trigger_type-counts t.trigger_type s in (a ∙ a', b ∙ b')

  scan_by_indicator-IsReady :
      (ts : List Trigger) (indicator : QuotaManagementIndicator) (used : UsedUnitContainer)
      (s : Scan)
      → IsReady s
      → IsReady (scan_by_indicator rg ts indicator used s)
  scan_by_indicator-IsReady ts QuotaManagementIndicator.online_charging used s ready =
      scan_triggers-IsReady ts (record s { credit_control = true }) ready
  scan_by_indicator-IsReady ts QuotaManagementIndicator.offline_charging used s ready = ready
  scan_by_indicator-IsReady ts _ used s ready = ready

  scan_by_indicator-counts :
      (ts : List Trigger) (indicator : QuotaManagementIndicator) (used : UsedUnitContainer)
      (s : Scan)
      → s.total_used_unit < 2 ^ 32
      → let s' = scan_by_indicator rg ts indicator used s in
        (s'.credit_control ≡ (if is_online indicator then true else s.credit_control))
        × (s'.total_used_unit
            ≡ (s.total_used_unit + online_part indicator used.total_volume) % 2 ^ 32)
  scan_by_indicator-counts ts QuotaManagementIndicator.online_charging used s small =
      let (a, b) = scan_triggers-counts ts (record s { credit_control = true }) in
      (a, ap (λ n. (n + used.total_volume) % 2 ^ 32) b)
  scan_by_indicator-counts ts QuotaManagementIndicator.offline_charging used s small =
      (refl, omega arith)
  scan_by_indicator-counts ts _ used s small = (refl, omega arith)

  pub scan_used_units-IsReady :
      (ts : List Trigger) (containers : List UsedUnitContainer) (s : Scan)
      → IsReady s
      → IsReady (scan_used_units rg ts containers s)
  unfolding scan_used_units
  scan_used_units-IsReady ts [] s ready = ready
  scan_used_units-IsReady ts (used ∷ rest) s ready =
      scan_used_units-IsReady ts rest _
        (scan_by_indicator-IsReady ts used.quota_management_indicator used s ready)

  -- Credit control is asked for by an online container, and the online volumes are counted.
  pub scan_used_units-counts :
      (ts : List Trigger) (containers : List UsedUnitContainer) (s : Scan)
      → s.total_used_unit < 2 ^ 32
      → let s' = scan_used_units rg ts containers s in
        (s'.credit_control ≡ (if has_online containers then true else s.credit_control))
        × (s'.total_used_unit ≡ (s.total_used_unit + online_volume containers) % 2 ^ 32)
  unfolding scan_used_units
  scan_used_units-counts ts [] s small = (refl, omega arith)
  scan_used_units-counts ts (used ∷ rest) s small =
      let s1 = scan_by_indicator rg ts used.quota_management_indicator used s in
      let (credit, total) =
        scan_by_indicator-counts ts used.quota_management_indicator used s small in
      let (credit', total') = scan_used_units-counts ts rest s1 (omega arith) in
      (
        credit'
            ∙ ap (λ b. if has_online rest then true else b) credit
            ∙ either_first (is_online used.quota_management_indicator) (has_online rest)
                s.credit_control,
        omega arith,
      )

  -- A rating group that is registered by now is in reserve mode.
  pub register_rating_group-keeps :
      (ue : ChfUe)
      → (find_rating_group ue rg ≡ false) ⊎ (ue.rating_type rg ≡ RequestSubType.reserve)
      → ((register_rating_group ue rg).rating_type rg ≡ RequestSubType.reserve)
        × ((register_rating_group ue rg).reserved_quota ≡ ue.reserved_quota)
        × ((register_rating_group ue rg).rate_session_id ≡ ue.rate_session_id)
  unfolding register_rating_group
  register_rating_group-keeps ue (inl e) =
      rw (e, register_rating_group)
        (update_same ue.rating_type rg RequestSubType.reserve, refl, refl)
  register_rating_group-keeps ue (inr m) = elim (Bool-cases (find_rating_group ue rg)) [
    | inl e ↦ rw (e, register_rating_group) (m, refl, refl)
    | inr e ↦
        rw (e, register_rating_group)
          (update_same ue.rating_type rg RequestSubType.reserve, refl, refl)
  ]

  reserve_again-keeps :
      (final positive : Bool) (s : Scan)
      → positive ≡ true
      → (s.rating_type rg ≡ RequestSubType.reserve) ⊎ (final ≡ true)
      → ((reserve_again rg final positive s).rating_type rg ≡ RequestSubType.reserve)
        × ((reserve_again rg final positive s).total_used_unit ≡ s.total_used_unit)
  reserve_again-keeps true true s p ready =
      (update_same s.rating_type rg RequestSubType.reserve, refl)
  reserve_again-keeps false true s p (inl e) = (e, refl)
  reserve_again-keeps false true s p (inr e) = cc
  reserve_again-keeps _ false s p ready = cc

  pub choose_mode-keeps :
      (requested : ℕ) (s : Scan)
      → pos32 requested ≡ true
      → IsReady s
      → ((choose_mode rg (some requested) s).rating_type rg ≡ RequestSubType.reserve)
        × ((choose_mode rg (some requested) s).total_used_unit ≡ s.total_used_unit)
  unfolding choose_mode
  choose_mode-keeps requested s p ready =
      reserve_again-keeps s.final_seen (pos32 requested) s p ready
