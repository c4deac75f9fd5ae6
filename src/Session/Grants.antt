-- ===== src/Session/Grants.antt =====
-- What a session grants, whatever the rating and account functions answer
-- (`sessionChargingReservation` of internal/sbi/processor/converged_charging.go).
use chf.Base.{
  ℕ, ◌+◌, ◌≤◌, ◌≡◌, refl, arith, Bool, false, List, [], ◌∷◌, Option, none, some, ◌>>=◌, inl, inr,
  Bool-cases, Option-cases,
}
use chf.Base.Word.{slt64, pos32, mul32}
use chf.Diameter.{RequestSubType, SubscriptionId, AccountDebitResponse, ServiceUsageResponse}
use chf.Models.{Trigger, MultipleUnitUsage, MultipleUnitInformation, ChargingDataRequest}
use chf.Ue.{ChfUe}
use chf.Session.Peers.{Peers}
use chf.Session.Scan.{Scan, choose_mode}
use chf.Session.Messages.{subscriber_identifier}
use chf.Session.Reserve.{
  Outcome, apply_grant, fill_information, min_units, grant_answered, grant_units, reserve_answered,
  reserve_account, reserve_units, reserve_case, use_reserved,
}
use chf.Session.Debit.{
  settled_information, settle_answered, settle_price, debit_answered, debit_case,
}
use chf.Session.Loop.{
  scanned_information, Progress, finish, charge_by_type, charge_scanned, charge_usage,
  charge_usages, add_information, session_charging_reservation,
}

-- The granted total volume of an information, and of all.
abbrev pub granted_volume : MultipleUnitInformation → ℕ
granted_volume info = elim info.granted_unit [ none ↦ 0 | some g ↦ g.total_volume ]

abbrev pub granted_total : List MultipleUnitInformation → ℕ
granted_total [] = 0
granted_total (info ∷ infos) = granted_volume info + granted_total infos

abbrev pub granted_by : Option MultipleUnitInformation → ℕ
granted_by none = 0
granted_by (some info) = granted_volume info

-- The total volume that a usage requests, and all usages.
abbrev pub requested_volume : Option ℕ → ℕ
requested_volume none = 0
requested_volume (some units) = units

abbrev pub requested_total : List MultipleUnitUsage → ℕ
requested_total [] = 0
requested_total (usage ∷ rest) = requested_volume usage.requested_unit + requested_total rest

min_units_right : (a b : ℕ) → min_units a b ≤ b
min_units_right a b = ground arith

module _ (p : Peers) (subscriber : Option SubscriptionId) where
  -- An outcome that grants at most a limit, where there is one.
  abbrev Within : ℕ → Option (Outcome p) → Type 0
  Within limit none = Unit
  Within limit (some r) = granted_by (r.2) ≤ limit

  module _ (rg usage_index requested : ℕ) where
    grant_answered-Within :
        (st : p.State) (ue : ChfUe) (info : MultipleUnitInformation)
        (o : Option ServiceUsageResponse)
        → granted_by (grant_answered p subscriber rg usage_index requested st ue info o).2
          ≤ requested
    unfolding grant_answered fill_information
    grant_answered-Within st ue info none = omega arith
    grant_answered-Within st ue info (some sua) =
        min_units_right sua.service_rating.allowed_units requested

    grant_units-Within :
        (quota : ℕ) (st : p.State) (ue : ChfUe) (info : MultipleUnitInformation)
        → granted_by (grant_units p subscriber rg usage_index requested quota st ue info).2
          ≤ requested
    unfolding grant_units
    grant_units-Within quota st ue info = grant_answered-Within _ ue info _

    grant_applied-Within :
        (quota : ℕ) (st : p.State) (o : Option (ChfUe × MultipleUnitInformation))
        → Within requested (
            o >>= λ r.
            some (grant_units p subscriber rg usage_index requested quota st (r.0) (r.1)))
    grant_applied-Within quota st none = tt
    grant_applied-Within quota st (some r) = grant_units-Within quota st (r.0) (r.1)

    reserve_answered-Within :
        (quota : ℕ) (st : p.State) (ue : ChfUe) (info : MultipleUnitInformation)
        (o : Option AccountDebitResponse)
        → Within requested
            (reserve_answered p subscriber rg usage_index requested quota st ue info o)
    unfolding reserve_answered
    reserve_answered-Within quota st ue info none = omega arith
    reserve_answered-Within quota st ue info (some cca) =
        grant_applied-Within quota st (apply_grant rg cca.multiple_services_credit_control ue info)

    reserve_account-Within :
        (quota : ℕ) (st : p.State) (ue : ChfUe) (info : MultipleUnitInformation)
        → Within requested (reserve_account p subscriber rg usage_index requested quota st ue info)
    unfolding reserve_account
    reserve_account-Within quota st ue info = reserve_answered-Within quota _ ue info _

    reserve_units-Within :
        (used cost : ℕ) (st : p.State) (ue : ChfUe) (info : MultipleUnitInformation)
        → Within requested
            (reserve_units p subscriber rg usage_index requested used cost st ue info)
    unfolding reserve_units
    reserve_units-Within used cost st ue info =
        let ue1 = use_reserved p subscriber rg usage_index requested cost used ue in
        elim (Bool-cases (slt64 0 (ue1.reserved_quota rg))) [
          | inl e ↦ rw (e, reserve_units) (grant_units-Within (mul32 requested cost) st ue1 info)
          | inr e ↦
              rw (e, reserve_units) (reserve_account-Within (mul32 requested cost) st ue1 info)
        ]

    reserve_case-Within :
        (used : ℕ) (st : p.State) (ue : ChfUe) (info : MultipleUnitInformation)
        → Within requested (reserve_case p subscriber rg usage_index requested used st ue info)
    unfolding reserve_case
    reserve_case-Within used st ue info = elim (Bool-cases (pos32 requested)) [
      | inl e ↦ rw (e, reserve_case) (reserve_units-Within used _ _ ue info)
      | inr e ↦ rw (e, reserve_case) (let z : 0 ≤ requested = omega arith in z)
    ]

  settle_answered-Within :
      (rg : ℕ) (st : p.State) (ue : ChfUe) (info : MultipleUnitInformation)
      (o : Option AccountDebitResponse) (limit : ℕ)
      → granted_by (settle_answered p subscriber rg st ue info o).2 ≤ limit
  unfolding settle_answered settled_information
  settle_answered-Within rg st ue info none limit = omega arith
  settle_answered-Within rg st ue info (some cca) limit = omega arith

  debit_answered-Within :
      (rg : ℕ) (st : p.State) (ue : ChfUe) (info : MultipleUnitInformation)
      (o : Option ServiceUsageResponse) (limit : ℕ)
      → granted_by (debit_answered p subscriber rg st ue info o).2 ≤ limit
  unfolding debit_answered settle_price
  debit_answered-Within rg st ue info none limit = omega arith
  debit_answered-Within rg st ue info (some sua) limit = settle_answered-Within rg _ _ info _ limit

  charge_by_type-Within :
      (type : RequestSubType) (rg usage_index : ℕ) (requested : Option ℕ) (used : ℕ) (st : p.State)
      (ue : ChfUe) (info : MultipleUnitInformation)
      → info.granted_unit ≡ none
      → Within
          (requested_volume requested)
          (charge_by_type p subscriber type rg usage_index requested used st ue info)
  unfolding charge_by_type debit_case
  charge_by_type-Within RequestSubType.reserve rg i none used st ue info h = omega arith
  charge_by_type-Within RequestSubType.reserve rg i (some units) used st ue info h =
      reserve_case-Within rg i units used st ue info
  charge_by_type-Within RequestSubType.debit rg i requested used st ue info h =
      debit_answered-Within rg _ ue info _ (requested_volume requested)
  charge_by_type-Within RequestSubType.aoc rg i requested used st ue info h = rw h (omega arith)
  charge_by_type-Within RequestSubType.release rg i requested used st ue info h = rw h (omega arith)
  charge_by_type-Within RequestSubType.unnamed rg i requested used st ue info h = rw h (omega arith)

  -- The same of what a usage leaves.
  abbrev WithinUsage : ℕ → Option (Progress p) → Type 0
  WithinUsage limit none = Unit
  WithinUsage limit (some r) = granted_by (r.3) ≤ limit

  finish-Within :
      (rg limit : ℕ) (partial : Bool) (o : Option (Outcome p))
      → Within limit o
      → WithinUsage limit (o >>= λ r. some (finish p rg partial r))
  finish-Within rg limit partial none h = tt
  finish-Within rg limit partial (some (ue, st, none)) h = h
  finish-Within rg limit partial (some (ue, st, some info)) h = h

  charge_scanned-Within :
      (usage_index : ℕ) (usage : MultipleUnitUsage) (st : p.State) (ue : ChfUe) (s : Scan)
      → WithinUsage
          (requested_volume usage.requested_unit)
          (charge_scanned p subscriber usage_index usage st ue s)
  unfolding charge_scanned
  charge_scanned-Within i usage st ue s =
      let rg = usage.rating_group in
      let chosen = choose_mode rg usage.requested_unit s in
      let ue1 = record ue { rating_type = chosen.rating_type } in
      elim (Bool-cases s.credit_control) [
        | inl e ↦
            rw (e, charge_scanned)
              (finish-Within rg _ chosen.partial_record _ (
                charge_by_type-Within (ue1.rating_type rg) rg i usage.requested_unit
                  chosen.total_used_unit st ue1 (scanned_information usage chosen) refl))
        | inr e ↦
            rw (e, charge_scanned)
              (let z : 0 ≤ requested_volume usage.requested_unit = omega arith in z)
      ]

  charge_usage-Within :
      (triggers : List Trigger) (usage_index : ℕ) (usage : MultipleUnitUsage) (st : p.State)
      (ue : ChfUe) (partial : Bool)
      → WithinUsage
          (requested_volume usage.requested_unit)
          (charge_usage p subscriber triggers usage_index usage st ue partial)
  unfolding charge_usage
  charge_usage-Within triggers i usage st ue partial = charge_scanned-Within i usage st _ _

  add_information_total :
      (o : Option MultipleUnitInformation) (infos : List MultipleUnitInformation)
      → granted_total (add_information p subscriber o infos) ≡ granted_by o + granted_total infos
  add_information_total none infos = omega arith
  add_information_total (some info) infos = refl

  abbrev WithinAll : ℕ → Option (ChfUe × p.State × Bool × List MultipleUnitInformation) → Type 0
  WithinAll limit none = Unit
  WithinAll limit (some r) = granted_total (r.3) ≤ limit

  add-WithinAll :
      (first limit : ℕ) (o : Option MultipleUnitInformation)
      (r : Option (ChfUe × p.State × Bool × List MultipleUnitInformation))
      → granted_by o ≤ first
      → WithinAll limit r
      → WithinAll
          (first + limit)
          (r >>= λ q. some (q.0, q.1, q.2, add_information p subscriber o (q.3)))
  add-WithinAll first limit o none h hs = tt
  add-WithinAll first limit o (some q) h hs = omega (arith, add_information_total o (q.3), h, hs)

  charge_usages-Within :
      (triggers : List Trigger) (usage_index : ℕ) (usages : List MultipleUnitUsage) (st : p.State)
      (ue : ChfUe) (partial : Bool)
      → WithinAll
          (requested_total usages)
          (charge_usages p subscriber triggers usage_index usages st ue partial)
  unfolding charge_usages
  charge_usages-Within triggers i [] st ue partial = omega arith
  charge_usages-Within triggers i (usage ∷ rest) st ue partial =
      elim (Option-cases (charge_usage p subscriber triggers i usage st ue partial)) [
        | inl e ↦ rw (e, charge_usages) tt
        | inr (r, e) ↦ rw e (
            add-WithinAll (requested_volume usage.requested_unit) (requested_total rest) (r.3) _
              (rw e at (charge_usage-Within triggers i usage st ue partial))
              (charge_usages-Within triggers (i + 1) rest _ _ _))
      ]

charged-Within :
    (p : Peers) (st : p.State) (ue : ChfUe) (data' : ChargingDataRequest)
    (r : ChfUe × p.State × Bool × List MultipleUnitInformation)
    (subscriber : Option (Option SubscriptionId))
    → (subscriber >>= λ s. charge_usages p s data'.triggers 0 data'.multiple_unit_usage st ue false)
      ≡ some r
    → granted_total (r.3) ≤ requested_total data'.multiple_unit_usage
charged-Within p st ue data' r none h = cc
charged-Within p st ue data' r (some s) h =
    rw h at (charge_usages-Within p s data'.triggers 0 data'.multiple_unit_usage st ue false)

-- However the rating and account functions answer, the information that a session request is
-- answered with grants no more volume in all than the request asks for.
pub session_charging_reservation-Grants :
    (p : Peers) (st : p.State) (ue : ChfUe) (data' : ChargingDataRequest)
    (r : ChfUe × p.State × Bool × List MultipleUnitInformation)
    → session_charging_reservation p st ue data' ≡ some r
    → granted_total (r.3) ≤ requested_total data'.multiple_unit_usage
unfolding session_charging_reservation
session_charging_reservation-Grants p st ue data' r h =
    charged-Within p st ue data' r (subscriber_identifier data'.subscriber_identifier) h
