-- ===== src/Session/Money.antt =====
-- Where the money goes: a session moves it between the account and the reserved quota, and takes
-- away the price of the used units (internal/sbi/processor/converged_charging.go with the two servers).
use chf.Base.{ℕ, ◌≡◌, inl, inr, refl, ap, ◌∙◌, arith, true, Option, none, some, Bool-cases}
use chf.Base.Word.{Is64, add64, sub64, slt64, mul32, pos32}
use chf.Base.Maps.{update, update_same}
use chf.Diameter.{
  CcRequestType, RequestedAction, FinalUnitAction, SubscriptionId, MultipleServicesCreditControl,
  AccountDebitResponse, ServiceUsageResponse, Reply, answered, silent, panics, Collection, Keeps,
}
use chf.Models.{MultipleUnitInformation}
use chf.Account.{subscriber_id, handle_ccr}
use chf.Account.Balance.{balance, reply_control, handle_ccr-Reserves}
use chf.Ue.{ChfUe}
use chf.Session.Peers.{servers, or_timeout}
use chf.Session.Messages.{debit_request, requested_units, get_unit_cost}
use chf.Session.Reserve.{
  Outcome, apply_final, apply_grant, grant_answered, grant_units, reserve_answered, missing_units,
  reserve_account, use_reserved, reserve_units, reserve_case,
}

-- Money that is nobody's consumption: the balance of the account and the reserved quota.
abbrev pub funds : ℕ → ℕ → ℕ
funds quota reserved = add64 quota reserved

reply_answered :
    (reply : Reply AccountDebitResponse) (m : MultipleServicesCreditControl)
    → reply_control reply ≡ some m
    → (cca : AccountDebitResponse) × (or_timeout reply ≡ some cca)
      × (cca.multiple_services_credit_control ≡ some m)
reply_answered (answered a) m h = (a, refl, h)
reply_answered silent m h = cc
reply_answered panics m h = cc

pub mul32-Is64 : (a b : ℕ) → Is64 (mul32 a b)
unfolding mul32
mul32-Is64 a b = omega arith

add64-Is64 : (a b : ℕ) → Is64 (add64 a b)
unfolding add64
add64-Is64 a b = omega arith

-- remaining + (reserved - used + granted) = quota + reserved - used
pub funds_move :
    (quota remaining granted reserved used : ℕ)
    → Is64 reserved
    → Is64 used
    → add64 remaining granted ≡ quota
    → add64 remaining (add64 (sub64 reserved used) granted) ≡ sub64 (add64 quota reserved) used
unfolding add64 sub64
funds_move quota remaining granted reserved used hr hu h = omega arith

pub funds_keep :
    (quota reserved used : ℕ)
    → Is64 reserved
    → Is64 used
    → add64 quota (sub64 reserved used) ≡ sub64 (add64 quota reserved) used
unfolding add64 sub64
funds_keep quota reserved used hr hu = omega arith

module _ (c : Collection) (s : SubscriptionId) (rg usage_index requested : ℕ) where
  -- Granting only rates: the database and the reserved quota stay.
  grant_answered-keeps :
      (db : c.Db) (ue : ChfUe) (info : MultipleUnitInformation) (o : Option ServiceUsageResponse)
      → let r = grant_answered (servers c) (some s) rg usage_index requested db ue info o in
        (r.1 ≡ db) × ((r.0).reserved_quota rg ≡ ue.reserved_quota rg)
  unfolding grant_answered get_unit_cost
  grant_answered-keeps db ue info none = (refl, refl)
  grant_answered-keeps db ue info (some sua) = (refl, refl)

  grant_units-keeps :
      (quota : ℕ) (db : c.Db) (ue : ChfUe) (info : MultipleUnitInformation)
      → let r = grant_units (servers c) (some s) rg usage_index requested quota db ue info in
        (r.1 ≡ db) × ((r.0).reserved_quota rg ≡ ue.reserved_quota rg)
  unfolding grant_units
  grant_units-keeps quota db ue info = grant_answered-keeps db ue info _

  apply_final-reserved :
      (o : Option FinalUnitAction) (ue : ChfUe) (info : MultipleUnitInformation)
      → ((apply_final rg o ue info).0).reserved_quota rg ≡ ue.reserved_quota rg
  apply_final-reserved none ue info = refl
  apply_final-reserved (some FinalUnitAction.terminate) ue info = refl
  apply_final-reserved (some _) ue info = refl

  -- What a case leaves: it ends, and the funds are lower by the price of the used units.
  abbrev pub Pays : c.Db → ℕ → ℕ → Option (Outcome (servers c)) → Type 0
  Pays db total price o =
      (r : Outcome (servers c)) × (quota : ℕ) × (o ≡ some r)
      × (balance c (r.1) (subscriber_id s) rg ≡ some quota)
      × (funds quota ((r.0).reserved_quota rg) ≡ sub64 total price)

  -- A grant of the account enters the reserved quota.
  reserve_answered-Pays :
      (quota before price reserved granted remaining : ℕ) (db : c.Db) (ue : ChfUe)
      (info : MultipleUnitInformation) (cca : AccountDebitResponse)
      (m : MultipleServicesCreditControl)
      → cca.multiple_services_credit_control ≡ some m
      → m.granted_service_unit ≡ some granted
      → balance c db (subscriber_id s) rg ≡ some remaining
      → add64 remaining granted ≡ before
      → Is64 reserved
      → Is64 price
      → ue.reserved_quota rg ≡ sub64 reserved price
      → Pays db (funds before reserved) price (
          reserve_answered
            (servers c)
            (some s)
            rg
            usage_index
            requested
            quota
            db
            ue
            info
            (some cca))
  unfolding reserve_answered apply_grant
  reserve_answered-Pays quota before price reserved granted remaining db ue info cca m hm hg h total
        hr hp e =
      let ue1 = record ue {
        reserved_quota = update ue.reserved_quota rg (add64 (ue.reserved_quota rg) granted);
      } in
      let applied = apply_final rg m.final_unit_indication ue1 info in
      let r =
        grant_units (servers c) (some s) rg usage_index requested quota db (applied.0)
          (applied.1) in
      let (same_db, same_reserved) = grant_units-keeps quota db (applied.0) (applied.1) in
      let reserved_now : (r.0).reserved_quota rg ≡ add64 (sub64 reserved price) granted =
        same_reserved
        ∙ apply_final-reserved m.final_unit_indication ue1 info
        ∙ update_same ue.reserved_quota rg _
        ∙ ap (λ x. add64 x granted) e in
      (
        r,
        remaining,
        rw (hm, hg) refl,
        rw same_db h,
        ap (add64 remaining) reserved_now
            ∙ funds_move before remaining granted reserved price hr hp total,
      )

  module _ (k : Keeps c) where
    reserve_account-Pays :
        (quota balance_before price reserved : ℕ) (db : c.Db) (ue : ChfUe)
        (info : MultipleUnitInformation)
        → balance c db (subscriber_id s) rg ≡ some balance_before
        → Is64 reserved
        → Is64 price
        → ue.reserved_quota rg ≡ sub64 reserved price
        → Pays db
            (funds balance_before reserved)
            price
            (reserve_account (servers c) (some s) rg usage_index requested quota db ue info)
    unfolding reserve_account reserve_answered apply_grant debit_request
    reserve_account-Pays quota before price reserved db ue info h hr hp e =
        let units = missing_units (servers c) (some s) rg usage_index requested quota ue in
        let ccr =
          debit_request ue (some s) rg RequestedAction.direct_debiting CcRequestType.update_request
            (requested_units rg units) in
        let (granted, remaining, after, control, total, _, _) =
          handle_ccr-Reserves c k db ccr s (requested_units rg units) before units refl refl
            (refl, inr refl) refl (add64-Is64 _ quota) h in
        let (cca, reply, m) = reply_answered (handle_ccr c db (some ccr)).1 _ control in
        rw reply (
          reserve_answered-Pays quota before price reserved granted remaining _ ue info cca _ m refl
            after total hr hp e)

    reserve_units-Pays :
        (before used cost : ℕ) (db : c.Db) (ue : ChfUe) (info : MultipleUnitInformation)
        → balance c db (subscriber_id s) rg ≡ some before
        → Is64 (ue.reserved_quota rg)
        → Pays db
            (funds before (ue.reserved_quota rg))
            (mul32 used cost)
            (reserve_units (servers c) (some s) rg usage_index requested used cost db ue info)
    unfolding reserve_units use_reserved
    reserve_units-Pays before used cost db ue info h hr =
        let price = mul32 used cost in
        let ue1 = use_reserved (servers c) (some s) rg usage_index requested cost used ue in
        let left = update_same ue.reserved_quota rg (sub64 (ue.reserved_quota rg) price) in
        elim (Bool-cases (slt64 0 (ue1.reserved_quota rg))) [
          | inl e ↦
              let (same_db, same_reserved) = grant_units-keeps (mul32 requested cost) db ue1 info in
              let r =
                grant_units (servers c) (some s) rg usage_index requested (mul32 requested cost) db
                  ue1 info in
              (
                r,
                before,
                rw (e, reserve_units) refl,
                rw same_db h,
                ap (add64 before) (same_reserved ∙ left)
                    ∙ funds_keep before (ue.reserved_quota rg) price hr (mul32-Is64 used cost),
              )
          | inr e ↦
              rw (e, reserve_units)
                (reserve_account-Pays (mul32 requested cost) before price (ue.reserved_quota rg) db
                  ue1 info h hr (mul32-Is64 used cost) left)
        ]

    -- For a rating group in reserve mode with a positive request, an account with a balance and a
    -- reserved quota of 64 bits, the case ends without a panic, and the balance and the reserved
    -- quota add up to what they were before less the price of the used units at the fetched unit
    -- cost, modulo 2^64.
    pub reserve_case-Pays :
        (before used : ℕ) (db : c.Db) (ue : ChfUe) (info : MultipleUnitInformation)
        → pos32 requested ≡ true
        → balance c db (subscriber_id s) rg ≡ some before
        → Is64 (ue.reserved_quota rg)
        → Pays db
            (funds before (ue.reserved_quota rg))
            (mul32 used (get_unit_cost (servers c) db ue (some s) rg).1)
            (reserve_case (servers c) (some s) rg usage_index requested used db ue info)
    unfolding reserve_case get_unit_cost
    reserve_case-Pays before used db ue info e h hr =
        rw (e, reserve_case) (reserve_units-Pays before used _ db ue info h hr)
