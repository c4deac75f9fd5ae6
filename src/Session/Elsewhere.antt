-- ===== src/Session/Elsewhere.antt =====
-- What a session request leaves alone: the accounts of other subscribers and rating groups, and the
-- reserved quotas of other rating groups (internal/sbi/processor/converged_charging.go with the servers).
use mathlib.Core.Path.{subst}
use chf.Base.{
  ℕ, ◌≡◌, ◌≢◌, ◌⊎◌, inl, inr, refl, sym, ◌∙◌, Option, none, some, Bool-cases, Option-cases, ◌>>=◌,
}
use chf.Base.Decimal.{Text}
use chf.Base.Word.{slt64, add64, sub64, mul32, pos32}
use chf.Base.Maps.{update, update_other}
use chf.Diameter.{
  CcRequestType, RequestedAction, RequestSubType, FinalUnitAction, SubscriptionId,
  MultipleServicesCreditControl, AccountDebitResponse, ServiceUsageResponse, Collection, Keeps,
}
use chf.Models.{MultipleUnitInformation}
use chf.Account.{subscriber_id, handle_ccr, with_parts}
use chf.Account.Balance.{balance}
use chf.Account.Others.{handle_ccr-other}
use chf.Ue.{ChfUe}
use chf.Session.Peers.{servers, or_timeout}
use chf.Session.Messages.{debit_request, requested_units, used_units, get_unit_cost}
use chf.Session.Reserve.{
  Outcome, apply_final, apply_grant, grant_answered, grant_units, reserve_answered, missing_units,
  reserve_account, use_reserved, reserve_units, reserve_case,
}
use chf.Session.Debit.{settle_request, settle_answered, settle_price, debit_answered, debit_case}

-- The subscription of a request is none, or another one.
abbrev pub IsOther : Option SubscriptionId → Text → Type 0
IsOther none name = Unit
IsOther (some s) name = subscriber_id s ≢ name

abbrev pub OfSome {ℓ} : {A : Type ℓ} → (A → Type 0) → Option A → Type 0
OfSome P none = Unit
OfSome P (some a) = P a

module _ (c : Collection) (k : Keeps c) (subscriber : Option SubscriptionId) (name : Text)
    (i j : ℕ) where
  -- The balance of one account, and the reserved quota of one rating group.
  abbrev pub Stays : c.Db → ChfUe → ChfUe → c.Db → Type 0
  Stays db ue ue' db' =
      (balance c db' name i ≡ balance c db name i) × (ue'.reserved_quota j ≡ ue.reserved_quota j)

  abbrev pub OutcomeStays : c.Db → ChfUe → Outcome (servers c) → Type 0
  OutcomeStays db ue r = Stays db ue (r.0) (r.1)

  module _ (rg : ℕ) (away : IsOther subscriber name ⊎ (rg ≢ i)) (apart : rg ≢ j) where
    debit_request-Stays :
        (s : Option SubscriptionId) (db : c.Db) (ue : ChfUe) (action : RequestedAction)
        (type : CcRequestType) (m : MultipleServicesCreditControl)
        → IsOther s name ⊎ (m.rating_group ≢ i)
        → balance c (handle_ccr c db (some (debit_request ue s rg action type m))).0 name i
          ≡ balance c db name i
    unfolding debit_request handle_ccr with_parts
    debit_request-Stays none db ue action type m h = refl
    debit_request-Stays (some s) db ue action type m h =
        handle_ccr-other c k db (debit_request ue (some s) rg action type m) s m name i refl refl h

    grant_answered-Stays :
        (usage_index requested : ℕ) (db : c.Db) (ue : ChfUe) (info : MultipleUnitInformation)
        (o : Option ServiceUsageResponse)
        → OutcomeStays db ue
            (grant_answered (servers c) subscriber rg usage_index requested db ue info o)
    unfolding grant_answered get_unit_cost
    grant_answered-Stays usage_index requested db ue info none = (refl, refl)
    grant_answered-Stays usage_index requested db ue info (some sua) = (refl, refl)

    grant_units-Stays :
        (usage_index requested quota : ℕ) (db : c.Db) (ue : ChfUe) (info : MultipleUnitInformation)
        → OutcomeStays db ue
            (grant_units (servers c) subscriber rg usage_index requested quota db ue info)
    unfolding grant_units
    grant_units-Stays usage_index requested quota db ue info =
        grant_answered-Stays usage_index requested db ue info _

    apply_final-Stays :
        (o : Option FinalUnitAction) (ue : ChfUe) (info : MultipleUnitInformation)
        → ((apply_final rg o ue info).0).reserved_quota j ≡ ue.reserved_quota j
    apply_final-Stays none ue info = refl
    apply_final-Stays (some FinalUnitAction.terminate) ue info = refl
    apply_final-Stays (some _) ue info = refl

    apply_grant-Stays :
        (m : Option MultipleServicesCreditControl) (ue : ChfUe) (info : MultipleUnitInformation)
        → OfSome (λ r. (r.0).reserved_quota j ≡ ue.reserved_quota j) (apply_grant rg m ue info)
    unfolding apply_grant
    apply_grant-Stays none ue info = tt
    apply_grant-Stays (some m) ue info = elim (Option-cases m.granted_service_unit) [
      | inl e ↦ rw e tt
      | inr (granted, e) ↦ rw e (
          apply_final-Stays m.final_unit_indication
            (record ue {
              reserved_quota = update ue.reserved_quota rg (add64 (ue.reserved_quota rg) granted);
            })
            info
          ∙ update_other ue.reserved_quota rg j (add64 (ue.reserved_quota rg) granted) apart)
    ]

    granted-Stays :
        (usage_index requested quota : ℕ) (db : c.Db) (ue : ChfUe)
        (o : Option (ChfUe × MultipleUnitInformation))
        → OfSome (λ r. (r.0).reserved_quota j ≡ ue.reserved_quota j) o
        → OfSome (OutcomeStays db ue) (
            o >>= λ r.
            some (grant_units (servers c) subscriber rg usage_index requested quota db (r.0) (r.1)))
    granted-Stays usage_index requested quota db ue none h = tt
    granted-Stays usage_index requested quota db ue (some (ue', info)) h =
        let (b, q) = grant_units-Stays usage_index requested quota db ue' info in (b, q ∙ h)

    reserve_answered-Stays :
        (usage_index requested quota : ℕ) (db : c.Db) (ue : ChfUe) (info : MultipleUnitInformation)
        (o : Option AccountDebitResponse)
        → OfSome
            (OutcomeStays db ue)
            (reserve_answered (servers c) subscriber rg usage_index requested quota db ue info o)
    unfolding reserve_answered
    reserve_answered-Stays usage_index requested quota db ue info none = (refl, refl)
    reserve_answered-Stays usage_index requested quota db ue info (some cca) =
        granted-Stays usage_index requested quota db ue
          (apply_grant rg cca.multiple_services_credit_control ue info)
          (apply_grant-Stays cca.multiple_services_credit_control ue info)

    -- The account function is asked first.
    asked-Stays :
        (db db' : c.Db) (ue ue' : ChfUe) (o : Option (Outcome (servers c)))
        → Stays db ue ue' db'
        → OfSome (OutcomeStays db' ue') o
        → OfSome (OutcomeStays db ue) o
    asked-Stays db db' ue ue' none h later = tt
    asked-Stays db db' ue ue' (some r) h later = (later.0 ∙ h.0, later.1 ∙ h.1)

    reserve_account-Stays :
        (usage_index requested quota : ℕ) (db : c.Db) (ue : ChfUe) (info : MultipleUnitInformation)
        → OfSome
            (OutcomeStays db ue)
            (reserve_account (servers c) subscriber rg usage_index requested quota db ue info)
    unfolding reserve_account
    reserve_account-Stays usage_index requested quota db ue info =
        let m =
          requested_units rg
            (missing_units (servers c) subscriber rg usage_index requested quota ue) in
        let ccr =
          debit_request ue subscriber rg RequestedAction.direct_debiting
            CcRequestType.update_request m in
        let sent = handle_ccr c db (some ccr) in
        let answered =
          reserve_answered (servers c) subscriber rg usage_index requested quota (sent.0) ue info
            (or_timeout (sent.1)) in
        asked-Stays db (sent.0) ue ue answered
          (
            debit_request-Stays subscriber db ue RequestedAction.direct_debiting
                CcRequestType.update_request m away,
            refl,
          )
          (reserve_answered-Stays usage_index requested quota (sent.0) ue info
            (or_timeout (sent.1)))

    reserve_units-Stays :
        (usage_index requested used cost : ℕ) (db : c.Db) (ue : ChfUe)
        (info : MultipleUnitInformation)
        → OfSome
            (OutcomeStays db ue)
            (reserve_units (servers c) subscriber rg usage_index requested used cost db ue info)
    unfolding reserve_units use_reserved
    reserve_units-Stays usage_index requested used cost db ue info =
        let ue1 = use_reserved (servers c) subscriber rg usage_index requested cost used ue in
        let same : Stays db ue ue1 db = (
          refl,
          update_other ue.reserved_quota rg j (sub64 (ue.reserved_quota rg) (mul32 used cost))
              apart,
        ) in
        elim (Bool-cases (slt64 0 (ue1.reserved_quota rg))) [
          | inl e ↦
              rw (e, reserve_units)
                (asked-Stays db db ue ue1
                  (some (
                    grant_units (servers c) subscriber rg usage_index requested
                      (mul32 requested cost) db ue1 info))
                  same (grant_units-Stays usage_index requested (mul32 requested cost) db ue1 info))
          | inr e ↦
              rw (e, reserve_units)
                (asked-Stays db db ue ue1
                  (reserve_account (servers c) subscriber rg usage_index requested
                    (mul32 requested cost) db ue1 info)
                  same
                  (reserve_account-Stays usage_index requested (mul32 requested cost) db ue1 info))
        ]

    pub reserve_case-Stays :
        (usage_index requested used : ℕ) (db : c.Db) (ue : ChfUe) (info : MultipleUnitInformation)
        → OfSome
            (OutcomeStays db ue)
            (reserve_case (servers c) subscriber rg usage_index requested used db ue info)
    unfolding reserve_case get_unit_cost
    reserve_case-Stays usage_index requested used db ue info = elim (Bool-cases (pos32 requested)) [
      | inl e ↦ rw (e, reserve_case) (reserve_units-Stays usage_index requested used _ db ue info)
      | inr e ↦ rw (e, reserve_case) (refl, refl)
    ]

    settle_answered-Stays :
        (db : c.Db) (ue : ChfUe) (info : MultipleUnitInformation) (o : Option AccountDebitResponse)
        → OutcomeStays db ue (settle_answered (servers c) subscriber rg db ue info o)
    unfolding settle_answered
    settle_answered-Stays db ue info none = (refl, refl)
    settle_answered-Stays db ue info (some cca) =
        (refl, update_other ue.reserved_quota rg j 0 apart)

    settle_sent-Stays :
        (db : c.Db) (ue : ChfUe) (info : MultipleUnitInformation) (action : RequestedAction)
        (type : CcRequestType) (m : MultipleServicesCreditControl)
        → m.rating_group ≡ rg
        → let sent = handle_ccr c db (some (debit_request ue subscriber rg action type m)) in
          OutcomeStays db ue
            (settle_answered (servers c) subscriber rg (sent.0) ue info (or_timeout (sent.1)))
    settle_sent-Stays db ue info action type m e =
        let sent = handle_ccr c db (some (debit_request ue subscriber rg action type m)) in
        let (b, q) = settle_answered-Stays (sent.0) ue info (or_timeout (sent.1)) in
        (
          b
              ∙ debit_request-Stays subscriber db ue action type m
                  (subst (λ g. IsOther subscriber name ⊎ (g ≢ i)) (sym e) away),
          q,
        )

    settle_price-Stays :
        (price : ℕ) (db : c.Db) (ue : ChfUe) (info : MultipleUnitInformation)
        → OutcomeStays db ue (settle_price (servers c) subscriber rg price db ue info)
    unfolding settle_price settle_request debit_request
    settle_price-Stays price db ue info = elim (Bool-cases (slt64 price (ue.reserved_quota rg))) [
      | inl e ↦
          rw (e, settle_request, settle_price)
            (settle_sent-Stays db
              (record ue { rating_type = update ue.rating_type rg RequestSubType.reserve }) info
              RequestedAction.refund_account CcRequestType.unnamed
              (requested_units rg (sub64 (ue.reserved_quota rg) price)) refl)
      | inr e ↦
          rw (e, settle_request, settle_price)
            (settle_sent-Stays db ue info RequestedAction.direct_debiting
              CcRequestType.termination_request (used_units rg (sub64 price (ue.reserved_quota rg)))
              refl)
    ]

    debit_answered-Stays :
        (db : c.Db) (ue : ChfUe) (info : MultipleUnitInformation) (o : Option ServiceUsageResponse)
        → OutcomeStays db ue (debit_answered (servers c) subscriber rg db ue info o)
    unfolding debit_answered
    debit_answered-Stays db ue info none = (refl, refl)
    debit_answered-Stays db ue info (some sua) =
        settle_price-Stays sua.service_rating.price db ue info

    pub debit_case-Stays :
        (used : ℕ) (db : c.Db) (ue : ChfUe) (info : MultipleUnitInformation)
        → OutcomeStays db ue (debit_case (servers c) subscriber rg used db ue info)
    unfolding debit_case
    debit_case-Stays used db ue info = debit_answered-Stays db ue info _
