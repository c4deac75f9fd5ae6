-- ===== src/Account/Balance.antt =====
-- What the handler of pkg/abmf/abmf.go does to the balances of the accounts.
use chf.Base.{
  ℕ, ◌≡◌, ◌≢◌, ◌⊎◌, inl, inr, refl, ap, ◌∙◌, arith, false, Option, none, some, if◌then◌else◌, ◌>>=◌,
  Option-cases,
}
use chf.Base.Word.{Is64, add64, sub64, slt64, add64-sub64}
use chf.Base.Decimal.{Text, format_int, parse_int, parse-format_int, parse_int-Is64}
use chf.Diameter.{
  CcRequestType, RequestedAction, FinalUnitAction, SubscriptionId, MultipleServicesCreditControl,
  AccountDebitRequest, AccountDebitResponse, Reply, answered, ChargingData, Collection, Keeps,
}
use chf.Account.{
  subscriber_id, refund, grant, final_indication, debit_granted, granted_control, direct_debit,
  settle, answer, put_balance, with_quota, with_text, with_document, with_parts, handle_ccr,
}

-- Granting takes from the quota what it gives, and gives at most the request and the quota.
pub grant_bounds :
    (quota request : ℕ)
    → (slt64 quota (grant quota request) ≡ false) × (slt64 request (grant quota request) ≡ false)
unfolding grant slt64
grant_bounds quota request = ground arith

pub grant-Is64 : (quota request : ℕ) → Is64 quota → Is64 request → Is64 (grant quota request)
unfolding grant
grant-Is64 quota request hq hr = ground arith

pub sub64-Is64 : (a b : ℕ) → Is64 (sub64 a b)
unfolding sub64
sub64-Is64 a b = omega arith

pub add64-Is64 : (a b : ℕ) → Is64 (add64 a b)
unfolding add64
add64-Is64 a b = omega arith

debit_granted-Is64 : (quota request : ℕ) → Is64 (debit_granted quota request)
unfolding debit_granted
debit_granted-Is64 quota request = sub64-Is64 quota (grant quota request)

debit_granted_sum :
    (quota request : ℕ)
    → Is64 quota
    → Is64 request
    → add64 (debit_granted quota request) (grant quota request) ≡ quota
unfolding debit_granted
debit_granted_sum quota request hq hr =
    add64-sub64 quota (grant quota request) hq (grant-Is64 quota request hq hr)

abbrev pub reply_control : Reply AccountDebitResponse → Option MultipleServicesCreditControl
reply_control (answered a) = a.multiple_services_credit_control
reply_control _ = none

answer_control :
    (ccr : AccountDebitRequest) (quota request rg : ℕ)
    → ccr.requested_action ≡ RequestedAction.direct_debiting
    → reply_control (
        answered (
          answer ccr.requested_action ccr
            (debit_granted quota request)
            (some (granted_control rg quota request))))
      ≡ some (record {
        rating_group = rg;
        requested_service_unit = none;
        used_service_unit = none;
        granted_service_unit = some (grant quota request);
        final_unit_indication =
            if slt64 quota request then some FinalUnitAction.terminate else none;
      })
unfolding answer final_indication
answer_control ccr quota request rg e = rw e

module _ (c : Collection) where
  open c use {Db, get_one, put_quota}

  abbrev document_quota : Option ChargingData → Option ℕ
  document_quota none = none
  document_quota (some d) = d.quota >>= parse_int

  -- The balance of an account: the quota of its document, read as an int64.
  abbrev pub balance : Db → Text → ℕ → Option ℕ
  balance db ue rg = document_quota (get_one db ue rg)

  -- The document behind a balance.
  balance_document :
      (db : Db) (ue : Text) (rg quota : ℕ)
      → balance db ue rg ≡ some quota
      → (d : ChargingData) × (text : Text) × (get_one db ue rg ≡ some d)
        × (d.quota ≡ some text)
        × (parse_int text ≡ some quota)
  balance_document db ue rg quota h = elim (Option-cases (get_one db ue rg)) [
    | inl e ↦ cc (ap document_quota e)
    | inr (d, e) ↦ elim (Option-cases d.quota) [
      | inl e' ↦ absurd (ground arith)
      | inr (text, e') ↦ (d, text, e, e', ground arith)
    ]
  ]

  pub balance-Is64 :
      (db : Db) (ue : Text) (rg quota : ℕ) → balance db ue rg ≡ some quota → Is64 quota
  balance-Is64 db ue rg quota h =
      let (d, text, e, e', p) = balance_document db ue rg quota h in parse_int-Is64 text quota p

  pub balance-put_same :
      (db : Db) (ue : Text) (rg quota quota' : ℕ)
      → Keeps c
      → Is64 quota'
      → balance db ue rg ≡ some quota
      → balance (put_quota db ue rg (format_int quota')) ue rg ≡ some quota'
  balance-put_same db ue rg quota quota' k small h =
      let (d, text, e, e', p) = balance_document db ue rg quota h in
      rw (k.get-put_same db ue rg (format_int quota') d e) (parse-format_int quota' small)

  pub balance-put_other :
      (db : Db) (ue ue' : Text) (rg rg' : ℕ) (quota : Text)
      → Keeps c
      → (ue ≢ ue') ⊎ (rg ≢ rg')
      → balance (put_quota db ue rg quota) ue' rg' ≡ balance db ue' rg'
  balance-put_other db ue ue' rg rg' quota k o =
      ap document_quota (k.get-put_other db ue ue' rg rg' quota o)

  -- The handler on an account with a balance.
  -- Without a balance nothing is written, and no credit control answers.
  with_document-absent :
      (db : Db) (ccr : AccountDebitRequest) (ue : Text) (m : MultipleServicesCreditControl)
      (o : Option ChargingData)
      → document_quota o ≡ none
      → ((with_document c db ccr ue m o).0 ≡ db)
        × (reply_control (with_document c db ccr ue m o).1 ≡ none)
  unfolding with_document with_text with_quota
  with_document-absent db ccr ue m none h = (refl, refl)
  with_document-absent db ccr ue m (some d) h = elim (Option-cases d.quota) [
    | inl e ↦ rw e (refl, refl)
    | inr (text, e) ↦ let p : parse_int text ≡ none = (rw e at h) in rw (e, p) (refl, refl)
  ]

  pub handle_ccr_absent :
      (db : Db) (ccr : AccountDebitRequest) (s : SubscriptionId) (m : MultipleServicesCreditControl)
      → ccr.subscription_id ≡ some s
      → ccr.multiple_services_credit_control ≡ some m
      → balance db (subscriber_id s) m.rating_group ≡ none
      → ((handle_ccr c db (some ccr)).0 ≡ db)
        × (reply_control (handle_ccr c db (some ccr)).1 ≡ none)
  unfolding handle_ccr with_parts
  handle_ccr_absent db ccr s m hs hm h =
      rw (hs, hm)
        (with_document-absent db _ (subscriber_id s) m (get_one db (subscriber_id s) m.rating_group)
          h)

  pub handle_ccr_found :
      (db : Db) (ccr : AccountDebitRequest) (s : SubscriptionId) (m : MultipleServicesCreditControl)
      (quota : ℕ)
      → ccr.subscription_id ≡ some s
      → ccr.multiple_services_credit_control ≡ some m
      → balance db (subscriber_id s) m.rating_group ≡ some quota
      → handle_ccr c db (some ccr)
        ≡ put_balance c db ccr
            (subscriber_id s)
            m.rating_group
            (settle ccr.requested_action ccr.cc_request_type m quota)
  unfolding handle_ccr with_parts with_document with_text with_quota
  handle_ccr_found db ccr s m quota hs hm h =
      let (d, text, e, e', p) = balance_document db (subscriber_id s) m.rating_group quota h in
      rw (hs, hm, e, e', p)

  -- What is settled is what the account then holds.
  pub handle_ccr_settled :
      (db : Db) (ccr : AccountDebitRequest) (s : SubscriptionId) (m : MultipleServicesCreditControl)
      (quota quota' : ℕ) (control : Option MultipleServicesCreditControl)
      → Keeps c
      → ccr.subscription_id ≡ some s
      → ccr.multiple_services_credit_control ≡ some m
      → balance db (subscriber_id s) m.rating_group ≡ some quota
      → settle ccr.requested_action ccr.cc_request_type m quota ≡ some (quota', control)
      → Is64 quota'
      → (balance (handle_ccr c db (some ccr)).0 (subscriber_id s) m.rating_group ≡ some quota')
        × ((handle_ccr c db (some ccr)).1
            ≡ answered (answer ccr.requested_action ccr quota' control))
  handle_ccr_settled db ccr s m quota quota' control k hs hm h e small =
      let p : handle_ccr c db (some ccr) ≡ (
        put_quota db (subscriber_id s) m.rating_group (format_int quota'),
        answered (answer ccr.requested_action ccr quota' control),
      ) =
        handle_ccr_found db ccr s m quota hs hm h
        ∙ ap (put_balance c db ccr (subscriber_id s) m.rating_group) e
        ∙ unfold put_balance in refl in
      (
        ap (λ r. balance (r.0) (subscriber_id s) m.rating_group) p
            ∙ balance-put_same db (subscriber_id s) m.rating_group quota quota' k small h,
        ap (λ r. r.1) p,
      )

  -- An initial or update request with DIRECT_DEBITING.
  abbrev pub Reserves : AccountDebitRequest → Type 0
  Reserves ccr =
      (ccr.requested_action ≡ RequestedAction.direct_debiting)
      × ((ccr.cc_request_type ≡ CcRequestType.initial_request)
          ⊎ (ccr.cc_request_type ≡ CcRequestType.update_request))

  settle-Reserves :
      (ccr : AccountDebitRequest) (m : MultipleServicesCreditControl) (quota request : ℕ)
      → Reserves ccr
      → m.requested_service_unit ≡ some request
      → settle ccr.requested_action ccr.cc_request_type m quota
        ≡ some (debit_granted quota request, some (granted_control m.rating_group quota request))
  unfolding settle direct_debit
  settle-Reserves ccr m quota request (a, t) r = ground arith

  module _ (k : Keeps c) where
    -- A reservation of 64 bits on an account with a balance: the answer grants at most the request
    -- and the balance as int64, the new balance and the granted units add up to the old balance,
    -- and the answer carries the final unit indication exactly when the request was above the
    -- balance.
    pub handle_ccr-Reserves :
        (db : Db) (ccr : AccountDebitRequest) (s : SubscriptionId)
        (m : MultipleServicesCreditControl) (quota request : ℕ)
        → ccr.subscription_id ≡ some s
        → ccr.multiple_services_credit_control ≡ some m
        → Reserves ccr
        → m.requested_service_unit ≡ some request
        → Is64 request
        → balance db (subscriber_id s) m.rating_group ≡ some quota
        → let (db', reply) = handle_ccr c db (some ccr) in
          (granted : ℕ) × (remaining : ℕ) × (balance db' (subscriber_id s) m.rating_group
            ≡ some remaining)
          × (reply_control reply
              ≡ some (record {
                rating_group = m.rating_group;
                requested_service_unit = none;
                used_service_unit = none;
                granted_service_unit = some granted;
                final_unit_indication =
                    if slt64 quota request then some FinalUnitAction.terminate else none;
              }))
          × (add64 remaining granted ≡ quota)
          × (slt64 request granted ≡ false)
          × (slt64 quota granted ≡ false)
    handle_ccr-Reserves db ccr s m quota request hs hm r hr small h =
        let (after, reply) =
          handle_ccr_settled db ccr s m quota (debit_granted quota request) _ k hs hm h
            (settle-Reserves ccr m quota request r hr) (debit_granted-Is64 quota request) in
        let (within_quota, within_request) = grant_bounds quota request in
        (
          grant quota request,
          debit_granted quota request,
          after,
          ap reply_control reply ∙ answer_control ccr quota request m.rating_group r.0,
          debit_granted_sum quota request (balance-Is64 db _ _ quota h) small,
          within_request,
          within_quota,
        )

    -- A refund to an account with a balance adds its units to the balance, modulo 2^64.
    pub handle_ccr-refund :
        (db : Db) (ccr : AccountDebitRequest) (s : SubscriptionId)
        (m : MultipleServicesCreditControl) (quota units : ℕ)
        → ccr.subscription_id ≡ some s
        → ccr.multiple_services_credit_control ≡ some m
        → ccr.requested_action ≡ RequestedAction.refund_account
        → m.requested_service_unit ≡ some units
        → balance db (subscriber_id s) m.rating_group ≡ some quota
        → balance (handle_ccr c db (some ccr)).0 (subscriber_id s) m.rating_group
          ≡ some (add64 quota units)
    handle_ccr-refund db ccr s m quota units hs hm ha hu h =
        (handle_ccr_settled db ccr s m quota (add64 quota units) none k hs hm h
          (unfold settle refund in rw (ha, hu)) (add64-Is64 quota units)).0
