-- ===== src/Account/Refines.antt =====
-- The account function implements the ledger (`handleCCR` of pkg/abmf/abmf.go).
use mathlib.Core.Logic.{if_pos, if_neg}
use mathlib.Core.Path.{fun_ext}
use chf.Base.{
  ℕ, ◌≡◌, inl, inr, refl, sym, ap, ◌∙◌, List, [], ◌∷◌, Option, none, some, ◌>>=◌, Option-cases,
}
use chf.Base.Word.{Is64}
use chf.Base.Decimal.{Text, format_int}
use chf.Diameter.{
  SubscriptionId, MultipleServicesCreditControl, AccountDebitRequest, AccountDebitResponse, Reply,
  answered, Collection, Keeps,
}
use chf.Diameter.Table.{key_discrete}
use chf.Account.{subscriber_id, answer, handle_ccr, with_parts, put_balance}
use chf.Account.Balance.{
  balance, balance-Is64, balance-put_same, balance-put_other, handle_ccr_absent, handle_ccr_found,
}
use chf.Account.Ledger.{
  Ledger, Movement, moved, movement, set_balance, account_step, request_step, ledger_step,
  ledger_run, moved-Is64, control, settled, settle-movement, reply_granted, answer-granted, apart,
}

module _ (c : Collection) where
  open c use {Db, get_one, put_quota}

  put_quota-set_balance :
      (db : Db) (ue : Text) (rg quota quota' : ℕ)
      → Keeps c
      → Is64 quota'
      → balance c db ue rg ≡ some quota
      → balance c (put_quota db ue rg (format_int quota')) ≡ set_balance (balance c db) ue rg quota'
  unfolding set_balance
  put_quota-set_balance db ue rg quota quota' k small h = fun_ext (λ ue'. fun_ext (λ rg'.
      elim (key_discrete (ue, rg) (ue', rg')) [
        | yes e ↦ rw (if_pos _ e) (
            ap (λ p. balance c (put_quota db ue rg (format_int quota')) (p.0) (p.1)) (sym e)
            ∙ balance-put_same c db ue rg quota quota' k small h)
        | no n ↦
            rw (if_neg _ n)
              (balance-put_other c db ue ue' rg rg' (format_int quota') k (apart ue ue' rg rg' n))
      ]))

  -- The state that a run over a list of requests leaves, and what it granted_units.
  unfoldable pub run : Db → List (Option AccountDebitRequest) → Db × List (Option ℕ)
  run db [] = (db, [])
  run db (r ∷ rs) =
      let (db', reply) = handle_ccr c db r in
      let (db'', gs) = run db' rs in (db'', reply_granted reply ∷ gs)

  abbrev observed : Db × Reply AccountDebitResponse → Ledger × Option ℕ
  observed (db, reply) = (balance c db, reply_granted reply)

  put_balance-observed :
      (db : Db) (ccr : AccountDebitRequest) (ue : Text) (m : MultipleServicesCreditControl)
      (quota : ℕ) (o : Option Movement)
      → Keeps c
      → balance c db ue m.rating_group ≡ some quota
      → movement ccr.requested_action ccr.cc_request_type m.requested_service_unit
          m.used_service_unit
        ≡ o
      → observed (put_balance c db ccr ue m.rating_group (settled m.rating_group quota o))
        ≡ account_step (balance c db) ue m.rating_group o (some quota)
  unfolding put_balance
  put_balance-observed db ccr ue m quota none k h e = refl
  put_balance-observed db ccr ue m quota (some move) k h e =
      let books =
        put_quota-set_balance db ue m.rating_group quota (moved move quota) k
          (moved-Is64 move quota (balance-Is64 c db ue m.rating_group quota h)) h in
      let grants =
        answer-granted ccr ccr.requested_action ccr.cc_request_type m.requested_service_unit
          m.used_service_unit m.rating_group quota (moved move quota) move e in
      ap
        (λ l. (
          l,
          reply_granted (
              answered (
                answer ccr.requested_action ccr (moved move quota)
                  (control m.rating_group move quota))),
        ))
        books
      ∙ ap (λ g. (set_balance (balance c db) ue m.rating_group (moved move quota), g)) grants

  account_step-none :
      (l : Ledger) (ue : Text) (rg : ℕ) (o : Option Movement)
      → account_step l ue rg o none ≡ (l, none)
  account_step-none l ue rg none = refl
  account_step-none l ue rg (some move) = refl

  handle_ccr-request_step :
      (db : Db) (ccr : AccountDebitRequest) (s : SubscriptionId) (m : MultipleServicesCreditControl)
      → Keeps c
      → ccr.subscription_id ≡ some s
      → ccr.multiple_services_credit_control ≡ some m
      → observed (handle_ccr c db (some ccr)) ≡ request_step (balance c db) ccr (some s) (some m)
  handle_ccr-request_step db ccr s m k hs hm =
      let ue = subscriber_id s in
      let wanted =
        movement ccr.requested_action ccr.cc_request_type m.requested_service_unit
          m.used_service_unit in
      let step = account_step (balance c db) (subscriber_id s) m.rating_group wanted in
      elim (Option-cases (balance c db (subscriber_id s) m.rating_group)) [
        | inl e ↦
            let (p, q) = handle_ccr_absent c db ccr s m hs hm e in
            ap (λ d. (balance c d, reply_granted (handle_ccr c db (some ccr)).1)) p
            ∙ ap (λ o. (balance c db, o >>= λ m. m.granted_service_unit)) q
            ∙ sym (account_step-none (balance c db) ue m.rating_group wanted)
            ∙ ap step (sym e)
        | inr (quota, e) ↦
            ap observed (handle_ccr_found c db ccr s m quota hs hm e)
            ∙ ap (λ o. observed (put_balance c db ccr ue m.rating_group o))
                (settle-movement ccr.requested_action ccr.cc_request_type m quota)
            ∙ put_balance-observed db ccr ue m quota wanted k e refl
            ∙ ap step (sym e)
      ]

  handle_ccr-ledger_step :
      (db : Db) (r : Option AccountDebitRequest)
      → Keeps c
      → observed (handle_ccr c db r) ≡ ledger_step (balance c db) r
  unfolding handle_ccr with_parts ledger_step
  handle_ccr-ledger_step db none k = refl
  handle_ccr-ledger_step db (some ccr) k = elim (Option-cases ccr.subscription_id) [
    | inl e ↦ rw e refl
    | inr (s, e) ↦ elim (Option-cases ccr.multiple_services_credit_control) [
      | inl f ↦ rw (e, f) refl
      | inr (m, f) ↦
          handle_ccr-request_step db ccr s m k e f
          ∙ ap (λ o. request_step (balance c db) ccr (some s) o) (sym f)
          ∙ ap (λ o. request_step (balance c db) ccr o ccr.multiple_services_credit_control) (sym e)
    ]
  ]

  -- Where the collection keeps what is written, the balances that the account function leaves
  -- after any list of requests, and what its answers grant, are those of a ledger that moves one
  -- account for each request: a reservation takes at most the balance, a termination takes the
  -- used units, a refund gives, and anything else, also a request that the handler fails on, moves
  -- nothing.
  pub run-ledger_run :
      (db : Db) (rs : List (Option AccountDebitRequest))
      → Keeps c
      → (balance c (run db rs).0, (run db rs).1) ≡ ledger_run (balance c db) rs
  unfolding run ledger_run
  run-ledger_run db [] k = refl
  run-ledger_run db (r ∷ rs) k =
      let step = handle_ccr-ledger_step db r k in
      let (db', reply) = handle_ccr c db r in
      ap (λ q. (q.0, reply_granted reply ∷ q.1)) (run-ledger_run db' rs k)
      ∙ ap (λ q. ((ledger_run (q.0) rs).0, q.1 ∷ (ledger_run (q.0) rs).1)) step
