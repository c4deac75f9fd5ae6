-- ===== src/Session/Settle.antt =====
-- The end of a reservation: the reserved quota goes back to the account, less the price of the used
-- units (the REQ_SUBTYPE_DEBIT case in internal/sbi/processor/converged_charging.go with the account
-- function of pkg/abmf/abmf.go).
use chf.Base.{ℕ, ◌≡◌, inl, inr, refl, sym, ap, ◌∙◌, arith, none, some, Bool-cases}
use chf.Base.Word.{Is64, add64, sub64, slt64}
use chf.Base.Maps.{update, update_same}
use chf.Diameter.{
  CcRequestType, RequestedAction, RequestSubType, SubscriptionId, MultipleServicesCreditControl,
  Collection, Keeps,
}
use chf.Models.{MultipleUnitInformation}
use chf.Account.{subscriber_id, handle_ccr, settle, refund, direct_debit}
use chf.Account.Balance.{balance, handle_ccr_settled, sub64-Is64}
use chf.Ue.{ChfUe}
use chf.Session.Peers.{servers, or_timeout}
use chf.Session.Messages.{debit_request, requested_units, used_units}
use chf.Session.Reserve.{Outcome}
use chf.Session.Debit.{settle_request, settle_answered, settle_price}
use chf.Session.Money.{funds}

-- before + (reserved - price) = (before + reserved) - price
funds_back :
    (before reserved price : ℕ)
    → Is64 reserved
    → Is64 price
    → add64 before (sub64 reserved price) ≡ sub64 (add64 before reserved) price
unfolding add64 sub64
funds_back before reserved price hr hp = omega arith

-- before - (price - reserved) = (before + reserved) - price
funds_rest :
    (before reserved price : ℕ)
    → Is64 reserved
    → Is64 price
    → sub64 before (sub64 price reserved) ≡ sub64 (add64 before reserved) price
unfolding add64 sub64
funds_rest before reserved price hr hp = omega arith

module _ (c : Collection) (s : SubscriptionId) (rg : ℕ) where
  -- The outcome of a settled price, with nothing reserved and the rest on the account.
  abbrev pub Settles : ℕ → Outcome (servers c) → Type 0
  Settles total r =
      (balance c (r.1) (subscriber_id s) rg ≡ some total) × ((r.0).reserved_quota rg ≡ 0)

  module _ (k : Keeps c) where
    -- One request to the account function that is settled at a new balance.
    settle_sent :
        (before after : ℕ) (db : c.Db) (ue : ChfUe) (info : MultipleUnitInformation)
        (action : RequestedAction) (type : CcRequestType) (m : MultipleServicesCreditControl)
        → balance c db (subscriber_id s) rg ≡ some before
        → m.rating_group ≡ rg
        → settle action type m before ≡ some (after, none)
        → Is64 after
        → let ccr = debit_request ue (some s) rg action type m in
          let sent = handle_ccr c db (some ccr) in
          Settles after
            (settle_answered (servers c) (some s) rg (sent.0) ue info (or_timeout (sent.1)))
    unfolding settle_answered debit_request
    settle_sent before after db ue info action type m h hm e small =
        let ccr = debit_request ue (some s) rg action type m in
        let (left, reply) =
          handle_ccr_settled c db ccr s m before after none k refl refl
            (ap (balance c db (subscriber_id s)) hm ∙ h) e small in
        rw reply (
          ap (balance c (handle_ccr c db (some ccr)).0 (subscriber_id s)) (sym hm) ∙ left,
          update_same ue.reserved_quota rg 0,
        )

    -- Where the account has a balance, and the reserved quota and the price are of 64 bits,
    -- settling the price leaves nothing reserved, and on the account its balance and the reserved
    -- quota less the price, modulo 2^64, whether the rest was refunded or debited.
    pub settle_price-Settles :
        (before price : ℕ) (db : c.Db) (ue : ChfUe) (info : MultipleUnitInformation)
        → balance c db (subscriber_id s) rg ≡ some before
        → Is64 (ue.reserved_quota rg)
        → Is64 price
        → Settles
            (sub64 (funds before (ue.reserved_quota rg)) price)
            (settle_price (servers c) (some s) rg price db ue info)
    unfolding settle_price settle_request debit_request
    settle_price-Settles before price db ue info h hr hp =
        let after = sub64 (funds before (ue.reserved_quota rg)) price in
        let small = sub64-Is64 (funds before (ue.reserved_quota rg)) price in
        elim (Bool-cases (slt64 price (ue.reserved_quota rg))) [
          | inl e ↦
              rw (e, settle_request, settle_price)
                (settle_sent before after db
                  (record ue { rating_type = update ue.rating_type rg RequestSubType.reserve }) info
                  RequestedAction.refund_account CcRequestType.unnamed
                  (requested_units rg (sub64 (ue.reserved_quota rg) price)) h refl
                  (unfold settle refund in
                    ap (λ q. some (q, none)) (funds_back before (ue.reserved_quota rg) price hr hp))
                  small)
          | inr e ↦
              rw (e, settle_request, settle_price)
                (settle_sent before after db ue info RequestedAction.direct_debiting
                  CcRequestType.termination_request
                  (used_units rg (sub64 price (ue.reserved_quota rg))) h refl
                  (unfold settle direct_debit in
                    ap (λ q. some (q, none)) (funds_rest before (ue.reserved_quota rg) price hr hp))
                  small)
        ]
