-- ===== src/Account/Ledger.antt =====
-- The account function as a ledger: what `handleCCR` of pkg/abmf/abmf.go promises of its accounts.
use mathlib.Core.Logic.{ite}
use native.Mathlib.Decide.{ℕ_discrete}
use chf.Base.{
  ℕ, ◌≡◌, ◌≢◌, ◌⊎◌, inl, inr, refl, ap, ◌∙◌, List, [], ◌∷◌, Option, none, some, if◌then◌else◌,
  ◌>>=◌,
}
use chf.Base.Word.{Is64, add64, sub64, slt64}
use chf.Base.Decimal.{Text}
use chf.Diameter.{
  CcRequestType, RequestedAction, SubscriptionId, MultipleServicesCreditControl,
  AccountDebitRequest, AccountDebitResponse, Reply, answered,
}
use chf.Diameter.Table.{key_discrete}
use chf.Account.{
  subscriber_id, settle, direct_debit, refund, debit_granted, grant, granted_control, answer,
}
use chf.Account.Balance.{reply_control, sub64-Is64, add64-Is64}

-- What an account holds, as an int64 pattern.
abbrev pub Ledger : Type 0
Ledger = Text → ℕ → Option ℕ

-- A reservation takes what is there if less than n is; a charge takes n in any case.
pub data Movement : Type 0 where
  reserves : ℕ → Movement
  charges : ℕ → Movement
  gives : ℕ → Movement
  nothing : Movement

unfoldable pub granted_units : Movement → ℕ → Option ℕ
granted_units (reserves n) quota = some (if slt64 quota n then quota else n)
granted_units _ quota = none

unfoldable pub moved : Movement → ℕ → ℕ
moved (reserves n) quota = sub64 quota (if slt64 quota n then quota else n)
moved (charges n) quota = sub64 quota n
moved (gives n) quota = add64 quota n
moved nothing quota = quota

abbrev with_units : (ℕ → Movement) → Option ℕ → Option Movement
with_units f none = none
with_units f (some n) = some (f n)

abbrev debit_movement : CcRequestType → Option ℕ → Option ℕ → Option Movement
debit_movement CcRequestType.initial_request requested used = with_units reserves requested
debit_movement CcRequestType.update_request requested used = with_units reserves requested
debit_movement CcRequestType.termination_request requested used = with_units charges used
debit_movement _ requested used = some nothing

-- What a request asks for; none if it lacks the units for that.
unfoldable pub movement : RequestedAction → CcRequestType → Option ℕ → Option ℕ → Option Movement
movement RequestedAction.direct_debiting type requested used = debit_movement type requested used
movement RequestedAction.refund_account type requested used = with_units gives requested
movement _ type requested used = some nothing

unfoldable pub set_balance : Ledger → Text → ℕ → ℕ → Ledger
set_balance l ue rg quota ue' rg' = ite (key_discrete (ue, rg) (ue', rg')) (some quota) (l ue' rg')

abbrev pub account_step : Ledger → Text → ℕ → Option Movement → Option ℕ → Ledger × Option ℕ
account_step l ue rg none quota = (l, none)
account_step l ue rg (some move) none = (l, none)
account_step l ue rg (some move) (some quota) =
    (set_balance l ue rg (moved move quota), granted_units move quota)

abbrev pub request_step :
    Ledger
    → AccountDebitRequest
    → Option SubscriptionId
    → Option MultipleServicesCreditControl
    → Ledger × Option ℕ
request_step l ccr (some s) (some m) =
    account_step l (subscriber_id s) m.rating_group
      (movement ccr.requested_action ccr.cc_request_type m.requested_service_unit
        m.used_service_unit)
      (l (subscriber_id s) m.rating_group)
request_step l ccr _ _ = (l, none)

-- A request moves one account, if it is there, and grants the units that it reserves.
unfoldable pub ledger_step : Ledger → Option AccountDebitRequest → Ledger × Option ℕ
ledger_step l none = (l, none)
ledger_step l (some ccr) =
    request_step l ccr ccr.subscription_id ccr.multiple_services_credit_control

unfoldable pub ledger_run : Ledger → List (Option AccountDebitRequest) → Ledger × List (Option ℕ)
ledger_run l [] = (l, [])
ledger_run l (r ∷ rs) =
    let (l', g) = ledger_step l r in let (l'', gs) = ledger_run l' rs in (l'', g ∷ gs)

pub moved-Is64 : (move : Movement) (quota : ℕ) → Is64 quota → Is64 (moved move quota)
unfolding moved
moved-Is64 (reserves n) quota h = sub64-Is64 quota (if slt64 quota n then quota else n)
moved-Is64 (charges n) quota h = sub64-Is64 quota n
moved-Is64 (gives n) quota h = add64-Is64 quota n
moved-Is64 nothing quota h = h

-- The credit control that answers a movement.
abbrev pub control : ℕ → Movement → ℕ → Option MultipleServicesCreditControl
control rg (reserves n) quota = some (granted_control rg quota n)
control rg _ quota = none

abbrev pub settled : ℕ → ℕ → Option Movement → Option (ℕ × Option MultipleServicesCreditControl)
settled rg quota none = none
settled rg quota (some move) = some (moved move quota, control rg move quota)

pub settle-movement :
    (action : RequestedAction) (type : CcRequestType) (m : MultipleServicesCreditControl)
    (quota : ℕ)
    → settle action type m quota
      ≡ settled m.rating_group quota
          (movement action type m.requested_service_unit m.used_service_unit)
unfolding settle movement direct_debit moved refund debit_granted grant
settle-movement action type m quota =
    go action type m.requested_service_unit m.used_service_unit refl refl
  where
    go :
        (action : RequestedAction) (type : CcRequestType) (requested used : Option ℕ)
        → m.requested_service_unit ≡ requested
        → m.used_service_unit ≡ used
        → settle action type m quota
          ≡ settled m.rating_group quota (movement action type requested used)
    go RequestedAction.direct_debiting CcRequestType.initial_request none used e f = rw e refl
    go RequestedAction.direct_debiting CcRequestType.initial_request (some n) used e f = rw e refl
    go RequestedAction.direct_debiting CcRequestType.update_request none used e f = rw e refl
    go RequestedAction.direct_debiting CcRequestType.update_request (some n) used e f = rw e refl
    go RequestedAction.direct_debiting CcRequestType.termination_request requested none e f =
        rw f refl
    go RequestedAction.direct_debiting CcRequestType.termination_request requested (some n) e f =
        rw f refl
    go RequestedAction.direct_debiting CcRequestType.event_request requested used e f = refl
    go RequestedAction.direct_debiting CcRequestType.unnamed requested used e f = refl
    go RequestedAction.refund_account type none used e f = rw e refl
    go RequestedAction.refund_account type (some n) used e f = rw e refl
    go RequestedAction.check_balance type requested used e f = refl
    go RequestedAction.price_enquiry type requested used e f = refl
    go RequestedAction.unnamed type requested used e f = refl

abbrev pub reply_granted : Reply AccountDebitResponse → Option ℕ
reply_granted r = reply_control r >>= λ m. m.granted_service_unit

pub answer-granted :
    (ccr : AccountDebitRequest) (action : RequestedAction) (type : CcRequestType)
    (requested used : Option ℕ) (rg quota quota' : ℕ) (move : Movement)
    → movement action type requested used ≡ some move
    → reply_granted (answered (answer action ccr quota' (control rg move quota)))
      ≡ granted_units move quota
unfolding movement answer granted_units grant
answer-granted ccr RequestedAction.direct_debiting type requested used rg quota quota' (reserves n)
      e =
    refl
answer-granted ccr RequestedAction.direct_debiting type requested used rg quota quota' (charges n)
      e =
    refl
answer-granted ccr RequestedAction.direct_debiting type requested used rg quota quota' (gives n) e =
    refl
answer-granted ccr RequestedAction.direct_debiting type requested used rg quota quota' nothing e =
    refl
answer-granted ccr RequestedAction.refund_account type none used rg quota quota' move e = cc e
answer-granted ccr RequestedAction.refund_account type (some n) used rg quota quota' move e =
    ap (λ o. o >>= λ m. granted_units m quota) e
answer-granted ccr RequestedAction.check_balance type requested used rg quota quota' move e =
    ap (λ o. o >>= λ m. granted_units m quota) e
answer-granted ccr RequestedAction.price_enquiry type requested used rg quota quota' move e =
    ap (λ o. o >>= λ m. granted_units m quota) e
answer-granted ccr RequestedAction.unnamed type requested used rg quota quota' move e =
    ap (λ o. o >>= λ m. granted_units m quota) e

pub apart :
    (ue ue' : Text) (rg rg' : ℕ)
    → ¬ (◌≡◌ {A = Text × ℕ} (ue, rg) (ue', rg'))
    → (ue ≢ ue') ⊎ (rg ≢ rg')
apart ue ue' rg rg' n = elim (ℕ_discrete rg rg') [
  | yes p ↦ inl (λ q. n (ap (λ u. (u, rg)) q ∙ ap (λ r. (ue', r)) p))
  | no m ↦ inr m
]
