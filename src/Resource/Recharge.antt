-- ===== src/Resource/Recharge.antt =====
-- `NotifyRecharge` of internal/sbi/processor/converged_charging.go.
use chf.Base.{ℕ, Option, none, some}
use chf.Base.Decimal.{Text}
use chf.Base.Maps.{update}
use chf.Diameter.{RequestSubType}
use chf.Resource.{Subscriber, Chf}
use chf.Resource.Store.{put_ue}

-- The reauthorization that goes to the consumer: where to, and for which rating group.
pub record Reauthorization : Type 0 where
  pub notify_uri : Text
  pub rating_group : ℕ

abbrev pub recharged : Subscriber → ℕ → Subscriber
recharged ue rg = record ue {
  charging = record ue.charging {
    rating_type = update (ue.charging).rating_type rg RequestSubType.reserve;
  };
}

-- A rating group in debit mode goes back to reserve mode, and the consumer is notified.
unfoldable pub notify_recharge : Chf → Text → ℕ → Chf × Option Reauthorization
notify_recharge context supi rg = elim (context.ue_pool supi) [
  | none ↦ (context, none)
  | some ue ↦ (
    put_ue context supi (recharged ue rg),
    some (record { notify_uri = (ue.charging).notify_uri; rating_group = rg }),
  )
]
