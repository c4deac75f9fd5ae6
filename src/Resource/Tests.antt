-- ===== src/Resource/Tests.antt =====
-- An update of a charging data resource on concrete data (`ChargingDataUpdate` of
-- internal/sbi/processor/converged_charging.go).
use chf.Base.{ℕ, ◌≡◌, refl, arith, [], some}
use chf.Base.Maps.{text_eq}
use chf.Diameter.Table.{table}
use chf.Record.Convert.{sign_extend}
use chf.Ue.{find_rating_group}
use chf.Session.Peers.{servers}
use chf.Session.Scan.{scan_used_units, register_rating_group}
use chf.Session.Messages.{supi_type, subscriber_identifier}
use chf.Session.Loop.{charge_usages, charge_usage, charge_scanned, session_charging_reservation}
use chf.Resource.{Chf, Answer}
use chf.Resource.Update.{Done, usage_bytes, charging_data_update}
use chf.Resource.Create.{charging_data_create, create_for, new_chf_ue, is_imsi, create_opened}
use chf.Record.Lifecycle.{open_cdr}
use chf.Record.Open.{record_subscriber, consumer_information, pdu_charging}
use chf.Resource.Recharge.{notify_recharge}
use chf.Resource.Kept.{AreKept}
use chf.Resource.Reach.{creates, recharges, here, there, from_nobody-AreKept}
use chf.Resource.Recorded.{Records, charging_data_update-Records}
use chf.Resource.Sample.{
  imsi, session, outside, subscriber, context, request, no_accounts, creation, nobody,
}

charging_data_update-Records_example :
    (d : Done (servers table) outside) × (charging_data_update
        (servers table)
        outside
        context
        no_accounts
        0
        request
        session
      ≡ some d)
    × Records (servers table) outside imsi 2 [] 40 d
unfolding session_charging_reservation subscriber_identifier supi_type text_eq charge_usages
    charge_usage charge_scanned scan_used_units register_rating_group find_rating_group usage_bytes
    sign_extend
charging_data_update-Records_example =
    charging_data_update-Records (servers table) outside (λ files name bytes. refl) context
      no_accounts _ 0 request session subscriber 0 _ _ _ _ _ refl refl
      (record { once = λ s b h. (let p : 0 ≡ b = cc in rw (← p) refl); below = (omega arith, tt) })
      refl refl refl

creation_done : (r : Chf × ℕ × Answer) × (charging_data_create outside 0 nobody creation ≡ some r)
unfolding charging_data_create create_for new_chf_ue is_imsi create_opened open_cdr
    record_subscriber consumer_information supi_type text_eq pdu_charging
creation_done = (_, refl)

-- A session is created, and its rating group recharged.
from_nobody-AreKept_example : AreKept (notify_recharge (creation_done.0).0 imsi 1).0
from_nobody-AreKept_example =
    from_nobody-AreKept (servers table) outside (nobody, no_accounts, 0)
      ((notify_recharge (creation_done.0).0 imsi 1).0, no_accounts, (creation_done.0).1)
      (λ supi. refl)
      (there (creates creation ((creation_done.0).2) (creation_done.1))
        (there (recharges imsi 1) here))
