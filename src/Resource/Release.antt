-- ===== src/Resource/Release.antt =====
-- `ChargingDataRelease` of internal/sbi/processor/converged_charging.go.
use chf.Base.{ℕ, Bool, true, false, List, [], ◌∷◌, Option, none, some}
use chf.Base.Decimal.{Text}
use chf.Models.{MultipleUnitInformation, ChargingDataRequest}
use chf.Record.Lifecycle.{update_cdr, close_cdr}
use chf.Ue.{ChfUe}
use chf.Session.Peers.{Peers}
use chf.Session.Loop.{session_charging_reservation}
use chf.Resource.{Subscriber, Chf, Outside, Cause, no_content, problem}
use chf.Resource.Store.{put_ue, set_record, dump_records}
use chf.Resource.Update.{Done}

module _ (p : Peers) (o : Outside) where
  unfoldable pub release_written : Chf → p.State → o.Files × Bool → Done p o
  release_written context st (files, false) = (context, st, files, problem 400 Cause.unnamed)
  release_written context st (files, true) = (context, st, files, no_content)

  -- The record of the session is updated, closed and written; without one, the reservation has been
  -- settled, and the answer is a problem.
  unfoldable pub release_record :
      Chf → p.State → o.Files → Text → ChargingDataRequest → Option ℕ → Done p o
  release_record context st files supi data' none =
      (context, st, files, problem 400 Cause.record_is_nil)
  release_record context st files supi data' (some a) =
      let context1 = set_record context a (close_cdr false (update_cdr data' (context.store a))) in
      release_written context1 st (dump_records o files context1 supi (a ∷ []))

  unfoldable pub release_charged :
      Chf
      → o.Files
      → Subscriber
      → ChargingDataRequest
      → Text
      → Option (ChfUe × p.State × Bool × List MultipleUnitInformation)
      → Option (Done p o)
  release_charged context files ue data' session_id none = none
  release_charged context files ue data' session_id (some (charging, st, partial, infos)) =
      let context1 =
        put_ue context data'.subscriber_identifier (record ue { charging = charging }) in
      some (release_record context1 st files data'.subscriber_identifier data' (ue.cdr session_id))

  abbrev pub release_known :
      Chf → p.State → o.Files → ChargingDataRequest → Text → Option Subscriber → Option (Done p o)
  release_known context st files data' session_id none =
      some (context, st, files, problem 400 Cause.unnamed)
  release_known context st files data' session_id (some ue) =
      release_charged context files ue data' session_id
        (session_charging_reservation p st ue.charging data')

  unfoldable pub charging_data_release :
      Chf → p.State → o.Files → ChargingDataRequest → Text → Option (Done p o)
  charging_data_release context st files data' session_id =
      release_known context st files data' session_id (context.ue_pool data'.subscriber_identifier)
