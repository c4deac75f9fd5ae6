-- ===== src/Resource/Update.antt =====
-- `ChargingDataUpdate` of internal/sbi/processor/converged_charging.go.
use chf.Base.{ℕ, ◌+◌, ltb, Bool, true, false, List, [], ◌∷◌, ◌++◌, Option, none, some, length}
use chf.Base.Decimal.{Text}
use chf.Models.{MultipleUnitInformation, ChargingDataRequest}
use chf.Record.{ChargingRecord}
use chf.Record.Convert.{multi_unit_usage_to_cdr}
use chf.Record.Lifecycle.{reopen_cdr, update_cdr, close_cdr}
use chf.Ue.{ChfUe}
use chf.Session.Peers.{Peers}
use chf.Session.Loop.{session_charging_reservation}
use chf.Resource.{Subscriber, Chf, Outside, Cause, Answer, updated, problem}
use chf.Resource.Store.{update_text, put_ue, set_record, add_record, dump_records}

-- A record that the new usage would make longer than 65535 octets is left behind, and a copy without
-- its usage takes its place.
unfoldable pub split_record : Bool → Chf → Subscriber → Text → ℕ → Chf × Subscriber × ℕ
split_record false context ue session_id a = (context, ue, a)
split_record true context ue session_id a = (
  add_record context (record (context.store a) { list_of_multiple_unit_usage = [] }),
  record ue {
    cdr = update_text ue.cdr session_id (some context.next);
    records = ue.records ++ (context.next ∷ []);
  },
  context.next,
)

-- The partial record is closed, before it is written and goes on.
abbrev pub close_partial : Bool → ChargingRecord → ChargingRecord
close_partial true cdr = close_cdr true cdr
close_partial false cdr = cdr

abbrev pub reopen_partial : Bool → ℕ → ChargingRecord → ChargingRecord
reopen_partial true counted cdr = reopen_cdr counted cdr
reopen_partial false counted cdr = cdr

module _ (p : Peers) (o : Outside) where
  -- The state of the resource, the peers and the files, and the answer.
  abbrev pub Done : Type 0
  Done = Chf × p.State × o.Files × Answer

  -- All records of the subscriber are written, and the file is sent.
  unfoldable pub write_all :
      Chf
      → p.State
      → Subscriber
      → ChargingDataRequest
      → List MultipleUnitInformation
      → o.Files × Bool
      → Done
  write_all context st ue data' infos (files, false) =
      (context, st, files, problem 400 Cause.unnamed)
  write_all context st ue data' infos (files, true) = (
    context,
    st,
    o.send_cdr files data'.subscriber_identifier,
    updated data'.invocation_sequence_number infos,
  )

  -- After the partial record was written, if there is one.
  unfoldable pub update_written :
      Bool
      → Chf
      → p.State
      → Subscriber
      → ChargingDataRequest
      → Text
      → ℕ
      → List MultipleUnitInformation
      → o.Files × Bool
      → Done
  update_written partial context st ue data' session_id a infos (files, false) =
      (context, st, files, problem 400 Cause.unnamed)
  update_written partial context st ue data' session_id a infos (files, true) =
      let context1 =
        set_record context a
          (reopen_partial partial (context.record_sequence_number session_id) (context.store a)) in
      write_all context1 st ue data' infos
        (dump_records o files context1 data'.subscriber_identifier ue.records)

  abbrev pub write_partial : Bool → o.Files → Chf → Text → ℕ → o.Files × Bool
  write_partial false files context supi a = (files, true)
  write_partial true files context supi a = dump_records o files context supi (a ∷ [])

  -- The record of the session takes the usage of the request.
  unfoldable pub update_split :
      Bool
      → p.State
      → o.Files
      → ChargingDataRequest
      → Text
      → List MultipleUnitInformation
      → Chf × Subscriber × ℕ
      → Done
  update_split partial st files data' session_id infos (context, ue, a) =
      let context1 =
        put_ue (set_record context a (close_partial partial (update_cdr data' (context.store a))))
          data'.subscriber_identifier ue in
      update_written partial context1 st ue data' session_id a infos
        (write_partial partial files context1 data'.subscriber_identifier a)

  -- The encoded usage of a request; it is not encoded where there is none.
  unfoldable pub usage_bytes : ChargingDataRequest → Option (List ℕ)
  usage_bytes data' = elim data'.multiple_unit_usage [
    | [] ↦ some []
    | usage ∷ rest ↦ o.marshal_usages (multi_unit_usage_to_cdr (usage ∷ rest))
  ]

  unfoldable pub update_encoded :
      Bool
      → Chf
      → p.State
      → o.Files
      → Subscriber
      → ChargingDataRequest
      → Text
      → ℕ
      → List MultipleUnitInformation
      → Option (List ℕ)
      → Option (List ℕ)
      → Done
  update_encoded partial context st files ue data' session_id a infos (some cdr) (some usages) =
      update_split partial st files data' session_id infos
        (split_record (ltb 65535 (length cdr + length usages)) context ue session_id a)
  update_encoded partial context st files ue data' session_id a infos _ _ =
      (put_ue context data'.subscriber_identifier ue, st, files, problem 400 Cause.unnamed)

  -- After the reservation; none is a panic of it.
  unfoldable pub update_charged :
      Chf
      → o.Files
      → Subscriber
      → ChargingDataRequest
      → Text
      → ℕ
      → Option (ChfUe × p.State × Bool × List MultipleUnitInformation)
      → Option Done
  update_charged context files ue data' session_id a none = none
  update_charged context files ue data' session_id a (some (charging, st, partial, infos)) = some (
      update_encoded partial context st files (record ue { charging = charging }) data' session_id a
        infos (o.marshal (context.store a)) (usage_bytes data'))

  abbrev pub update_session :
      Chf → p.State → o.Files → ChargingDataRequest → Text → Subscriber → Option ℕ → Option Done
  update_session context st files data' session_id ue none =
      some (context, st, files, problem 404 Cause.context_not_found)
  update_session context st files data' session_id ue (some a) =
      update_charged context files ue data' session_id a
        (session_charging_reservation p st ue.charging data')

  abbrev pub update_known :
      Chf → p.State → o.Files → ChargingDataRequest → Text → Option Subscriber → Option Done
  update_known context st files data' session_id none =
      some (context, st, files, problem 400 Cause.unnamed)
  update_known context st files data' session_id (some ue) =
      update_session context st files data' session_id ue (ue.cdr session_id)

  unfoldable pub charging_data_update :
      Chf → p.State → o.Files → ChargingDataRequest → Text → Option Done
  charging_data_update context st files data' session_id =
      update_known context st files data' session_id (context.ue_pool data'.subscriber_identifier)
