-- ===== src/Resource/Create.antt =====
-- `ChargingDataCreate` of internal/sbi/processor/converged_charging.go, with the validator, `NewCHFUe`
-- and `OpenCDR`.
use chf.Base.{◌+◌, ◌%◌, ◌^◌, ◌==◌, Bool, false, [], ◌∷◌, ◌++◌, Option, none, some, if◌then◌else◌}
use chf.Base.Decimal.{Text, format_int}
use chf.Models.{NfIdentification, ChargingDataRequest}
use chf.Record.{ChargingRecord}
use chf.Record.Open.{Opened, opened, failed, panics}
use chf.Record.Lifecycle.{Opening, open_cdr, update_cdr, close_cdr}
use chf.Resource.{Subscriber, Chf, Outside, Cause, Answer, created, problem}
use chf.Resource.Store.{update_text, put_ue, add_record}

-- strings.HasPrefix(supi, "imsi-")
unfoldable pub is_imsi : Text → Bool
is_imsi (x0 ∷ x1 ∷ x2 ∷ x3 ∷ x4 ∷ s) =
    (if x0 == b'i'
      then if x1 == b'm'
        then if x2 == b's' then if x3 == b'i' then x4 == b'-' else false else false
        else false
      else false)
is_imsi _ = false

module _ (o : Outside) where
  abbrev pub new_subscriber : Text → Subscriber
  new_subscriber supi = record {
    charging = record (o.new_charging supi) { supi = supi };
    cdr = λ s. none;
    records = [];
  }

  abbrev pub found_ue : Chf → Text → Option Subscriber → Option (Chf × Subscriber)
  found_ue context supi (some ue) = some (context, ue)
  found_ue context supi none =
      if is_imsi supi
      then some (put_ue context supi (new_subscriber supi), new_subscriber supi)
      else none

  -- `NewCHFUe`: the subscriber of the pool, or a new one with an IMSI, which enters the pool.
  unfoldable pub new_chf_ue : Chf → Text → Option (Chf × Subscriber)
  new_chf_ue context supi = found_ue context supi (context.ue_pool supi)

  -- ueId + consumerId + the sequence number, and nothing for a one-time event.
  unfoldable pub charging_session_id : Chf → ChargingDataRequest → NfIdentification → Text
  charging_session_id context data' nf =
      if data'.one_time_event
      then []
      else data'.subscriber_identifier
        ++ nf.nf_name
        ++ format_int context.local_record_sequence_number

  unfoldable pub location : Chf → Text → Text
  location context session_id =
      context.url
      ++ (b'/' ∷ b'n' ∷ b'c' ∷ b'h' ∷ b'f' ∷ b'-' ∷ b'c' ∷ b'o' ∷ b'n' ∷ b'v' ∷ b'e' ∷ b'r' ∷ b'g'
          ∷ b'e' ∷ b'd' ∷ b'c' ∷ b'h' ∷ b'a' ∷ b'r' ∷ b'g' ∷ b'i' ∷ b'n' ∷ b'g' ∷ b'/' ∷ b'v' ∷ b'3'
          ∷ b'/' ∷ [])
      ++ (b'c' ∷ b'h' ∷ b'a' ∷ b'r' ∷ b'g' ∷ b'i' ∷ b'n' ∷ b'g' ∷ b'd' ∷ b'a' ∷ b't' ∷ b'a' ∷ b'/'
          ∷ [])
      ++ session_id

  -- The new record is updated, becomes the session's record and the subscriber's last one, and is
  -- closed at once for a one-time event.
  unfoldable pub store_record : Chf → Subscriber → ChargingDataRequest → Text → ChargingRecord → Chf
  store_record context ue data' session_id cdr =
      let filled = update_cdr data' cdr in
      put_ue (add_record context (if data'.one_time_event then close_cdr false filled else filled))
        data'.subscriber_identifier
        (record ue {
          cdr = update_text ue.cdr session_id (some context.next);
          records = ue.records ++ (context.next ∷ []);
        })

  -- What is left after `OpenCDR`; none is a panic.
  unfoldable pub create_opened :
      o.Files
      → Chf
      → Subscriber
      → ChargingDataRequest
      → Text
      → Opened ChargingRecord
      → Option (Chf × o.Files × Answer)
  create_opened files context ue data' session_id panics = none
  create_opened files context ue data' session_id failed =
      some (put_ue context data'.subscriber_identifier ue, files, problem 400 Cause.unnamed)
  create_opened files context ue data' session_id (opened cdr) = some (
    store_record context ue data' session_id cdr,
    o.send_cdr files data'.subscriber_identifier,
    created (location context session_id) data'.invocation_sequence_number,
  )

  unfoldable pub create_for :
      o.Files
      → ChargingDataRequest
      → NfIdentification
      → Option (Chf × Subscriber)
      → Chf
      → Option (Chf × o.Files × Answer)
  create_for files data' nf none context = some (context, files, problem 400 Cause.unnamed)
  create_for files data' nf (some (context1, ue)) context =
      let ue1 = record ue { charging = record ue.charging { notify_uri = data'.notify_uri } } in
      let session_id = charging_session_id context1 data' nf in
      let number = (context1.local_record_sequence_number + 1) % 2 ^ 64 in
      let opening : Opening = record {
        nf_id = context1.nf_id;
        now = o.now;
        sequence_number = number;
      } in
      create_opened files (record context1 { local_record_sequence_number = number }) ue1 data'
        session_id (open_cdr o.is_valid_plmn opening data' (ue1.charging).supi session_id)

  abbrev pub create_identified :
      o.Files
      → Chf
      → ChargingDataRequest
      → Option NfIdentification
      → Option (Chf × o.Files × Answer)
  create_identified files context data' none =
      some (context, files, problem 400 Cause.mandatory_ie_missing)
  create_identified files context data' (some nf) =
      create_for files data' nf (new_chf_ue context data'.subscriber_identifier) context

  unfoldable pub charging_data_create :
      o.Files → Chf → ChargingDataRequest → Option (Chf × o.Files × Answer)
  charging_data_create files context data' =
      create_identified files context data' data'.nf_consumer_identification
