-- ===== src/Resource/Preserved.antt =====
-- Each operation of the resource keeps the records of all subscribers (`ChargingDataCreate`,
-- `ChargingDataUpdate`, `ChargingDataRelease` of internal/sbi/processor/converged_charging.go).
use chf.Base.{
  ℕ, ◌+◌, ◌≡◌, refl, inl, arith, ◌%◌, ◌^◌, Bool, true, false, Option, none, some, if◌then◌else◌,
}
use chf.Base.Decimal.{Text}
use chf.Base.Maps.{text_eq, text_eq_refl}
use chf.Models.{NfIdentification, ChargingDataRequest}
use chf.Record.{ChargingRecord}
use chf.Record.Open.{Opened, opened, failed, panics}
use chf.Ue.{ChfUe}
use chf.Resource.{Subscriber, Chf, Outside, Answer}
use chf.Resource.Recorded.{IsKept}
use chf.Resource.Kept.{AreApart, AreKept, more-IsKept, put-AreKept, grown-AreKept}
use chf.Resource.Store.{update_text_hit, put_ue, add_record}
use chf.Resource.Create.{
  new_subscriber, new_chf_ue, found_ue, create_identified, charging_session_id, store_record,
  create_opened, create_for, charging_data_create, is_imsi,
}

-- Records that are kept, and that no other subscriber has.
abbrev pub IsOwn : Chf → Text → Subscriber → Type 0
IsOwn context supi ue =
    IsKept context ue
    × ((t : Text) (ue' : Subscriber)
        → text_eq supi t ≡ false
        → context.ue_pool t ≡ some ue'
        → AreApart ue ue')

pub own :
    (context : Chf) (supi : Text) (ue : Subscriber)
    → AreKept context
    → context.ue_pool supi ≡ some ue
    → IsOwn context supi ue
own context supi ue k e = (k.kept supi ue e, λ t w n h. k.apart supi t ue w n e h)

-- The charging state is no part of it.
pub charged-IsOwn :
    (context : Chf) (supi : Text) (ue : Subscriber) (charging : ChfUe)
    → IsOwn context supi ue
    → IsOwn context supi (record ue { charging = charging })
charged-IsOwn context supi ue charging (k, others) =
    (record { once = k.once; below = k.below }, others)

pub own-AreKept :
    (context : Chf) (supi : Text) (ue : Subscriber)
    → AreKept context
    → IsOwn context supi ue
    → AreKept (put_ue context supi ue)
unfolding put_ue
own-AreKept context supi ue k (ku, others) =
    put-AreKept context (put_ue context supi ue) supi ue k refl (omega arith)
      (record { once = ku.once; below = ku.below }) others

numbered-AreKept :
    (context : Chf) (n : ℕ)
    → AreKept context
    → AreKept (record context { local_record_sequence_number = n })
numbered-AreKept context n k = record {
  kept = λ s v h.
      more-IsKept context (record context { local_record_sequence_number = n }) v (omega arith)
        (k.kept s v h);
  apart = k.apart;
}

module _ (o : Outside) where
  unfoldable pub HoldsCreated : Option (Chf × o.Files × Answer) → Type 0
  HoldsCreated none = Unit
  HoldsCreated (some r) = AreKept (r.0)

  create_opened-AreKept :
      (files : o.Files) (context : Chf) (ue : Subscriber) (data' : ChargingDataRequest)
      (session_id : Text) (r : Opened ChargingRecord)
      → AreKept context
      → IsOwn context data'.subscriber_identifier ue
      → HoldsCreated (create_opened o files context ue data' session_id r)
  unfolding HoldsCreated create_opened store_record add_record
  create_opened-AreKept files context ue data' session_id panics k own' = tt
  create_opened-AreKept files context ue data' session_id failed k own' =
      own-AreKept context data'.subscriber_identifier ue k own'
  create_opened-AreKept files context ue data' session_id (opened cdr) k (ku, others) =
      grown-AreKept context _ data'.subscriber_identifier ue session_id k ku others

  -- A new subscriber has no records.
  new-IsOwn : (context : Chf) (supi : Text) → IsOwn context supi (new_subscriber o supi)
  new-IsOwn context supi = (record { once = λ s b h. cc; below = tt }, λ t w n h b. inl refl)

  create_for-AreKept :
      (files : o.Files) (data' : ChargingDataRequest) (nf : NfIdentification)
      (context context1 : Chf) (ue : Subscriber)
      → AreKept context1
      → IsOwn context1 data'.subscriber_identifier ue
      → HoldsCreated (create_for o files data' nf (some (context1, ue)) context)
  unfolding create_for
  create_for-AreKept files data' nf context context1 ue k (ku, others) =
      let number = (context1.local_record_sequence_number + 1) % 2 ^ 64 in
      let context2 = record context1 { local_record_sequence_number = number } in
      create_opened-AreKept files context2
        (record ue { charging = record ue.charging { notify_uri = data'.notify_uri } }) data'
        (charging_session_id o context1 data' nf) _ (numbered-AreKept context1 number k)
        (record { once = ku.once; below = ku.below }, others)

  create_new-AreKept :
      (b : Bool) (files : o.Files) (context : Chf) (data' : ChargingDataRequest)
      (nf : NfIdentification)
      → AreKept context
      → HoldsCreated (
          create_for o files data' nf
            (if b
              then some (
                put_ue context data'.subscriber_identifier
                    (new_subscriber o data'.subscriber_identifier),
                new_subscriber o data'.subscriber_identifier,
              )
              else none)
            context)
  unfolding create_for HoldsCreated put_ue
  create_new-AreKept true files context data' nf k =
      let supi = data'.subscriber_identifier in
      let new = new_subscriber o data'.subscriber_identifier in
      let k' = own-AreKept context supi new k (new-IsOwn context supi) in
      create_for-AreKept files data' nf context (put_ue context supi new) new k' (
        own (put_ue context supi new) supi new k'
          (update_text_hit context.ue_pool supi supi (some new) (text_eq_refl supi)))
  create_new-AreKept false files context data' nf k = k

  found_ue-AreKept :
      (files : o.Files) (context : Chf) (data' : ChargingDataRequest) (nf : NfIdentification)
      (found : Option Subscriber)
      → AreKept context
      → context.ue_pool data'.subscriber_identifier ≡ found
      → HoldsCreated (
          create_for o files data' nf
            (found_ue o context data'.subscriber_identifier found)
            context)
  found_ue-AreKept files context data' nf none k h =
      create_new-AreKept (is_imsi data'.subscriber_identifier) files context data' nf k
  found_ue-AreKept files context data' nf (some ue) k h =
      create_for-AreKept files data' nf context context ue k
        (own context data'.subscriber_identifier ue k h)

  create_identified-AreKept :
      (files : o.Files) (context : Chf) (data' : ChargingDataRequest) (nf : Option NfIdentification)
      → AreKept context
      → HoldsCreated (create_identified o files context data' nf)
  unfolding new_chf_ue HoldsCreated
  create_identified-AreKept files context data' none k = k
  create_identified-AreKept files context data' (some nf) k =
      found_ue-AreKept files context data' nf (context.ue_pool data'.subscriber_identifier) k refl

  pub charging_data_create-AreKept :
      (files : o.Files) (context : Chf) (data' : ChargingDataRequest)
      → AreKept context
      → HoldsCreated (charging_data_create o files context data')
  unfolding charging_data_create
  charging_data_create-AreKept files context data' k =
      create_identified-AreKept files context data' data'.nf_consumer_identification k
