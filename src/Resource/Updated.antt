-- ===== src/Resource/Updated.antt =====
-- Updates and releases keep the records of all subscribers (`ChargingDataUpdate` and
-- `ChargingDataRelease` of internal/sbi/processor/converged_charging.go).
use chf.Base.{ℕ, ◌+◌, ◌≡◌, refl, ltb, Bool, true, false, List, [], ◌∷◌, Option, none, some, length}
use chf.Base.Decimal.{Text}
use chf.Models.{MultipleUnitInformation, ChargingDataRequest}
use chf.Ue.{ChfUe}
use chf.Session.Peers.{Peers}
use chf.Resource.{Subscriber, Chf, Outside}
use chf.Resource.Kept.{AreKept, charged-AreKept, grown-AreKept, store-AreKept}
use chf.Resource.Store.{set_record, add_record, dump_records}
use chf.Resource.Update.{
  split_record, Done, write_all, update_written, update_split, usage_bytes, update_encoded,
  update_charged, update_session, update_known, charging_data_update,
}
use chf.Resource.Release.{
  release_written, release_record, release_charged, release_known, charging_data_release,
}
use chf.Resource.Preserved.{IsOwn, own, charged-IsOwn, own-AreKept}

module _ (p : Peers) (o : Outside) where
  unfoldable pub HoldsDone : Option (Done p o) → Type 0
  HoldsDone none = Unit
  HoldsDone (some d) = AreKept (d.0)

  update_written-AreKept :
      (partial : Bool) (context : Chf) (st : p.State) (ue : Subscriber)
      (data' : ChargingDataRequest) (session_id : Text) (a : ℕ)
      (infos : List MultipleUnitInformation) (w : o.Files × Bool)
      → AreKept context
      → AreKept (update_written p o partial context st ue data' session_id a infos w).0
  unfolding update_written set_record write_all
  update_written-AreKept partial context st ue data' session_id a infos (files, false) k = k
  update_written-AreKept partial context st ue data' session_id a infos (files, true) k =
      go (store-AreKept context _ k) (dump_records o files _ data'.subscriber_identifier ue.records)
    where
      go :
          {context1 : Chf}
          → AreKept context1
          → (w : o.Files × Bool) → AreKept (write_all p o context1 st ue data' infos w).0
      go k (files, false) = k
      go k (files, true) = k

  update_split-AreKept :
      (large partial : Bool) (context : Chf) (st : p.State) (files : o.Files) (ue : Subscriber)
      (data' : ChargingDataRequest) (session_id : Text) (a : ℕ)
      (infos : List MultipleUnitInformation)
      → AreKept context
      → IsOwn context data'.subscriber_identifier ue
      → AreKept
          (update_split p o partial st files data' session_id infos
            (split_record large context ue session_id a)).0
  unfolding update_split split_record add_record set_record
  update_split-AreKept false partial context st files ue data' session_id a infos k own' =
      update_written-AreKept partial _ st ue data' session_id a infos _ (
        own-AreKept (record context { store = _ }) data'.subscriber_identifier ue
          (store-AreKept context _ k)
          (record { once = (own'.0).once; below = (own'.0).below }, own'.1))
  update_split-AreKept true partial context st files ue data' session_id a infos k (ku, others) =
      update_written-AreKept partial _ st _ data' session_id context.next infos _
        (grown-AreKept context _ data'.subscriber_identifier ue session_id k ku others)

  update_encoded-AreKept :
      (partial : Bool) (context : Chf) (st : p.State) (files : o.Files) (ue : Subscriber)
      (data' : ChargingDataRequest) (session_id : Text) (a : ℕ)
      (infos : List MultipleUnitInformation) (cdr usages : Option (List ℕ))
      → AreKept context
      → IsOwn context data'.subscriber_identifier ue
      → AreKept
          (update_encoded p o partial context st files ue data' session_id a infos cdr usages).0
  unfolding update_encoded
  update_encoded-AreKept partial context st files ue data' session_id a infos (some cdr)
        (some usages) k own' =
      update_split-AreKept (ltb 65535 (length cdr + length usages)) partial context st files ue
        data' session_id a infos k own'
  update_encoded-AreKept partial context st files ue data' session_id a infos none usages k own' =
      own-AreKept context data'.subscriber_identifier ue k own'
  update_encoded-AreKept partial context st files ue data' session_id a infos (some cdr) none k
        own' =
      own-AreKept context data'.subscriber_identifier ue k own'

  update_charged-AreKept :
      (context : Chf) (files : o.Files) (ue : Subscriber) (data' : ChargingDataRequest)
      (session_id : Text) (a : ℕ)
      (r : Option (ChfUe × p.State × Bool × List MultipleUnitInformation))
      → AreKept context
      → IsOwn context data'.subscriber_identifier ue
      → HoldsDone (update_charged p o context files ue data' session_id a r)
  unfolding update_charged HoldsDone
  update_charged-AreKept context files ue data' session_id a none k own' = tt
  update_charged-AreKept context files ue data' session_id a (some (charging, st, partial, infos)) k
        own' =
      update_encoded-AreKept partial context st files (record ue { charging = charging }) data'
        session_id a infos (o.marshal (context.store a)) (usage_bytes p o data') k
        (charged-IsOwn context data'.subscriber_identifier ue charging own')

  pub charging_data_update-AreKept :
      (context : Chf) (st : p.State) (files : o.Files) (data' : ChargingDataRequest)
      (session_id : Text)
      → AreKept context
      → HoldsDone (charging_data_update p o context st files data' session_id)
  unfolding charging_data_update HoldsDone
  charging_data_update-AreKept context st files data' session_id k =
      known (context.ue_pool data'.subscriber_identifier) refl
    where
      session :
          (ue : Subscriber) (a : Option ℕ)
          → IsOwn context data'.subscriber_identifier ue
          → HoldsDone (update_session p o context st files data' session_id ue a)
      session ue none own' = k
      session ue (some a) own' = update_charged-AreKept context files ue data' session_id a _ k own'

      known :
          (found : Option Subscriber)
          → context.ue_pool data'.subscriber_identifier ≡ found
          → HoldsDone (update_known p o context st files data' session_id found)
      known none h = k
      known (some ue) h =
          session ue (ue.cdr session_id) (own context data'.subscriber_identifier ue k h)

  release_record-AreKept :
      (context : Chf) (st : p.State) (files : o.Files) (supi : Text) (data' : ChargingDataRequest)
      (a : Option ℕ)
      → AreKept context
      → AreKept (release_record p o context st files supi data' a).0
  unfolding release_record release_written set_record
  release_record-AreKept context st files supi data' none k = k
  release_record-AreKept context st files supi data' (some a) k =
      written (store-AreKept context _ k) (dump_records o files _ supi (a ∷ []))
    where
      written :
          {context1 : Chf}
          → AreKept context1
          → (w : o.Files × Bool) → AreKept (release_written p o context1 st w).0
      written k (files, false) = k
      written k (files, true) = k

  pub charging_data_release-AreKept :
      (context : Chf) (st : p.State) (files : o.Files) (data' : ChargingDataRequest)
      (session_id : Text)
      → AreKept context
      → HoldsDone (charging_data_release p o context st files data' session_id)
  unfolding charging_data_release release_charged HoldsDone
  charging_data_release-AreKept context st files data' session_id k =
      known (context.ue_pool data'.subscriber_identifier) refl
    where
      charged :
          (ue : Subscriber) (r : Option (ChfUe × p.State × Bool × List MultipleUnitInformation))
          → context.ue_pool data'.subscriber_identifier ≡ some ue
          → HoldsDone (release_charged p o context files ue data' session_id r)
      charged ue none h = tt
      charged ue (some (charging, st', partial, infos)) h =
          release_record-AreKept _ st' files data'.subscriber_identifier data' (ue.cdr session_id)
            (charged-AreKept context data'.subscriber_identifier ue charging k h)

      known :
          (found : Option Subscriber)
          → context.ue_pool data'.subscriber_identifier ≡ found
          → HoldsDone (release_known p o context st files data' session_id found)
      known none h = k
      known (some ue) h = charged ue _ h
