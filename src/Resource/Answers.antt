-- ===== src/Resource/Answers.antt =====
-- The answers that the operations of the resource give
-- (internal/sbi/processor/converged_charging.go): their problems have the statuses 400 and 404.
use chf.Base.{
  ℕ, ◌+◌, ◌≡◌, refl, ◌⊎◌, inl, inr, ltb, Bool, true, false, List, Option, none, some, length,
}
use chf.Base.Decimal.{Text}
use chf.Models.{NfIdentification, MultipleUnitInformation, ChargingDataRequest}
use chf.Record.{ChargingRecord}
use chf.Record.Open.{Opened, opened, failed, panics}
use chf.Ue.{ChfUe}
use chf.Session.Peers.{Peers}
use chf.Resource.{Subscriber, Chf, Outside, Answer, problem}
use chf.Resource.Create.{create_opened, create_for, create_identified, charging_data_create}
use chf.Resource.Update.{
  Done, split_record, write_all, update_written, update_split, update_encoded, update_charged,
  update_session, update_known, charging_data_update,
}
use chf.Resource.Release.{
  release_written, release_record, release_charged, release_known, charging_data_release,
}

unfoldable pub IsUsual : Answer → Type 0
IsUsual (problem code cause) = (code ≡ 400) ⊎ (code ≡ 404)
IsUsual _ = Unit

module _ (o : Outside) where
  unfoldable pub UsualCreated : Option (Chf × o.Files × Answer) → Type 0
  UsualCreated none = Unit
  UsualCreated (some r) = IsUsual (r.2)

  create_opened-UsualCreated :
      (files : o.Files) (context : Chf) (ue : Subscriber) (data' : ChargingDataRequest)
      (session_id : Text) (r : Opened ChargingRecord)
      → UsualCreated (create_opened o files context ue data' session_id r)
  unfolding UsualCreated IsUsual create_opened
  create_opened-UsualCreated files context ue data' session_id panics = tt
  create_opened-UsualCreated files context ue data' session_id failed = inl refl
  create_opened-UsualCreated files context ue data' session_id (opened cdr) = tt

  create_for-UsualCreated :
      (files : o.Files) (data' : ChargingDataRequest) (nf : NfIdentification)
      (found : Option (Chf × Subscriber)) (context : Chf)
      → UsualCreated (create_for o files data' nf found context)
  unfolding UsualCreated IsUsual create_for
  create_for-UsualCreated files data' nf none context = inl refl
  create_for-UsualCreated files data' nf (some (context1, ue)) context =
      create_opened-UsualCreated files _ _ data' _ _

  pub charging_data_create-UsualCreated :
      (files : o.Files) (context : Chf) (data' : ChargingDataRequest)
      → UsualCreated (charging_data_create o files context data')
  unfolding UsualCreated IsUsual charging_data_create
  charging_data_create-UsualCreated files context data' = go data'.nf_consumer_identification
    where
      go :
          (nf : Option NfIdentification) → UsualCreated (create_identified o files context data' nf)
      go none = inl refl
      go (some nf) = create_for-UsualCreated files data' nf _ context

module _ (p : Peers) (o : Outside) where
  unfoldable pub UsualDone : Option (Done p o) → Type 0
  UsualDone none = Unit
  UsualDone (some d) = IsUsual (d.3)

  write_all-IsUsual :
      (context : Chf) (st : p.State) (ue : Subscriber) (data' : ChargingDataRequest)
      (infos : List MultipleUnitInformation) (w : o.Files × Bool)
      → IsUsual (write_all p o context st ue data' infos w).3
  unfolding IsUsual write_all
  write_all-IsUsual context st ue data' infos (files, false) = inl refl
  write_all-IsUsual context st ue data' infos (files, true) = tt

  update_written-IsUsual :
      (partial : Bool) (context : Chf) (st : p.State) (ue : Subscriber)
      (data' : ChargingDataRequest) (session_id : Text) (a : ℕ)
      (infos : List MultipleUnitInformation) (w : o.Files × Bool)
      → IsUsual (update_written p o partial context st ue data' session_id a infos w).3
  unfolding IsUsual update_written
  update_written-IsUsual partial context st ue data' session_id a infos (files, false) = inl refl
  update_written-IsUsual partial context st ue data' session_id a infos (files, true) =
      write_all-IsUsual _ st ue data' infos _

  update_encoded-IsUsual :
      (partial : Bool) (context : Chf) (st : p.State) (files : o.Files) (ue : Subscriber)
      (data' : ChargingDataRequest) (session_id : Text) (a : ℕ)
      (infos : List MultipleUnitInformation) (cdr usages : Option (List ℕ))
      → IsUsual
          (update_encoded p o partial context st files ue data' session_id a infos cdr usages).3
  unfolding IsUsual update_encoded update_split
  update_encoded-IsUsual partial context st files ue data' session_id a infos none usages = inl refl
  update_encoded-IsUsual partial context st files ue data' session_id a infos (some cdr) none =
      inl refl
  update_encoded-IsUsual partial context st files ue data' session_id a infos (some cdr)
        (some usages) =
      split (split_record (ltb 65535 (length cdr + length usages)) context ue session_id a)
    where
      split :
          (d : Chf × Subscriber × ℕ)
          → IsUsual (update_split p o partial st files data' session_id infos d).3
      split (context', ue', a') =
          update_written-IsUsual partial _ st ue' data' session_id a' infos _

  pub charging_data_update-UsualDone :
      (context : Chf) (st : p.State) (files : o.Files) (data' : ChargingDataRequest)
      (session_id : Text)
      → UsualDone (charging_data_update p o context st files data' session_id)
  unfolding UsualDone IsUsual charging_data_update update_charged
  charging_data_update-UsualDone context st files data' session_id =
      known (context.ue_pool data'.subscriber_identifier)
    where
      charged :
          (ue : Subscriber) (a : ℕ)
          (r : Option (ChfUe × p.State × Bool × List MultipleUnitInformation))
          → UsualDone (update_charged p o context files ue data' session_id a r)
      charged ue a none = tt
      charged ue a (some (charging, st', partial, infos)) =
          update_encoded-IsUsual partial context st' files _ data' session_id a infos _ _

      session :
          (ue : Subscriber) (a : Option ℕ)
          → UsualDone (update_session p o context st files data' session_id ue a)
      session ue none = inr refl
      session ue (some a) = charged ue a _

      known :
          (found : Option Subscriber)
          → UsualDone (update_known p o context st files data' session_id found)
      known none = inl refl
      known (some ue) = session ue (ue.cdr session_id)

  release_record-IsUsual :
      (context : Chf) (st : p.State) (files : o.Files) (supi : Text) (data' : ChargingDataRequest)
      (a : Option ℕ)
      → IsUsual (release_record p o context st files supi data' a).3
  unfolding IsUsual release_record release_written
  release_record-IsUsual context st files supi data' none = inl refl
  release_record-IsUsual context st files supi data' (some a) = written _ _
    where
      written :
          (context1 : Chf) (w : o.Files × Bool) → IsUsual (release_written p o context1 st w).3
      written context1 (files', false) = inl refl
      written context1 (files', true) = tt

  pub charging_data_release-UsualDone :
      (context : Chf) (st : p.State) (files : o.Files) (data' : ChargingDataRequest)
      (session_id : Text)
      → UsualDone (charging_data_release p o context st files data' session_id)
  unfolding UsualDone IsUsual charging_data_release release_charged
  charging_data_release-UsualDone context st files data' session_id =
      known (context.ue_pool data'.subscriber_identifier)
    where
      charged :
          (ue : Subscriber) (r : Option (ChfUe × p.State × Bool × List MultipleUnitInformation))
          → UsualDone (release_charged p o context files ue data' session_id r)
      charged ue none = tt
      charged ue (some (charging, st', partial, infos)) =
          release_record-IsUsual _ st' files data'.subscriber_identifier data' (ue.cdr session_id)

      known :
          (found : Option Subscriber)
          → UsualDone (release_known p o context st files data' session_id found)
      known none = inl refl
      known (some ue) = charged ue _
