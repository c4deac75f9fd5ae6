-- ===== src/Resource/Reach.antt =====
-- Whole histories of the resource: creations, updates, releases and recharges in any order
-- (internal/sbi/processor/converged_charging.go), and what holds of the records after each.
use mathlib.Core.Path.{subst}
use chf.Base.{ℕ, ◌≡◌, none, some, inl, inr, Option-cases, sym, ◌∙◌}
use chf.Base.Decimal.{Text}
use chf.Models.{ChargingDataRequest}
use chf.Session.Peers.{Peers}
use chf.Resource.{Chf, Outside, Answer}
use chf.Resource.Kept.{AreKept, charged-AreKept}
use chf.Resource.Updated.{HoldsDone, charging_data_update-AreKept, charging_data_release-AreKept}
use chf.Resource.Preserved.{HoldsCreated, charging_data_create-AreKept}
use chf.Resource.Create.{charging_data_create}
use chf.Resource.Update.{charging_data_update}
use chf.Resource.Release.{charging_data_release}
use chf.Resource.Recharge.{recharged, notify_recharge}

recharge-AreKept :
    (context : Chf) (supi : Text) (rg : ℕ)
    → AreKept context
    → AreKept (notify_recharge context supi rg).0
unfolding notify_recharge
recharge-AreKept context supi rg k = elim (Option-cases (context.ue_pool supi)) [
  | inl e ↦ rw (e, notify_recharge) k
  | inr (ue, e) ↦
      rw (e, notify_recharge) (charged-AreKept context supi ue (recharged ue rg).charging k e)
]

module _ (p : Peers) (o : Outside) where
  -- The context, the state of the peers, and the files.
  abbrev pub System : Type 0
  System = Chf × p.State × o.Files

  -- One operation of the resource that does not panic, with any request.
  pub data Step : System → System → Type 0 where
    creates :
        {context context' : Chf} {st : p.State} {files files' : o.Files}
        (data' : ChargingDataRequest) (answer : Answer)
        → charging_data_create o files context data' ≡ some (context', files', answer)
        → Step (context, st, files) (context', st, files')
    updates :
        {context context' : Chf} {st st' : p.State} {files files' : o.Files}
        (data' : ChargingDataRequest) (session_id : Text) (answer : Answer)
        → charging_data_update p o context st files data' session_id
          ≡ some (context', st', files', answer)
        → Step (context, st, files) (context', st', files')
    releases :
        {context context' : Chf} {st st' : p.State} {files files' : o.Files}
        (data' : ChargingDataRequest) (session_id : Text) (answer : Answer)
        → charging_data_release p o context st files data' session_id
          ≡ some (context', st', files', answer)
        → Step (context, st, files) (context', st', files')
    recharges :
        {context : Chf} {st : p.State} {files : o.Files} (supi : Text) (rg : ℕ)
        → Step (context, st, files) ((notify_recharge context supi rg).0, st, files)

  pub data Reach : System → System → Type 0 where
    here : {s : System} → Reach s s
    there : {s t u : System} → Step s t → Reach t u → Reach s u

  taken-AreKept : {s t : System} → Step s t → AreKept (s.0) → AreKept (t.0)
  unfolding HoldsCreated HoldsDone
  taken-AreKept (creates {context = context} {files = files} data' answer e) k =
      subst (HoldsCreated o) e (charging_data_create-AreKept o files context data' k)
  taken-AreKept (updates {context = context} {st = st} {files = files} data' session_id answer e)
        k =
      subst (HoldsDone p o) e (charging_data_update-AreKept p o context st files data' session_id k)
  taken-AreKept (releases {context = context} {st = st} {files = files} data' session_id answer e)
        k =
      subst (HoldsDone p o) e
        (charging_data_release-AreKept p o context st files data' session_id k)
  taken-AreKept (recharges {context = context} supi rg) k = recharge-AreKept context supi rg k

  reached-AreKept : {s t : System} → Reach s t → AreKept (s.0) → AreKept (t.0)
  reached-AreKept here k = k
  reached-AreKept (there step rest) k = reached-AreKept rest (taken-AreKept step k)

  -- After any creations, updates, releases and recharges that do not panic, in any order, from a
  -- state without subscribers, the record of each session is one of the records of its subscriber,
  -- once, the addresses of records are in use, and no two subscribers have a record in common.
  pub from_nobody-AreKept :
      (s t : System) → ((supi : Text) → (s.0).ue_pool supi ≡ none) → Reach s t → AreKept (t.0)
  from_nobody-AreKept s t empty r = reached-AreKept r (record {
    kept = λ supi ue h. (let no : none ≡ some ue = sym (empty supi) ∙ h in cc);
    apart = λ supi t ue ue' n h h'. (let no : none ≡ some ue = sym (empty supi) ∙ h in cc);
  })
