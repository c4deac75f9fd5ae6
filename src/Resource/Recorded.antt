-- ===== src/Resource/Recorded.antt =====
-- Every reported volume is recorded once: `ChargingDataUpdate` of
-- internal/sbi/processor/converged_charging.go keeps the records of a subscriber in step with what the
-- requests report.
use chf.Base.{
  ℕ, suc, ◌+◌, ◌<◌, ◌≡◌, refl, sym, ap, ◌∙◌, ◌⊎◌, inl, inr, arith, ltb, ◌==◌, Bool, true, false,
  List, [], ◌∷◌, ◌++◌, some, All, length, Bool-cases,
}
use chf.Base.Decimal.{Text}
use chf.Base.Maps.{update, update_same, text_eq, text_eq_refl}
use chf.Models.{MultipleUnitInformation, ChargingDataRequest}
use chf.Record.{ChargingRecord}
use chf.Record.Lifecycle.{update_cdr}
use chf.Ue.{ChfUe}
use chf.Session.Peers.{Peers}
use chf.Session.Loop.{session_charging_reservation}
use chf.Resource.{Subscriber, Chf, Outside, updated}
use chf.Resource.Volume.{
  record_volume, recorded, reported, record_volume-update_cdr, record_volume-close_partial,
  record_volume-reopen_partial, occurs, recorded-update_absent, recorded-update_once, occurs_fresh,
  occurs-append, recorded-append, fresh_below,
}
use chf.Resource.Store.{
  update_text, update_text_hit, update_text_miss, put_ue, set_record, add_record, dump_records,
}
use chf.Resource.Update.{
  split_record, close_partial, reopen_partial, Done, write_all, update_written, write_partial,
  update_split, usage_bytes, update_encoded, update_charged, charging_data_update,
}

-- The addresses of a subscriber's records are in use, and the record of each session is one of them,
-- once.
pub record IsKept (context : Chf) (ue : Subscriber) : Type 0 where
  pub once : (s : Text) (b : ℕ) → ue.cdr s ≡ some b → occurs b ue.records ≡ 1
  pub below : All (λ b. b < context.next) ue.records

recorded_fresh :
    (f : ℕ → ChargingRecord) (n : ℕ) (r : ChargingRecord) (bs : List ℕ)
    → All (λ b. b < n) bs
    → recorded (update f n r) (bs ++ (n ∷ [])) ≡ recorded f bs + record_volume r
recorded_fresh f n r bs h = omega (
  arith,
  recorded-append (update f n r) bs (n ∷ []),
  recorded-update_absent f n r bs (occurs_fresh n bs h),
  ap record_volume (update_same f n r),
)

pub occurs_last : (n : ℕ) (bs : List ℕ) → All (λ b. b < n) bs → occurs n (bs ++ (n ∷ [])) ≡ 1
occurs_last n bs h = ground (arith, occurs-append n bs (n ∷ []), occurs_fresh n bs h)

pub occurs_old :
    (n b : ℕ) (bs : List ℕ) → All (λ c. c < n) bs → occurs b bs ≡ 1 → occurs b (bs ++ (n ∷ [])) ≡ 1
occurs_old n b bs h e = elim (Bool-cases (b == n)) [
  | inl q ↦
      let p : b ≡ n = ground arith in
      absurd (omega (arith, ap (λ c. occurs c bs) p, e, occurs_fresh n bs h))
  | inr q ↦
      omega
        (arith, occurs-append b bs (n ∷ []), e, (let z : occurs b (n ∷ []) ≡ 0 = rw q refl in z))
]

some-same : {A : Type 0} {a b : A} → some a ≡ some b → a ≡ b
some-same h = cc

-- What splitting leaves: the same total, and an address that stands once in the list.
Splits : ℕ → Chf × Subscriber × ℕ → Type 0
Splits total (context, ue, b) =
    (recorded context.store ue.records ≡ total) × (occurs b ue.records ≡ 1) × IsKept context ue

-- The subscriber with a new record for a session, at the next address.
abbrev pub grown : Chf → Subscriber → Text → Subscriber
grown context ue session_id = record ue {
  cdr = update_text ue.cdr session_id (some context.next);
  records = ue.records ++ (context.next ∷ []);
}

pub grown-IsKept :
    (context : Chf) (ue : Subscriber) (session_id : Text) (cdr : ChargingRecord)
    → IsKept context ue
    → IsKept (add_record context cdr) (grown context ue session_id)
unfolding add_record
grown-IsKept context ue session_id cdr k = record {
  once = λ s b h. kept s b (Bool-cases (text_eq session_id s)) h;
  below = fresh_below context.next (suc context.next) ue.records (omega arith) k.below;
}
  where
    kept :
        (s : Text) (b : ℕ)
        → (text_eq session_id s ≡ true) ⊎ (text_eq session_id s ≡ false)
        → update_text ue.cdr session_id (some context.next) s ≡ some b
        → occurs b (ue.records ++ (context.next ∷ [])) ≡ 1
    kept s b (inl q) h =
        let p : context.next ≡ b =
          some-same ((sym (update_text_hit ue.cdr session_id s _ q)) ∙ h) in
        rw (← p) (occurs_last context.next ue.records k.below)
    kept s b (inr q) h =
        occurs_old context.next b ue.records k.below
          (k.once s b (sym (update_text_miss ue.cdr session_id s _ q) ∙ h))

split_record-Splits :
    (large : Bool) (context : Chf) (ue : Subscriber) (session_id : Text) (a : ℕ)
    → IsKept context ue
    → ue.cdr session_id ≡ some a
    → Splits (recorded context.store ue.records) (split_record large context ue session_id a)
unfolding split_record Splits add_record
split_record-Splits false context ue session_id a k e = (refl, k.once session_id a e, k)
split_record-Splits true context ue session_id a k e =
    let cdr = record (context.store a) { list_of_multiple_unit_usage = [] } in
    (
      omega (arith, recorded_fresh context.store context.next cdr ue.records k.below),
      occurs_last context.next ue.records k.below,
      grown-IsKept context ue session_id cdr k,
    )

module _ (p : Peers) (o : Outside) where
  -- An update that is done, with what the subscriber has recorded afterwards.
  abbrev pub Records : Text → ℕ → List MultipleUnitInformation → ℕ → Done p o → Type 0
  Records supi number infos total d =
      (ue : Subscriber) × ((d.0).ue_pool supi ≡ some ue)
      × (recorded (d.0).store ue.records ≡ total)
      × IsKept (d.0) ue
      × (d.3 ≡ updated number infos)

  module _
      (writes : (files : o.Files) (name : Text) (bytes : List ℕ)
        → (o.write_file files name bytes).1 ≡ true) where
    write_partial_ok :
        (partial : Bool) (files : o.Files) (context : Chf) (supi : Text) (a : ℕ)
        → (write_partial p o partial files context supi a).1 ≡ true
    unfolding dump_records
    write_partial_ok false files context supi a = refl
    write_partial_ok true files context supi a = writes files _ _

    write_all-Records :
        (context : Chf) (st : p.State) (ue : Subscriber) (data' : ChargingDataRequest)
        (infos : List MultipleUnitInformation) (w : o.Files × Bool) (total : ℕ)
        → w.1 ≡ true
        → context.ue_pool data'.subscriber_identifier ≡ some ue
        → recorded context.store ue.records ≡ total
        → IsKept context ue
        → Records data'.subscriber_identifier data'.invocation_sequence_number infos total
            (write_all p o context st ue data' infos w)
    unfolding write_all
    write_all-Records context st ue data' infos (files, true) total ok h e k = (ue, h, e, k, refl)
    write_all-Records context st ue data' infos (files, false) total ok h e k = cc

    update_written-Records :
        (partial : Bool) (context : Chf) (st : p.State) (ue : Subscriber)
        (data' : ChargingDataRequest) (session_id : Text) (a : ℕ)
        (infos : List MultipleUnitInformation) (w : o.Files × Bool) (total : ℕ)
        → w.1 ≡ true
        → context.ue_pool data'.subscriber_identifier ≡ some ue
        → recorded context.store ue.records ≡ total
        → occurs a ue.records ≡ 1
        → IsKept context ue
        → Records data'.subscriber_identifier data'.invocation_sequence_number infos total
            (update_written p o partial context st ue data' session_id a infos w)
    unfolding update_written set_record dump_records
    update_written-Records partial context st ue data' session_id a infos (files, false) total ok h
          e once k =
        cc
    update_written-Records partial context st ue data' session_id a infos (files, true) total ok h e
          once k =
        let reopened =
          reopen_partial partial (context.record_sequence_number session_id) (context.store a) in
        write_all-Records (set_record context a reopened) st ue data' infos _ total
          (writes files _ _) h
          (omega (
            arith,
            recorded-update_once context.store a reopened ue.records once,
            record_volume-reopen_partial partial (context.record_sequence_number session_id)
                (context.store a),
            e,
          ))
          (record { once = k.once; below = k.below })

    update_split-Records :
        (partial : Bool) (st : p.State) (files : o.Files) (data' : ChargingDataRequest)
        (session_id : Text) (infos : List MultipleUnitInformation) (d : Chf × Subscriber × ℕ)
        (total : ℕ)
        → Splits total d
        → Records data'.subscriber_identifier data'.invocation_sequence_number infos
            (total + reported data'.multiple_unit_usage)
            (update_split p o partial st files data' session_id infos d)
    unfolding update_split put_ue set_record Splits
    update_split-Records partial st files data' session_id infos (context, ue, a) total
          (e, once, k) =
        let written = close_partial partial (update_cdr data' (context.store a)) in
        let context1 = put_ue (set_record context a written) data'.subscriber_identifier ue in
        update_written-Records partial context1 st ue data' session_id a infos _ _
          (write_partial_ok partial files context1 data'.subscriber_identifier a)
          (update_text_hit context.ue_pool data'.subscriber_identifier data'.subscriber_identifier
            (some ue) (text_eq_refl data'.subscriber_identifier))
          (omega (
            arith,
            recorded-update_once context.store a written ue.records once,
            record_volume-close_partial partial (update_cdr data' (context.store a)),
            record_volume-update_cdr data' (context.store a),
            e,
          ))
          once (record { once = k.once; below = k.below })

    -- An update of a known session, of a subscriber whose records are kept, whose reservation and
    -- encodings succeed and where files can be written, is answered with the information of the
    -- reservation. The volume that the records of the subscriber hold grows by exactly the volume
    -- that the request reports, also where the record is split or goes on as a partial one, and
    -- the record of each session stays one of the records of the subscriber, once.
    pub charging_data_update-Records :
        (context : Chf) (st st' : p.State) (files : o.Files) (data' : ChargingDataRequest)
        (session_id : Text) (ue : Subscriber) (a : ℕ) (charging : ChfUe) (partial : Bool)
        (infos : List MultipleUnitInformation) (cdr usages : List ℕ)
        → context.ue_pool data'.subscriber_identifier ≡ some ue
        → ue.cdr session_id ≡ some a
        → IsKept context ue
        → session_charging_reservation p st ue.charging data' ≡ some (charging, st', partial, infos)
        → o.marshal (context.store a) ≡ some cdr
        → usage_bytes p o data' ≡ some usages
        → (d : Done p o) × (charging_data_update p o context st files data' session_id ≡ some d)
          × Records data'.subscriber_identifier data'.invocation_sequence_number infos
              (recorded context.store ue.records + reported data'.multiple_unit_usage)
              d
    unfolding charging_data_update update_charged update_encoded
    charging_data_update-Records context st st' files data' session_id ue a charging partial infos
          cdr usages h e k reserved encoded encoded' =
        let ue1 = record ue { charging = charging } in
        (
          update_split p o partial st' files data' session_id infos
              (split_record (ltb 65535 (length cdr + length usages)) context ue1 session_id a),
          rw (h, e, charging_data_update, reserved, encoded, encoded') refl,
          update_split-Records partial st' files data' session_id infos _ _ (
              split_record-Splits _ context ue1 session_id a
                (record { once = k.once; below = k.below }) e),
        )
