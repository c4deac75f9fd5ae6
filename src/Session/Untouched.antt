-- ===== src/Session/Untouched.antt =====
-- What a whole session request leaves alone (internal/sbi/processor/converged_charging.go with the two
-- servers).
use chf.Base.{
  ℕ, ◌+◌, ◌≡◌, ◌≢◌, ◌⊎◌, inl, inr, refl, ap, ◌∙◌, Bool, false, List, [], ◌∷◌, Option, none, some,
  Bool-cases, ◌>>=◌, All,
}
use chf.Base.Decimal.{Text}
use chf.Diameter.{RequestSubType, SubscriptionId, Collection, Keeps}
use chf.Models.{Trigger, MultipleUnitUsage, MultipleUnitInformation, ChargingDataRequest}
use chf.Account.Balance.{balance}
use chf.Ue.{ChfUe, find_rating_group}
use chf.Session.Peers.{servers}
use chf.Session.Messages.{subscriber_identifier}
use chf.Session.Scan.{Scan, register_rating_group, scan_start, scan_used_units, choose_mode}
use chf.Session.Reserve.{Outcome}
use chf.Session.Loop.{
  scanned_information, Progress, add_information, finish, charge_by_type, charge_scanned,
  charge_usage, charge_usages, session_charging_reservation,
}
use chf.Session.Elsewhere.{
  IsOther, OfSome, Stays, OutcomeStays, reserve_case-Stays, debit_case-Stays,
}

-- The account is none of the subscriber's for the rating group of a usage, and the other rating group is
-- not that one.
abbrev pub IsAway : Option SubscriptionId → Text → ℕ → ℕ → ℕ → Type 0
IsAway subscriber name i j rg = (IsOther subscriber name ⊎ (rg ≢ i)) × (rg ≢ j)

-- What a request leaves: the subscriber, the database, whether a partial record is due, and the
-- information of the answer.
abbrev pub Left : Collection → Type 0
Left c = ChfUe × c.Db × Bool × List MultipleUnitInformation

module _ (c : Collection) (k : Keeps c) (subscriber : Option SubscriptionId) (name : Text)
    (i j : ℕ) where
  abbrev ProgressStays : c.Db → ChfUe → Progress (servers c) → Type 0
  ProgressStays db ue r = Stays c k subscriber name i j db ue (r.0) (r.1)

  charge_by_type-Stays :
      (type : RequestSubType) (rg usage_index : ℕ) (requested : Option ℕ) (used : ℕ) (db : c.Db)
      (ue : ChfUe) (info : MultipleUnitInformation)
      → IsAway subscriber name i j rg
      → OfSome
          (OutcomeStays c k subscriber name i j db ue)
          (charge_by_type (servers c) subscriber type rg usage_index requested used db ue info)
  unfolding charge_by_type
  charge_by_type-Stays RequestSubType.reserve rg usage_index none used db ue info away =
      (refl, refl)
  charge_by_type-Stays RequestSubType.reserve rg usage_index (some requested) used db ue info away =
      reserve_case-Stays c k subscriber name i j rg (away.0) (away.1) usage_index requested used db
        ue info
  charge_by_type-Stays RequestSubType.debit rg usage_index requested used db ue info away =
      debit_case-Stays c k subscriber name i j rg (away.0) (away.1) used db ue info
  charge_by_type-Stays _ rg usage_index requested used db ue info away = (refl, refl)

  finished-Stays :
      (rg : ℕ) (partial : Bool) (db : c.Db) (ue : ChfUe) (o : Option (Outcome (servers c)))
      → OfSome (OutcomeStays c k subscriber name i j db ue) o
      → OfSome (ProgressStays db ue) (o >>= λ r. some (finish (servers c) rg partial r))
  finished-Stays rg partial db ue none h = tt
  finished-Stays rg partial db ue (some (ue', db', none)) h = h
  finished-Stays rg partial db ue (some (ue', db', some info)) h = h

  charge_scanned-Stays :
      (usage_index : ℕ) (usage : MultipleUnitUsage) (db : c.Db) (ue : ChfUe) (s : Scan)
      → IsAway subscriber name i j usage.rating_group
      → OfSome
          (ProgressStays db ue)
          (charge_scanned (servers c) subscriber usage_index usage db ue s)
  unfolding charge_scanned
  charge_scanned-Stays usage_index usage db ue s away = elim (Bool-cases s.credit_control) [
    | inl e ↦
        let rg = usage.rating_group in
        let chosen = choose_mode rg usage.requested_unit s in
        let ue1 = record ue { rating_type = chosen.rating_type } in
        rw (e, charge_scanned)
          (finished-Stays rg chosen.partial_record db ue
            (charge_by_type (servers c) subscriber (ue1.rating_type rg) rg usage_index
              usage.requested_unit chosen.total_used_unit db ue1 (scanned_information usage chosen))
            (charge_by_type-Stays (ue1.rating_type rg) rg usage_index usage.requested_unit
              chosen.total_used_unit db ue1 (scanned_information usage chosen) away))
    | inr e ↦ rw (e, charge_scanned) (refl, refl)
  ]

  register_rating_group-reserved :
      (ue : ChfUe) (rg : ℕ) → (register_rating_group ue rg).reserved_quota j ≡ ue.reserved_quota j
  unfolding register_rating_group
  register_rating_group-reserved ue rg = elim (Bool-cases (find_rating_group ue rg)) [
    | inl e ↦ rw (e, register_rating_group) refl
    | inr e ↦ rw (e, register_rating_group) refl
  ]

  registered-Stays :
      (db : c.Db) (ue ue1 : ChfUe) (o : Option (Progress (servers c)))
      → ue1.reserved_quota j ≡ ue.reserved_quota j
      → OfSome (ProgressStays db ue1) o
      → OfSome (ProgressStays db ue) o
  registered-Stays db ue ue1 none e h = tt
  registered-Stays db ue ue1 (some r) e h = (h.0, h.1 ∙ e)

  charge_usage-Stays :
      (triggers : List Trigger) (usage_index : ℕ) (usage : MultipleUnitUsage) (db : c.Db)
      (ue : ChfUe) (partial : Bool)
      → IsAway subscriber name i j usage.rating_group
      → OfSome
          (ProgressStays db ue)
          (charge_usage (servers c) subscriber triggers usage_index usage db ue partial)
  unfolding charge_usage
  charge_usage-Stays triggers usage_index usage db ue partial away =
      let ue1 = register_rating_group ue usage.rating_group in
      let s =
        scan_used_units usage.rating_group triggers usage.used_unit_container
          (scan_start ue1 partial) in
      registered-Stays db ue ue1 (charge_scanned (servers c) subscriber usage_index usage db ue1 s)
        (register_rating_group-reserved ue usage.rating_group)
        (charge_scanned-Stays usage_index usage db ue1 s away)

  unfoldable pub LeftStays : c.Db → ChfUe → Option (Left c) → Type 0
  LeftStays db ue o = OfSome (λ (r : Left c). Stays c k subscriber name i j db ue (r.0) (r.1)) o

  pub more-Stays :
      (db db' : c.Db) (ue ue' : ChfUe) (o : Option (Left c)) (f : Left c → Left c)
      → Stays c k subscriber name i j db ue ue' db'
      → ((r : Left c) → (((f r).0) ≡ r.0) × (((f r).1) ≡ r.1))
      → LeftStays db' ue' o
      → LeftStays db ue (o >>= λ q. some (f q))
  unfolding LeftStays
  more-Stays db db' ue ue' none f h same later = tt
  more-Stays db db' ue ue' (some r) f h same later = (
    ap (λ d. balance c d name i) ((same r).1) ∙ later.0 ∙ h.0,
    ap (λ u. u.reserved_quota j) ((same r).0) ∙ later.1 ∙ h.1,
  )

  pub charge_usages-Stays :
      (triggers : List Trigger) (usage_index : ℕ) (usages : List MultipleUnitUsage) (db : c.Db)
      (ue : ChfUe) (partial : Bool)
      → All (λ u. IsAway subscriber name i j u.rating_group) usages
      → LeftStays db ue
          (charge_usages (servers c) subscriber triggers usage_index usages db ue partial)
  unfolding charge_usages LeftStays
  charge_usages-Stays triggers usage_index [] db ue partial away = (refl, refl)
  charge_usages-Stays triggers usage_index (usage ∷ rest) db ue partial away =
      following (charge_usage (servers c) subscriber triggers usage_index usage db ue partial)
        (charge_usage-Stays triggers usage_index usage db ue partial (away.0))
        (λ db' ue' partial'.
          charge_usages-Stays triggers (usage_index + 1) rest db' ue' partial' (away.1))
    where
      following :
          (o : Option (Progress (servers c)))
          → OfSome (ProgressStays db ue) o
          → ((db' : c.Db) (ue' : ChfUe) (partial' : Bool)
              → LeftStays db' ue' (
                  charge_usages
                    (servers c)
                    subscriber
                    triggers
                    (usage_index + 1)
                    rest
                    db'
                    ue'
                    partial'))
          → LeftStays db ue (
              o >>= λ r.
              charge_usages (servers c) subscriber triggers (usage_index + 1) rest (r.1) (r.0) (r.2)
              >>= λ q. some (q.0, q.1, q.2, add_information (servers c) subscriber (r.3) (q.3)))
      following none h later = tt
      following (some (ue', db', partial', info)) h later =
          more-Stays db db' ue ue'
            (charge_usages (servers c) subscriber triggers (usage_index + 1) rest db' ue' partial')
            (λ q. (q.0, q.1, q.2, add_information (servers c) subscriber info (q.3))) h
            (λ r. (refl, refl)) (later db' ue' partial')

  pub left_some :
      (db : c.Db) (ue : ChfUe) (o : Option (Left c)) (r : Left c)
      → o ≡ some r
      → LeftStays db ue o
      → Stays c k subscriber name i j db ue (r.0) (r.1)
  unfolding LeftStays
  left_some db ue o r e h = (rw e at h)

-- Where the collection keeps what is written to it, and a session request of a known kind of
-- subscriber is served without a panic: an account of another subscriber, or of a rating group
-- that no usage names, keeps its balance, and a rating group that no usage names keeps its
-- reserved quota.
pub session_charging_reservation-Stays :
    (c : Collection) (subscriber : Option SubscriptionId) (name : Text) (i j : ℕ) (db : c.Db)
    (ue : ChfUe) (data' : ChargingDataRequest) (r : Left c)
    → Keeps c
    → subscriber_identifier data'.subscriber_identifier ≡ some subscriber
    → All (λ u. IsAway subscriber name i j u.rating_group) data'.multiple_unit_usage
    → session_charging_reservation (servers c) db ue data' ≡ some r
    → (balance c (r.1) name i ≡ balance c db name i)
      × ((r.0).reserved_quota j ≡ ue.reserved_quota j)
unfolding session_charging_reservation
session_charging_reservation-Stays c subscriber name i j db ue data' r k known away e =
    left_some c k subscriber name i j db ue
      (charge_usages (servers c) subscriber data'.triggers 0 data'.multiple_unit_usage db ue false)
      r (rw known at e)
      (charge_usages-Stays c k subscriber name i j data'.triggers 0 data'.multiple_unit_usage db ue
        false away)
