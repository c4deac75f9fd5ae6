-- ===== src/Session/Usage.antt =====
-- What a usage of a request costs: from its containers to the account, and through the whole request
-- (internal/sbi/processor/converged_charging.go with the two servers).
use chf.Base.{
  ℕ, ◌%◌, ◌^◌, ◌≡◌, ◌⊎◌, inl, inr, refl, ap, ◌∙◌, arith, Bool, true, false, List, [], ◌∷◌, Option,
  none, some, ◌>>=◌, All, ◌≢◌,
}
use chf.Base.Word.{Is64, sub64, mul32, pos32}
use chf.Diameter.{RequestSubType, SubscriptionId, Collection, Keeps}
use chf.Models.{Trigger, MultipleUnitUsage, ChargingDataRequest}
use chf.Account.{subscriber_id}
use chf.Account.Balance.{balance}
use chf.Ue.{ChfUe, find_rating_group}
use chf.Session.Peers.{servers}
use chf.Session.Messages.{get_unit_cost, usage_request, subscriber_identifier}
use chf.Session.Scan.{Scan, register_rating_group, scan_start, scan_used_units, choose_mode}
use chf.Session.Counted.{
  online_volume, has_online, IsReady, scan_used_units-IsReady, scan_used_units-counts,
  choose_mode-keeps, register_rating_group-keeps,
}
use chf.Session.Reserve.{Outcome}
use chf.Session.Loop.{
  scanned_information, Progress, finish, charge_by_type, charge_scanned, charge_usage,
  charge_usages, add_information, session_charging_reservation,
}
use chf.Session.Untouched.{Left, IsAway, charge_usages-Stays, more-Stays, left_some}
use chf.Session.Money.{funds, Pays, reserve_case-Pays}

module _ (c : Collection) (s : SubscriptionId) where
  finish-keeps :
      (rg : ℕ) (partial : Bool) (r : Outcome (servers c))
      → (((finish (servers c) rg partial r).1) ≡ r.1)
        × (((finish (servers c) rg partial r).0).reserved_quota ≡ (r.0).reserved_quota)
  finish-keeps rg partial (ue, db, none) = (refl, refl)
  finish-keeps rg partial (ue, db, some info) = (refl, refl)

  -- What a usage leaves: it ends, and the funds of its rating group are lower by a price.
  abbrev pub UsagePays : ℕ → ℕ → ℕ → Option (Progress (servers c)) → Type 0
  UsagePays rg total price o =
      (r : Progress (servers c)) × (quota : ℕ) × (o ≡ some r)
      × (balance c (r.1) (subscriber_id s) rg ≡ some quota)
      × (funds quota ((r.0).reserved_quota rg) ≡ sub64 total price)

  same_price :
      (rg total total' price price' : ℕ) (o : Option (Progress (servers c)))
      → total ≡ total'
      → price ≡ price'
      → UsagePays rg total price o
      → UsagePays rg total' price' o
  same_price rg total total' price price' o e e' (r, quota, left, b, f) =
      (r, quota, left, b, f ∙ ap (λ t. sub64 t price) e ∙ ap (sub64 total') e')

  get_unit_cost-session :
      (db : c.Db) (ue ue' : ChfUe) (rg : ℕ)
      → ue.rate_session_id ≡ ue'.rate_session_id
      → (get_unit_cost (servers c) db ue (some s) rg).1
        ≡ (get_unit_cost (servers c) db ue' (some s) rg).1
  unfolding get_unit_cost usage_request
  get_unit_cost-session db ue ue' rg e = rw e refl

  finished-UsagePays :
      (rg usage_index requested total price : ℕ) (partial : Bool) (db : c.Db)
      (o : Option (Outcome (servers c)))
      → Pays c s rg usage_index requested db total price o
      → UsagePays rg total price (o >>= λ r. some (finish (servers c) rg partial r))
  finished-UsagePays rg usage_index requested total price partial db o (r, quota, e, b, f) =
      let (same_db, same_reserved) = finish-keeps rg partial r in
      (
        finish (servers c) rg partial r,
        quota,
        rw e refl,
        ap (λ d. balance c d (subscriber_id s) rg) same_db ∙ b,
        ap (λ q. funds quota (q rg)) same_reserved ∙ f,
      )

  module _ (k : Keeps c) (usage_index before requested : ℕ) (usage : MultipleUnitUsage) where
    charge_scanned-UsagePays :
        (db : c.Db) (ue : ChfUe) (scanned : Scan)
        → usage.requested_unit ≡ some requested
        → pos32 requested ≡ true
        → scanned.credit_control ≡ true
        → IsReady usage.rating_group scanned
        → balance c db (subscriber_id s) usage.rating_group ≡ some before
        → Is64 (ue.reserved_quota usage.rating_group)
        → UsagePays usage.rating_group
            (funds before (ue.reserved_quota usage.rating_group))
            (mul32 scanned.total_used_unit
              (get_unit_cost (servers c) db ue (some s) usage.rating_group).1)
            (charge_scanned (servers c) (some s) usage_index usage db ue scanned)
    unfolding charge_scanned charge_by_type get_unit_cost usage_request
    charge_scanned-UsagePays db ue scanned asked positive credit ready h hr =
        let rg = usage.rating_group in
        let chosen = choose_mode rg (some requested) scanned in
        let (mode, total) = choose_mode-keeps rg requested scanned positive ready in
        let ue1 = record ue { rating_type = chosen.rating_type } in
        let paid = finished-UsagePays rg usage_index requested _ _ chosen.partial_record db _ (
          reserve_case-Pays c s rg usage_index requested k before chosen.total_used_unit db ue1
            (scanned_information usage chosen) positive h hr) in
        rw (credit, charge_scanned, asked, mode)
          (same_price rg _ _ _ _ _ refl
            (ap (λ n. mul32 n (get_unit_cost (servers c) db ue (some s) rg).1) total) paid)

    -- For a usage that asks for a positive number of units, has an online container and is of a
    -- rating group that is new or in reserve mode, where the collection keeps what is written, the
    -- account has a balance and the reserved quota is of 64 bits: the usage is charged without a
    -- panic, also where a final trigger is among the triggers of the request, and the balance and
    -- the reserved quota add up to what they were before less the price of the online volume of
    -- its containers, modulo 2^32, at the fetched unit cost, modulo 2^64.
    pub charge_usage-UsagePays :
        (triggers : List Trigger) (db : c.Db) (ue : ChfUe) (partial : Bool)
        → usage.requested_unit ≡ some requested
        → pos32 requested ≡ true
        → has_online usage.used_unit_container ≡ true
        → (find_rating_group ue usage.rating_group ≡ false)
          ⊎ (ue.rating_type usage.rating_group ≡ RequestSubType.reserve)
        → balance c db (subscriber_id s) usage.rating_group ≡ some before
        → Is64 (ue.reserved_quota usage.rating_group)
        → UsagePays usage.rating_group
            (funds before (ue.reserved_quota usage.rating_group))
            (mul32
              (online_volume usage.used_unit_container % 2 ^ 32)
              (get_unit_cost (servers c) db ue (some s) usage.rating_group).1)
            (charge_usage (servers c) (some s) triggers usage_index usage db ue partial)
    unfolding charge_usage get_unit_cost usage_request
    charge_usage-UsagePays triggers db ue partial asked positive online mode h hr =
        let rg = usage.rating_group in
        let ue1 = register_rating_group ue rg in
        let (ready, reserved, session) = register_rating_group-keeps rg ue mode in
        let scanned =
          scan_used_units rg triggers usage.used_unit_container (scan_start ue1 partial) in
        let (credit, total) =
          scan_used_units-counts rg triggers usage.used_unit_container (scan_start ue1 partial)
            (omega arith) in
        let paid =
          charge_scanned-UsagePays db ue1 scanned asked positive (credit ∙ rw online refl)
            (scan_used_units-IsReady rg triggers usage.used_unit_container (scan_start ue1 partial)
              (inl ready))
            h (rw reserved hr) in
        let volume : scanned.total_used_unit ≡ online_volume usage.used_unit_container % 2 ^ 32 =
          omega (arith, total) in
        same_price rg _ _ _ _ _ (ap (λ q. funds before (q rg)) reserved)
          (ap (λ n. mul32 n (get_unit_cost (servers c) db ue1 (some s) rg).1) volume
            ∙ ap (mul32 (online_volume usage.used_unit_container % 2 ^ 32))
                (get_unit_cost-session db ue1 ue rg session))
          paid

others-IsAway :
    (s : SubscriptionId) (rg : ℕ) (usages : List MultipleUnitUsage)
    → All (λ u. u.rating_group ≢ rg) usages
    → All (λ u. IsAway (some s) (subscriber_id s) rg rg u.rating_group) usages
others-IsAway s rg [] away = tt
others-IsAway s rg (u ∷ usages) away = ((inr (away.0), away.0), others-IsAway s rg usages (away.1))

module _ (c : Collection) (s : SubscriptionId) (k : Keeps c) (rg total price : ℕ) where
  -- What is left when the usages behind the first one are for other rating groups.
  followed-Pays :
      (triggers : List Trigger) (rest : List MultipleUnitUsage) (o : Option (Progress (servers c)))
      (r : Left c)
      → All (λ u. u.rating_group ≢ rg) rest
      → UsagePays c s rg total price o
      → (o >>= λ q. charge_usages (servers c) (some s) triggers 1 rest (q.1) (q.0) (q.2) >>= λ l.
          some (l.0, l.1, l.2, add_information (servers c) (some s) (q.3) (l.3)))
        ≡ some r
      → (quota : ℕ) × (balance c (r.1) (subscriber_id s) rg ≡ some quota)
        × (funds quota ((r.0).reserved_quota rg) ≡ sub64 total price)
  followed-Pays triggers rest o r away (q, quota, e, b, f) served =
      let name = subscriber_id s in
      let add : Left c → Left c =
        λ l. (l.0, l.1, l.2, add_information (servers c) (some s) (q.3) (l.3)) in
      let later = charge_usages (servers c) (some s) triggers 1 rest (q.1) (q.0) (q.2) in
      let (same_balance, same_reserved) =
        left_some c k (some s) name rg rg (q.1) (q.0) (later >>= λ l. some (add l)) r
          (rw e at served)
          (more-Stays c k (some s) name rg rg (q.1) (q.1) (q.0) (q.0) later add (refl, refl)
            (λ l. (refl, refl))
            (charge_usages-Stays c k (some s) name rg rg triggers 1 rest (q.1) (q.0) (q.2)
              (others-IsAway s rg rest away))) in
      (quota, same_balance ∙ b, ap (funds quota) same_reserved ∙ f)

-- Where a session request of a known kind of subscriber is served without a panic, where the
-- collection keeps what is written, and the first usage asks for a positive number of units, has
-- an online container and is of a rating group that is new or in reserve mode and that no later
-- usage names, with a balance on its account and a reserved quota of 64 bits: after the whole
-- request the balance and the reserved quota of the rating group add up to what they were before
-- less the price of the online volume of the first usage, modulo 2^32, at the unit cost that is
-- fetched before the request, modulo 2^64.
pub session_charging_reservation-Pays :
    (c : Collection) (s : SubscriptionId) (requested before : ℕ) (usage : MultipleUnitUsage)
    (rest : List MultipleUnitUsage) (db : c.Db) (ue : ChfUe) (data' : ChargingDataRequest)
    (r : Left c)
    → let rg = usage.rating_group in
      Keeps c
      → subscriber_identifier data'.subscriber_identifier ≡ some (some s)
      → data'.multiple_unit_usage ≡ usage ∷ rest
      → All (λ u. u.rating_group ≢ rg) rest
      → usage.requested_unit ≡ some requested
      → pos32 requested ≡ true
      → has_online usage.used_unit_container ≡ true
      → (find_rating_group ue rg ≡ false) ⊎ (ue.rating_type rg ≡ RequestSubType.reserve)
      → balance c db (subscriber_id s) rg ≡ some before
      → Is64 (ue.reserved_quota rg)
      → session_charging_reservation (servers c) db ue data' ≡ some r
      → (quota : ℕ) × (balance c (r.1) (subscriber_id s) rg ≡ some quota)
        × (funds quota ((r.0).reserved_quota rg)
            ≡ sub64 (funds before (ue.reserved_quota rg)) (
                mul32
                  (online_volume usage.used_unit_container % 2 ^ 32)
                  (get_unit_cost (servers c) db ue (some s) rg).1))
unfolding session_charging_reservation charge_usages
session_charging_reservation-Pays c s requested before usage rest db ue data' r k known usages
      others asked positive online mode h hr served =
    followed-Pays c s k usage.rating_group _ _ data'.triggers rest
      (charge_usage (servers c) (some s) data'.triggers 0 usage db ue false) r others
      (charge_usage-UsagePays c s k 0 before requested usage data'.triggers db ue false asked
        positive online mode h hr)
      (rw (known, usages) at served)
