-- ===== src/Resource/Volume.antt =====
-- The volumes that requests report and records hold, and the records at some addresses
-- (cdr/cdrConvert/sbiToCdr.go, `UpdateCDR` of internal/sbi/processor/cdr.go).
use chf.Base.{
  ℕ, ◌+◌, ◌<◌, ◌≡◌, refl, ap, ◌∙◌, inl, inr, arith, ◌==◌, Bool, true, false, List, [], ◌∷◌, ◌++◌,
  if◌then◌else◌, All, Bool-cases,
}
use chf.Base.Maps.{update}
use chf.Models
use chf.Models.{MultipleUnitInformation, ChargingDataRequest}
use chf.Record.{UsedUnitContainer, MultipleUnitUsage, ChargingRecord}
use chf.Record.Convert.{sign_extend, used_unit_container_to_cdr, multi_unit_usage_to_cdr}
use chf.Record.Lifecycle.{reopen_cdr, update_cdr, close_cdr}
use chf.Resource.Update.{close_partial, reopen_partial}

-- The total volume of the containers of a usage, of the usages of a record, and of the records at some
-- addresses.
abbrev pub containers_volume : List UsedUnitContainer → ℕ
containers_volume [] = 0
containers_volume (used ∷ rest) = used.data_total_volume + containers_volume rest

abbrev pub usages_volume : List MultipleUnitUsage → ℕ
usages_volume [] = 0
usages_volume (usage ∷ rest) = containers_volume usage.used_unit_containers + usages_volume rest

abbrev pub record_volume : ChargingRecord → ℕ
record_volume cdr = usages_volume cdr.list_of_multiple_unit_usage

abbrev pub recorded : (ℕ → ChargingRecord) → List ℕ → ℕ
recorded store [] = 0
recorded store (a ∷ as') = record_volume (store a) + recorded store as'

-- The total volume that a request reports, an int32 taken for an int64 pattern.
abbrev pub reported_used : List Models.UsedUnitContainer → ℕ
reported_used [] = 0
reported_used (used ∷ rest) = sign_extend used.total_volume + reported_used rest

abbrev pub reported : List Models.MultipleUnitUsage → ℕ
reported [] = 0
reported (usage ∷ rest) = reported_used usage.used_unit_container + reported rest

pub containers_volume_converted :
    (used : List Models.UsedUnitContainer)
    → containers_volume (used_unit_container_to_cdr used) ≡ reported_used used
unfolding used_unit_container_to_cdr
containers_volume_converted [] = refl
containers_volume_converted (u ∷ rest) =
    ap (λ n. sign_extend u.total_volume + n) (containers_volume_converted rest)

pub usages_volume_converted :
    (usages : List Models.MultipleUnitUsage)
    → usages_volume (multi_unit_usage_to_cdr usages) ≡ reported usages
unfolding multi_unit_usage_to_cdr
usages_volume_converted [] = refl
usages_volume_converted (usage ∷ rest) =
    omega
      (arith, containers_volume_converted usage.used_unit_container, usages_volume_converted rest)

pub usages_volume-append :
    (us vs : List MultipleUnitUsage)
    → usages_volume (us ++ vs) ≡ usages_volume us + usages_volume vs
usages_volume-append [] vs = omega arith
usages_volume-append (u ∷ us) vs = omega (arith, usages_volume-append us vs)

pub record_volume-update_cdr :
    (data' : ChargingDataRequest) (cdr : ChargingRecord)
    → record_volume (update_cdr data' cdr) ≡ record_volume cdr + reported data'.multiple_unit_usage
unfolding update_cdr
record_volume-update_cdr data' cdr =
    usages_volume-append cdr.list_of_multiple_unit_usage
      (multi_unit_usage_to_cdr data'.multiple_unit_usage)
    ∙ ap (λ n. record_volume cdr + n) (usages_volume_converted data'.multiple_unit_usage)

pub record_volume-close_partial :
    (partial : Bool) (cdr : ChargingRecord)
    → record_volume (close_partial partial cdr) ≡ record_volume cdr
unfolding close_cdr
record_volume-close_partial true cdr = refl
record_volume-close_partial false cdr = refl

pub record_volume-reopen_partial :
    (partial : Bool) (n : ℕ) (cdr : ChargingRecord)
    → record_volume (reopen_partial partial n cdr) ≡ record_volume cdr
unfolding reopen_cdr
record_volume-reopen_partial true n cdr = refl
record_volume-reopen_partial false n cdr = refl

-- How often an address stands in a list.
abbrev pub occurs : ℕ → List ℕ → ℕ
occurs a [] = 0
occurs a (b ∷ bs) = (if a == b then 1 else 0) + occurs a bs

pub recorded-update_absent :
    (f : ℕ → ChargingRecord) (a : ℕ) (r : ChargingRecord) (bs : List ℕ)
    → occurs a bs ≡ 0
    → recorded (update f a r) bs ≡ recorded f bs
unfolding update
recorded-update_absent f a r [] h = refl
recorded-update_absent f a r (b ∷ bs) h = ground (arith, recorded-update_absent f a r bs)

-- Writing a record that stands once in the list changes the total by the record.
pub recorded-update_once :
    (f : ℕ → ChargingRecord) (a : ℕ) (r : ChargingRecord) (bs : List ℕ)
    → occurs a bs ≡ 1
    → recorded (update f a r) bs + record_volume (f a) ≡ recorded f bs + record_volume r
unfolding update
recorded-update_once f a r [] h = absurd (omega arith)
recorded-update_once f a r (b ∷ bs) h = elim (Bool-cases (a == b)) [
  | inl e ↦
      let p : a ≡ b = ground arith in
      let none_left : occurs a bs ≡ 0 = ground arith in
      let here : record_volume (update f a r b) ≡ record_volume r = rw e refl in
      omega
        (arith, here, ap (λ n. record_volume (f n)) p, recorded-update_absent f a r bs none_left)
  | inr e ↦
      let one_left : occurs a bs ≡ 1 = ground arith in
      let here : record_volume (update f a r b) ≡ record_volume (f b) = rw e refl in
      omega (arith, here, recorded-update_once f a r bs one_left)
]

pub occurs_fresh : (n : ℕ) (bs : List ℕ) → All (λ b. b < n) bs → occurs n bs ≡ 0
occurs_fresh n [] h = refl
occurs_fresh n (b ∷ bs) (h, hs) = ground (arith, occurs_fresh n bs hs)

pub occurs-append : (a : ℕ) (bs cs : List ℕ) → occurs a (bs ++ cs) ≡ occurs a bs + occurs a cs
occurs-append a [] cs = omega arith
occurs-append a (b ∷ bs) cs = omega (arith, occurs-append a bs cs)

pub recorded-append :
    (f : ℕ → ChargingRecord) (bs cs : List ℕ)
    → recorded f (bs ++ cs) ≡ recorded f bs + recorded f cs
recorded-append f [] cs = omega arith
recorded-append f (b ∷ bs) cs = omega (arith, recorded-append f bs cs)

pub fresh_below :
    (n m : ℕ) (bs : List ℕ) → n < m → All (λ b. b < n) bs → All (λ b. b < m) (bs ++ (n ∷ []))
fresh_below n m [] l h = (l, tt)
fresh_below n m (b ∷ bs) l (h, hs) = (omega (arith, h, l), fresh_below n m bs l hs)
