-- ===== src/Record/Convert.antt =====
-- From the service's data to the fields of a record (cdr/cdrConvert/sbiToCdr.go).
use chf.Base.{
  ℕ, ◌+◌, ◌-◌, ◌*◌, ◌/◌, ◌%◌, ◌^◌, bit_or, ◌==◌, leb, Bool, true, false, List, [], ◌∷◌, Option,
  none, some, if◌then◌else◌, ◌>>=◌, get_elem?, length,
}
use chf.Base.Decimal.{Text}
use chf.Models
use chf.Models.{PlmnId}
use chf.Record.{UsedUnitContainer, MultipleUnitUsage}

-- `int64(x)` of an int32.
unfoldable pub sign_extend : ℕ → ℕ
sign_extend x = if leb (2 ^ 31) x then x + (2 ^ 64 - 2 ^ 32) else x

abbrev pub used_unit_to_cdr : Models.UsedUnitContainer → UsedUnitContainer
used_unit_to_cdr used = record {
  local_sequence_number = sign_extend used.local_sequence_number;
  data_volume_uplink = sign_extend used.uplink_volume;
  data_volume_downlink = sign_extend used.downlink_volume;
  data_total_volume = sign_extend used.total_volume;
  service_specific_units = sign_extend used.service_specific_units;
}

unfoldable pub used_unit_container_to_cdr : List Models.UsedUnitContainer → List UsedUnitContainer
used_unit_container_to_cdr [] = []
used_unit_container_to_cdr (used ∷ rest) = used_unit_to_cdr used ∷ used_unit_container_to_cdr rest

unfoldable pub multi_unit_usage_to_cdr : List Models.MultipleUnitUsage → List MultipleUnitUsage
multi_unit_usage_to_cdr [] = []
multi_unit_usage_to_cdr (usage ∷ rest) =
    record {
      rating_group = sign_extend usage.rating_group;
      used_unit_containers = used_unit_container_to_cdr usage.used_unit_container;
      upf_id = usage.upf_id;
    }
    ∷ multi_unit_usage_to_cdr rest

-- A point in time as its zone shows it; the zone is seconds ahead of UTC, or behind.
pub record LocalTime : Type 0 where
  pub year : ℕ
  pub month : ℕ
  pub day : ℕ
  pub hour : ℕ
  pub minute : ℕ
  pub second : ℕ
  pub behind : Bool
  pub zone : ℕ

-- `(byte(high) << 4) | byte(low)`
unfoldable pub nibbles : ℕ → ℕ → ℕ
nibbles high low = bit_or (high % 2 ^ 8 * 2 ^ 4 % 2 ^ 8) (low % 2 ^ 8)

-- The byte of a value with a sign.
abbrev pub signed_byte : Bool → ℕ → ℕ
signed_byte false n = n % 2 ^ 8
signed_byte true n = (2 ^ 8 - n % 2 ^ 8) % 2 ^ 8

unfoldable pub time_stamp_to_cdr : LocalTime → List ℕ
time_stamp_to_cdr t =
    nibbles (t.year % 100 / 10) (t.year % 10)
    ∷ nibbles (t.month / 10) (t.month % 10)
    ∷ nibbles (t.day / 10) (t.day % 10)
    ∷ nibbles (t.hour / 10) (t.hour % 10)
    ∷ nibbles (t.minute / 10) (t.minute % 10)
    ∷ nibbles (t.second / 10) (t.second % 10)
    ∷ (if t.behind then b'-' else b'+')
    ∷ nibbles (signed_byte t.behind (t.zone / 3600 / 10))
        (signed_byte t.behind (t.zone / 3600 % 10))
    ∷ nibbles (signed_byte t.behind (t.zone % 3600 / 10))
        (signed_byte t.behind (t.zone % 3600 % 10))
    ∷ []

-- The value of a hexadecimal digit, where it is one.
unfoldable pub hex_digit : ℕ → Option ℕ
hex_digit c =
    if (if leb b'0' c then leb c b'9' else false)
    then some (c - b'0')
    else if (if leb b'a' c then leb c b'f' else false)
    then some (c - b'a' + 10)
    else if (if leb b'A' c then leb c b'F' else false)
    then some (c - b'A' + 10)
    else none

abbrev pub hex_pair : Option ℕ → Option ℕ → Option (List ℕ) → Option (List ℕ)
hex_pair (some h) (some l) (some rest) = some ((h * 16 + l) ∷ rest)
hex_pair _ _ _ = none

-- hex.DecodeString
unfoldable pub decode_string : Text → Option (List ℕ)
decode_string [] = some []
decode_string (c ∷ []) = none
decode_string (c ∷ d ∷ s) = hex_pair (hex_digit c) (hex_digit d) (decode_string s)

-- The digits of a PLMN in the order of TS 24.008, two to an octet and the second one first.
unfoldable pub plmn_hex : Text → Text → Option Text
plmn_hex mcc mnc = do
  m0 ← get_elem? mcc 0
  m1 ← get_elem? mcc 1
  m2 ← get_elem? mcc 2
  n0 ← get_elem? mnc 0
  n1 ← get_elem? mnc 1
  elim (length mnc == 2) [
    | true ↦ some (m1 ∷ m0 ∷ b'f' ∷ m2 ∷ n1 ∷ n0 ∷ [])
    | false ↦ (get_elem? mnc 2 >>= λ n2. some (m1 ∷ m0 ∷ n2 ∷ m2 ∷ n1 ∷ n0 ∷ []))
  ]

-- `is_valid` is validator.IsValidPlmnIdParts, which is not in the repository. The outer Option is a
-- panic, the inner one an error.
unfoldable pub plmn_id_to_cdr : (is_valid : Text → Text → Bool) → PlmnId → Option (Option (List ℕ))
plmn_id_to_cdr is_valid id =
    if is_valid id.mcc id.mnc
    then (plmn_hex id.mcc id.mnc >>= λ s. some (decode_string s))
    else some none
