-- ===== src/Ue.antt =====
-- The charging state of a subscriber (internal/context/ue_context.go), without its Diameter clients,
-- channels and lock.
use chf.Base.{ℕ, ◌==◌, Bool, true, false, List, [], ◌∷◌, if◌then◌else◌}
use chf.Base.Decimal.{Text}
use chf.Diameter.{RequestSubType}

-- `volume_threshold` is `int32(float32(units) * VolumeThresholdRate)`; there is no model of floats, so
-- it is a parameter. The quota of a rating group is an int64 pattern, unit costs and request numbers
-- are uint32.
pub record ChfUe : Type 0 where
  pub supi : Text
  pub rating_groups : List ℕ
  pub quota_validity_time : ℕ
  pub volume_limit : ℕ
  pub volume_limit_pdu : ℕ
  pub volume_threshold : ℕ → ℕ
  pub notify_uri : Text
  pub reserved_quota : ℕ → ℕ
  pub unit_cost : ℕ → ℕ
  pub acct_request_num : ℕ → ℕ
  pub acct_session_id : ℕ
  pub rating_type : ℕ → RequestSubType
  pub rate_session_id : ℕ

abbrev pub contains : ℕ → List ℕ → Bool
contains rg [] = false
contains rg (x ∷ xs) = if x == rg then true else contains rg xs

unfoldable pub find_rating_group : ChfUe → ℕ → Bool
find_rating_group ue rg = contains rg ue.rating_groups
