-- ===== src/Config/Tests.antt =====
-- Configurations that are validated (pkg/factory/config.go).
use chf.Base.{
  ◌&&◌, ◌||◌, ltb, ◌≡◌, ◌≢◌, refl, ◌↔◌, Bool, true, false, [], ◌∷◌, Option, none, some,
  if◌then◌else◌,
}
use chf.Base.Decimal.{Text}
use chf.Base.Maps.{text_eq}
use chf.Config.{Sbi, Metrics, Configuration, Config}
use chf.Config.Getters.{http, https}
use chf.Config.Validate.{
  Errors, no_errors, and_error, message, same_binding, errors, Validator, converged_charging,
  is_service, identified, validate_tls, validate_sbi, validate_metrics, check_metrics,
  validate_configuration, validate,
}
use chf.Config.Accepted.{IsAccepted, completed, validate-IsAccepted}

abbrev is_scheme : Text → Bool
is_scheme s = text_eq s https || text_eq s http

abbrev rejected : Bool × Option Errors
rejected = (false, some (and_error (message []) no_errors))

abbrev outcome : Bool → Bool × Option Errors
outcome valid = if valid then (true, none) else rejected

-- A library that checks schemes and ports, and texts that are required.
abbrev validator : Validator
validator = record {
  tls = λ t. (true, none);
  sbi = λ s. outcome (is_scheme s.scheme && ltb 0 s.port);
  metrics = λ m. outcome (is_scheme m.scheme);
  configuration = λ k. (true, none);
  config = λ c. (true, none);
}

abbrev address : Text
address = b'1' ∷ b'2' ∷ b'7' ∷ b'.' ∷ b'0' ∷ b'.' ∷ b'0' ∷ b'.' ∷ b'1' ∷ []

abbrev sbi : Sbi
sbi = record {
  scheme = http;
  register_ipv4 = address;
  binding_ipv4 = address;
  port = 8000;
  tls = none;
}

abbrev metrics : Metrics
metrics = record {
  enable = true;
  scheme = http;
  binding_ipv4 = address;
  port = 9091;
  tls = none;
  namespace = [];
}

abbrev configuration : Configuration
configuration = record {
  read_idle_timeout = none;
  ping_timeout = none;
  idle_timeout = none;
  chf_name = [];
  nf_instance_id = [];
  sbi = some sbi;
  metrics = some metrics;
  service_name_list = converged_charging ∷ [];
  nrf_uri = [];
  nrf_cert_pem = [];
  mongodb = none;
  volume_limit = 0;
  volume_limit_pdu = 0;
  reserve_quota_ratio = 0;
  volume_threshold_rate = 0;
  quota_validity_time = 0;
  rf_diameter = none;
  abmf_diameter = none;
  cgf = none;
  nf_heart_beat_timer = 0;
}

abbrev config : Config
config = record { info = none; configuration = some configuration; logger = none }

abbrev clashing : Config
clashing = record config {
  configuration = some (record configuration { metrics = some (record metrics { port = 8000 }) });
}

abbrev first_uuid : Text
first_uuid = b'1' ∷ b'f' ∷ []

abbrev next_uuid : Text
next_uuid = b'2' ∷ b'e' ∷ []

first_uuid_lem : first_uuid ≢ []
first_uuid_lem e = cc

validate-IsAccepted_example :
    ((((validate validator first_uuid config).1).1 ≡ none)
      ↔ IsAccepted validator (completed first_uuid config))
    × ((validate validator first_uuid config).0 ≡ completed first_uuid config)
    × (validate validator next_uuid ((validate validator first_uuid config).0)
        ≡ validate validator first_uuid config)
validate-IsAccepted_example =
    validate-IsAccepted validator first_uuid next_uuid config first_uuid_lem

accepted_test : (validate validator first_uuid config).1 ≡ (true, none)
unfolding validate validate_configuration validate_sbi validate_metrics check_metrics validate_tls
    identified is_service text_eq
accepted_test = refl

clashing_test :
    (validate validator first_uuid clashing).1
    ≡ (false, some (errors (and_error (same_binding address 8000) no_errors)))
unfolding validate validate_configuration validate_sbi validate_metrics check_metrics validate_tls
    identified is_service text_eq
clashing_test = refl
