-- ===== src/Context/Tests.antt =====
-- A context that is set up from a configuration (internal/context/chf_context_init.go).
use chf.Base.{◌≡◌, refl, inl, arith, true, [], ◌∷◌, none, some, ◌<◌, ◌^◌}
use chf.Base.Decimal.{Text}
use chf.Config.{Sbi, Diameter, Info, Configuration, Config}
use chf.Config.Getters.{http, get_sbi_port}
use chf.Context.{Environment, ChfContext, initial, with_services, init_chf_context}
use chf.Context.Advertised.{Listens, init_chf_context-Listens}

abbrev address : Text
address = b'1' ∷ b'2' ∷ b'7' ∷ b'.' ∷ b'0' ∷ b'.' ∷ b'0' ∷ b'.' ∷ b'1' ∷ []

abbrev environment : Environment
environment = record {
  getenv = λ name. [];
  nf_instance_id = [];
  is_uuid = λ id. true;
  unix_time = 1700000000;
}

abbrev sbi : Sbi
sbi = record {
  scheme = http;
  register_ipv4 = address;
  binding_ipv4 = address;
  port = 0;
  tls = none;
}

abbrev diameter : Diameter
diameter = record { protocol = []; host_ipv4 = address; port = 3868; tls = none }

abbrev configuration : Configuration
configuration = record {
  read_idle_timeout = none;
  ping_timeout = none;
  idle_timeout = none;
  chf_name = [];
  nf_instance_id = b'1' ∷ b'f' ∷ [];
  sbi = some sbi;
  metrics = none;
  service_name_list = [];
  nrf_uri = [];
  nrf_cert_pem = [];
  mongodb = none;
  volume_limit = 0;
  volume_limit_pdu = 0;
  reserve_quota_ratio = 0;
  volume_threshold_rate = 0;
  quota_validity_time = 0;
  rf_diameter = some diameter;
  abmf_diameter = some diameter;
  cgf = none;
  nf_heart_beat_timer = 0;
}

abbrev info : Info
info = record { version = b'1' ∷ b'.' ∷ b'0' ∷ b'.' ∷ b'3' ∷ []; description = [] }

abbrev config : Config
config = record { info = some info; configuration = some configuration; logger = none }

abbrev context : ChfContext
context = with_services info.version (initial environment configuration sbi diameter diameter)

initial_context : init_chf_context environment config ≡ some context
unfolding init_chf_context
initial_context = refl

port_small : get_sbi_port config < 2 ^ 32
unfolding get_sbi_port
port_small = omega arith

init_chf_context-Listens_example : Listens environment.getenv config context
init_chf_context-Listens_example =
    init_chf_context-Listens environment config context refl (inl refl) port_small initial_context
