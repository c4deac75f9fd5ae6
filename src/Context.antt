-- ===== src/Context.antt =====
-- The context of the function (internal/context/context.go) and what it is set to from the configuration
-- (internal/context/chf_context_init.go).
pub mod Advertised
mod Tests
use chf.Base.{
  ℕ, ◌-◌, ◌%◌, ◌^◌, ◌==◌, Bool, true, false, List, [], ◌∷◌, ◌++◌, Option, none, some, if◌then◌else◌,
}
use chf.Base.Decimal.{Text, format_int}
use chf.Base.Maps.{text_eq}
use chf.Config.{Sbi, Diameter, Info, Configuration, Config}
use chf.Config.Validate.{converged_charging}
use chf.Config.Getters.{
  any_address, https, http, sbi_default_port, text_or, number_or, get_nf_instance_id,
}

pub data UriScheme : Type 0 where
  http_scheme : UriScheme
  https_scheme : UriScheme

abbrev pub scheme_text : UriScheme → Text
scheme_text http_scheme = http
scheme_text https_scheme = https

-- What the diameter library is set up with.
pub record Settings : Type 0 where
  pub origin_host : Text
  pub origin_realm : Text
  pub vendor_id : ℕ
  pub product_name : Text
  pub origin_state_id : ℕ
  pub firmware_revision : ℕ
  pub host_ip_addresses : List Text

pub record IpEndPoint : Type 0 where
  pub ipv4_address : Text
  pub port : ℕ

pub record NfService : Type 0 where
  pub service_instance_id : Text
  pub service_name : Text
  pub api_prefix : Text
  pub scheme : UriScheme
  pub ip_end_points : List IpEndPoint
  pub api_full_version : Text
  pub api_version_in_uri : Text

-- The fields that the start-up sets. `nf_service` is a map as the list of its entries.
pub record ChfContext : Type 0 where
  pub nf_id : Text
  pub name : Text
  pub url : Text
  pub uri_scheme : UriScheme
  pub binding_ipv4 : Text
  pub register_ipv4 : Text
  pub sbi_port : ℕ
  pub nf_service : List (Text × NfService)
  pub nrf_uri : Text
  pub nrf_cert_pem : Text
  pub rating_cfg : Settings
  pub abmf_cfg : Settings
  pub rating_session_ids : ℕ × ℕ
  pub account_session_ids : ℕ × ℕ

-- What the start-up reads from outside: the environment, the identifier that it holds, the check of a
-- UUID, and the clock.
pub record Environment : Type 0 where
  pub getenv : Text → Text
  pub nf_instance_id : Text
  pub is_uuid : Text → Bool
  pub unix_time : ℕ

abbrev client : Text
client = b'c' ∷ b'l' ∷ b'i' ∷ b'e' ∷ b'n' ∷ b't' ∷ []

abbrev go_diameter : Text
go_diameter = b'g' ∷ b'o' ∷ b'-' ∷ b'd' ∷ b'i' ∷ b'a' ∷ b'm' ∷ b'e' ∷ b't' ∷ b'e' ∷ b'r' ∷ []

abbrev chf_name : Text
chf_name = b'C' ∷ b'H' ∷ b'F' ∷ []

abbrev pub default_ipv4 : Text
default_ipv4 = b'1' ∷ b'2' ∷ b'7' ∷ b'.' ∷ b'0' ∷ b'.' ∷ b'0' ∷ b'.' ∷ b'1' ∷ b'1' ∷ b'3' ∷ []

abbrev api_version : Text
api_version = b'v' ∷ b'3' ∷ []

abbrev pub colon_slashes : Text
colon_slashes = b':' ∷ b'/' ∷ b'/' ∷ []

-- The two assignments of `sm.Settings`
abbrev settings : ℕ → Diameter → Settings
settings now d = record {
  origin_host = client;
  origin_realm = go_diameter;
  vendor_id = 13;
  product_name = go_diameter;
  origin_state_id = now % 2 ^ 32;
  firmware_revision = 1;
  host_ip_addresses = d.host_ipv4 ∷ [];
}

abbrev pub scheme_of : Text → UriScheme
scheme_of scheme = if text_eq scheme https then https_scheme else http_scheme

abbrev pub binding_of : (Text → Text) → Text → Text
binding_of env ip = text_or (env ip) (text_or ip any_address)

-- Writing an entry of a map.
abbrev put_service : List (Text × NfService) → Text → NfService → List (Text × NfService)
put_service [] name s = (name, s) ∷ []
put_service ((k, t) ∷ services) name s =
    let rest = put_service services name s in
    if text_eq k name then (k, s) ∷ services else (k, t) ∷ rest

abbrev service_of : ChfContext → Text → Text → Text → NfService
service_of context version name api = record {
  service_instance_id = context.nf_id;
  service_name = name;
  api_prefix = context.url;
  scheme = context.uri_scheme;
  ip_end_points =
      record { ipv4_address = context.register_ipv4; port = context.sbi_port % 2 ^ 32 } ∷ [];
  api_full_version = version;
  api_version_in_uri = api;
}

abbrev add_all :
    ChfContext → Text → List (Text × Text) → List (Text × NfService) → List (Text × NfService)
add_all context version [] services = services
add_all context version ((name, api) ∷ more) services =
    add_all context version more (put_service services name (service_of context version name api))

-- `AddNfServices`, where only converged charging has a version.
unfoldable pub add_nf_services :
    List (Text × NfService) → Text → ChfContext → List (Text × NfService)
add_nf_services services version context =
    add_all context version ((converged_charging, api_version) ∷ []) services

abbrev pub url_of : UriScheme → Text → ℕ → Text
url_of scheme ip port = scheme_text scheme ++ colon_slashes ++ ip ++ (b':' ∷ format_int port)

abbrev pub initial : Environment → Configuration → Sbi → Diameter → Diameter → ChfContext
initial env k s rf abmf = record {
  nf_id = get_nf_instance_id env.nf_instance_id env.is_uuid k;
  name = chf_name;
  url =
      url_of (scheme_of s.scheme) (text_or s.register_ipv4 default_ipv4)
        (number_or s.port sbi_default_port);
  uri_scheme = scheme_of s.scheme;
  binding_ipv4 = binding_of env.getenv s.binding_ipv4;
  register_ipv4 = text_or s.register_ipv4 default_ipv4;
  sbi_port = number_or s.port sbi_default_port;
  nf_service = [];
  nrf_uri = k.nrf_uri;
  nrf_cert_pem = k.nrf_cert_pem;
  rating_cfg = settings env.unix_time rf;
  abmf_cfg = settings env.unix_time abmf;
  rating_session_ids = (1, 2 ^ 32 - 1);
  account_session_ids = (1, 2 ^ 32 - 1);
}

abbrev pub with_services : Text → ChfContext → ChfContext
with_services version context = record context { nf_service = add_nf_services [] version context }

abbrev pub init_parts :
    Environment
    → Option Info
    → Configuration
    → Option Sbi
    → Option Diameter
    → Option Diameter
    → Option ChfContext
init_parts env (some info) k (some s) (some rf) (some abmf) =
    some (with_services info.version (initial env k s rf abmf))
init_parts env _ k _ _ _ = none

abbrev pub init_with : Environment → Option Info → Option Configuration → Option ChfContext
init_with env info none = none
init_with env info (some k) = init_parts env info k k.sbi k.rf_diameter k.abmf_diameter

-- `InitChfContext`, which panics where a part of the configuration is nil.
unfoldable pub init_chf_context : Environment → Config → Option ChfContext
init_chf_context env c = init_with env c.info c.configuration
