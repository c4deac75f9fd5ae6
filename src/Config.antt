-- ===== src/Config.antt =====
-- The configuration (pkg/factory/config.go): its types, what reads and sets it, and its validation.
pub mod Getters
pub mod Setters
pub mod Validate
pub mod Accepted
mod Tests
use chf.Base.{ℕ, Bool, List, Option}
use chf.Base.Decimal.{Text}

-- Integers, durations and floats are patterns of their bits; a nil pointer is none.
pub record Tls : Type 0 where
  pub pem : Text
  pub key : Text

pub record Sbi : Type 0 where
  pub scheme : Text
  pub register_ipv4 : Text
  pub binding_ipv4 : Text
  pub port : ℕ
  pub tls : Option Tls

pub record Metrics : Type 0 where
  pub enable : Bool
  pub scheme : Text
  pub binding_ipv4 : Text
  pub port : ℕ
  pub tls : Option Tls
  pub namespace : Text

pub record Mongodb : Type 0 where
  pub name : Text
  pub url : Text

pub record Diameter : Type 0 where
  pub protocol : Text
  pub host_ipv4 : Text
  pub port : ℕ
  pub tls : Option Tls

pub record Cgf : Type 0 where
  pub enable : Bool
  pub host_ipv4 : Text
  pub port : ℕ
  pub listen_port : ℕ
  pub start : ℕ
  pub end : ℕ
  pub tls : Option Tls
  pub cdr_file_path : Text

pub record Info : Type 0 where
  pub version : Text
  pub description : Text

pub record Logger : Type 0 where
  pub enable : Bool
  pub level : Text
  pub report_caller : Bool

pub record Configuration : Type 0 where
  pub read_idle_timeout : Option ℕ
  pub ping_timeout : Option ℕ
  pub idle_timeout : Option ℕ
  pub chf_name : Text
  pub nf_instance_id : Text
  pub sbi : Option Sbi
  pub metrics : Option Metrics
  pub service_name_list : List Text
  pub nrf_uri : Text
  pub nrf_cert_pem : Text
  pub mongodb : Option Mongodb
  pub volume_limit : ℕ
  pub volume_limit_pdu : ℕ
  pub reserve_quota_ratio : ℕ
  pub volume_threshold_rate : ℕ
  pub quota_validity_time : ℕ
  pub rf_diameter : Option Diameter
  pub abmf_diameter : Option Diameter
  pub cgf : Option Cgf
  pub nf_heart_beat_timer : ℕ

pub record Config : Type 0 where
  pub info : Option Info
  pub configuration : Option Configuration
  pub logger : Option Logger
