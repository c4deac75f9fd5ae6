-- ===== src/Config/Getters.antt =====
-- The getters of pkg/factory/config.go, which are none where they dereference nil. `env` is
-- `os.Getenv`.
use chf.Base.{
  ℕ, zero, suc, ◌*◌, ◌^◌, ltb, Bool, false, [], ◌∷◌, ◌++◌, Option, none, some, if◌then◌else◌,
}
use chf.Base.Decimal.{Text, format_int}
use chf.Config.{Tls, Sbi, Metrics, Configuration, Config}

abbrev pub any_address : Text
any_address = b'0' ∷ b'.' ∷ b'0' ∷ b'.' ∷ b'0' ∷ b'.' ∷ b'0' ∷ []

abbrev pub https : Text
https = b'h' ∷ b't' ∷ b't' ∷ b'p' ∷ b's' ∷ []

abbrev pub http : Text
http = b'h' ∷ b't' ∷ b't' ∷ b'p' ∷ []

abbrev pub info_level : Text
info_level = b'i' ∷ b'n' ∷ b'f' ∷ b'o' ∷ []

abbrev pub sbi_default_port : ℕ
sbi_default_port = 8000

abbrev pub metrics_default_port : ℕ
metrics_default_port = 9091

abbrev metrics_default_namespace : Text
metrics_default_namespace = b'f' ∷ b'r' ∷ b'e' ∷ b'e' ∷ b'5' ∷ b'g' ∷ b'c' ∷ []

-- A text or a number that is set, or the default.
abbrev pub text_or : Text → Text → Text
text_or [] other = other
text_or (c ∷ s) other = c ∷ s

abbrev pub number_or : ℕ → ℕ → ℕ
number_or zero other = other
number_or (suc n) other = suc n

abbrev pub sbi_of : Option Configuration → Option Sbi
sbi_of none = none
sbi_of (some k) = k.sbi

abbrev pub metrics_of : Option Configuration → Option Metrics
metrics_of none = none
metrics_of (some k) = k.metrics

-- `GetNfHeartBeatTimer`, over an int32 pattern, with the default of the library.
unfoldable pub get_nf_heart_beat_timer : ℕ → Config → ℕ
get_nf_heart_beat_timer default_timer c = elim c.configuration [
  | none ↦ default_timer
  | some k ↦
      if ltb 0 k.nf_heart_beat_timer
      then if ltb k.nf_heart_beat_timer (2 ^ 31) then k.nf_heart_beat_timer else default_timer
      else default_timer
]

-- `GetNfInstanceId`, with the environment's value of CHF_NF_INSTANCE_ID and `uuid.Validate`.
unfoldable pub get_nf_instance_id : Text → (Text → Bool) → Configuration → Text
get_nf_instance_id [] is_uuid k = k.nf_instance_id
get_nf_instance_id (c ∷ id) is_uuid k = if is_uuid (c ∷ id) then c ∷ id else k.nf_instance_id

-- `GetVersion`
unfoldable pub get_version : Config → Option Text
get_version c = elim c.info [ none ↦ none | some info ↦ some info.version ]

-- `GetLogEnable`, `GetLogLevel` and `GetLogReportCaller`
unfoldable pub get_log_enable : Config → Bool
get_log_enable c = elim c.logger [ none ↦ false | some l ↦ l.enable ]

unfoldable pub get_log_level : Config → Text
get_log_level c = elim c.logger [ none ↦ info_level | some l ↦ l.level ]

unfoldable pub get_log_report_caller : Config → Bool
get_log_report_caller c = elim c.logger [ none ↦ false | some l ↦ l.report_caller ]

-- The address is the value of the variable that it names, or else the address itself.
abbrev pub binding : (Text → Text) → Text → Text
binding env [] = any_address
binding env (c ∷ ip) = text_or (env (c ∷ ip)) (c ∷ ip)

-- `GetSbiBindingIP`
unfoldable pub get_sbi_binding_ip : (Text → Text) → Config → Text
get_sbi_binding_ip env c = elim (sbi_of c.configuration) [
  | none ↦ any_address
  | some s ↦ binding env s.binding_ipv4
]

-- `GetSbiPort`
unfoldable pub get_sbi_port : Config → ℕ
get_sbi_port c = elim (sbi_of c.configuration) [
  | none ↦ sbi_default_port
  | some s ↦ number_or s.port sbi_default_port
]

-- `GetSbiBindingAddr`
unfoldable pub get_sbi_binding_addr : (Text → Text) → Config → Text
get_sbi_binding_addr env c = get_sbi_binding_ip env c ++ (b':' ∷ format_int (get_sbi_port c))

-- `GetSbiScheme`
unfoldable pub get_sbi_scheme : Config → Text
get_sbi_scheme c = elim (sbi_of c.configuration) [ none ↦ https | some s ↦ text_or s.scheme https ]

abbrev sbi_tls : Option Sbi → Option Tls
sbi_tls none = none
sbi_tls (some s) = s.tls

-- `GetCertPemPath` and `GetCertKeyPath`
unfoldable pub get_cert_pem_path : Config → Option Text
get_cert_pem_path c = elim (sbi_tls (sbi_of c.configuration)) [ none ↦ none | some t ↦ some t.pem ]

unfoldable pub get_cert_key_path : Config → Option Text
get_cert_key_path c = elim (sbi_tls (sbi_of c.configuration)) [ none ↦ none | some t ↦ some t.key ]

-- `AreMetricsEnabled`
unfoldable pub are_metrics_enabled : Config → Bool
are_metrics_enabled c = elim (metrics_of c.configuration) [ none ↦ false | some m ↦ m.enable ]

-- `GetMetricsScheme`
unfoldable pub get_metrics_scheme : Config → Text
get_metrics_scheme c = elim (metrics_of c.configuration) [
  | none ↦ https
  | some m ↦ text_or m.scheme https
]

-- `GetMetricsPort`
unfoldable pub get_metrics_port : Config → ℕ
get_metrics_port c = elim (metrics_of c.configuration) [
  | none ↦ metrics_default_port
  | some m ↦ number_or m.port metrics_default_port
]

-- `GetMetricsBindingIP`
unfoldable pub get_metrics_binding_ip : (Text → Text) → Config → Text
get_metrics_binding_ip env c = elim (metrics_of c.configuration) [
  | none ↦ any_address
  | some m ↦ binding env m.binding_ipv4
]

-- `GetMetricsBindingAddr`
unfoldable pub get_metrics_binding_addr : (Text → Text) → Config → Text
get_metrics_binding_addr env c =
    get_metrics_binding_ip env c ++ (b':' ∷ format_int (get_metrics_port c))

abbrev metrics_tls : Option Metrics → Option Tls
metrics_tls none = none
metrics_tls (some m) = m.tls

abbrev pem_of : Option Tls → Text
pem_of none = []
pem_of (some t) = t.pem

abbrev key_of : Option Tls → Text
key_of none = []
key_of (some t) = t.key

-- `GetMetricsCertPemPath` and `GetMetricsCertKeyPath`
unfoldable pub get_metrics_cert_pem_path : Config → Option Text
get_metrics_cert_pem_path c = elim c.configuration [
  | none ↦ none
  | some k ↦ some (pem_of (metrics_tls k.metrics))
]

unfoldable pub get_metrics_cert_key_path : Config → Option Text
get_metrics_cert_key_path c = elim c.configuration [
  | none ↦ none
  | some k ↦ some (key_of (metrics_tls k.metrics))
]

abbrev namespace_of : Option Metrics → Text
namespace_of none = metrics_default_namespace
namespace_of (some m) = text_or m.namespace metrics_default_namespace

-- `GetMetricsNamespace`
unfoldable pub get_metrics_namespace : Config → Option Text
get_metrics_namespace c = elim c.configuration [
  | none ↦ none
  | some k ↦ some (namespace_of k.metrics)
]

abbrev duration_or : Option ℕ → ℕ → ℕ
duration_or none other = other
duration_or (some d) other = d

-- `GetIdleTimeout`, `GetReadIdleTimeout` and `GetPingTimeout`, in nanoseconds
unfoldable pub get_idle_timeout : Config → ℕ
get_idle_timeout c = elim c.configuration [
  | none ↦ 10 ^ 6
  | some k ↦ duration_or k.idle_timeout (10 ^ 6)
]

unfoldable pub get_read_idle_timeout : Config → ℕ
get_read_idle_timeout c = elim c.configuration [
  | none ↦ 10 ^ 9
  | some k ↦ duration_or k.read_idle_timeout (10 ^ 9)
]

unfoldable pub get_ping_timeout : Config → ℕ
get_ping_timeout c = elim c.configuration [
  | none ↦ 2 * 10 ^ 9
  | some k ↦ duration_or k.ping_timeout (2 * 10 ^ 9)
]
