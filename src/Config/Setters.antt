-- ===== src/Config/Setters.antt =====
-- The setters of pkg/factory/config.go, and those of pkg/service/init.go, which also set the log.
use chf.Base.{ℕ, ◌==◌, Bool, true, false, Option, none, some, if◌then◌else◌, not}
use chf.Base.Decimal.{Text}
use chf.Config.{Config}
use chf.Config.Getters.{info_level}

-- `SetLogEnable`
unfoldable pub set_log_enable : Config → Bool → Config
set_log_enable c enable = record c {
  logger = some (elim c.logger [
    | none ↦ record { enable = enable; level = info_level; report_caller = false }
    | some l ↦ record l { enable = enable }
  ]);
}

-- `SetLogLevel`
unfoldable pub set_log_level : Config → Text → Config
set_log_level c level = record c {
  logger = some (elim c.logger [
    | none ↦ record { enable = false; level = level; report_caller = false }
    | some l ↦ record l { level = level }
  ]);
}

-- `SetLogReportCaller`
unfoldable pub set_log_report_caller : Config → Bool → Config
set_log_report_caller c report_caller = record c {
  logger = some (elim c.logger [
    | none ↦ record { enable = false; level = info_level; report_caller = report_caller }
    | some l ↦ record l { report_caller = report_caller }
  ]);
}

-- Where the log goes.
pub data Output : Type 0 where
  stderr : Output
  discard : Output
  elsewhere : Output

-- The application: its configuration, and the log with the number of its level.
pub record ChfApp : Type 0 where
  pub cfg : Config
  pub out : Output
  pub level : ℕ
  pub report_caller : Bool

abbrev goes_to : Bool → Output → Bool
goes_to true stderr = true
goes_to false discard = true
goes_to enable out = false

-- `ChfApp.SetLogEnable`
unfoldable pub app_set_log_enable : ChfApp → Bool → ChfApp
app_set_log_enable a enable =
    if goes_to enable a.out
    then a
    else record a { cfg = set_log_enable a.cfg enable; out = if enable then stderr else discard }

-- `ChfApp.SetLogLevel`, with `logrus.ParseLevel`
unfoldable pub app_set_log_level : (Text → Option ℕ) → ChfApp → Text → ChfApp
app_set_log_level parse_level a level = elim (parse_level level) [
  | none ↦ a
  | some n ↦ if n == a.level then a else record a { cfg = set_log_level a.cfg level; level = n }
]

abbrev agree : Bool → Bool → Bool
agree true b = b
agree false b = not b

-- `ChfApp.SetReportCaller`
unfoldable pub app_set_report_caller : ChfApp → Bool → ChfApp
app_set_report_caller a report_caller =
    if agree report_caller a.report_caller
    then a
    else record a { cfg = set_log_report_caller a.cfg report_caller; report_caller = report_caller }
