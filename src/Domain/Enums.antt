-- ===== src/Domain/Enums.antt =====
-- src/schema_sentry/domain/enums.py, with the equality of each enumeration.
use schema_sentry.Prelude.{String, ◌≡◌, ◌↔◌, Bool, true, false, arith, Eq, ℕ_eq}

pub data ScanStatus : Type 0 where
  running completed failed : ScanStatus

pub data ScanTrigger : Type 0 where
  manual scheduled : ScanTrigger

pub data ChangeType : Type 0 where
  add_column drop_column type_change nullability_change : ChangeType

pub data Severity : Type 0 where
  info warning breaking : Severity

pub data ChangeState : Type 0 where
  open_state accepted resolved : ChangeState

pub data PipelineCriticality : Type 0 where
  low medium high critical : PipelineCriticality

pub data AlertChannel : Type 0 where
  slack email : AlertChannel

pub data AlertStatus : Type 0 where
  pending sent failed : AlertStatus

-- The text that a member of a StrEnum is.
abbrev pub change_type_value : ChangeType → String
change_type_value add_column = "ADD_COLUMN"
change_type_value drop_column = "DROP_COLUMN"
change_type_value type_change = "TYPE_CHANGE"
change_type_value nullability_change = "NULLABILITY_CHANGE"

abbrev pub severity_value : Severity → String
severity_value info = "INFO"
severity_value warning = "WARNING"
severity_value breaking = "BREAKING"

abbrev scan_status_test : ScanStatus → ScanStatus → Bool
scan_status_test running running = true
scan_status_test completed completed = true
scan_status_test ScanStatus.failed ScanStatus.failed = true
scan_status_test _ _ = false

pub scan_status_test_iff : (a b : ScanStatus) → (scan_status_test a b ≡ true) ↔ (a ≡ b)
scan_status_test_iff running running = ground arith
scan_status_test_iff running completed = ground arith
scan_status_test_iff running ScanStatus.failed = ground arith
scan_status_test_iff completed running = ground arith
scan_status_test_iff completed completed = ground arith
scan_status_test_iff completed ScanStatus.failed = ground arith
scan_status_test_iff ScanStatus.failed running = ground arith
scan_status_test_iff ScanStatus.failed completed = ground arith
scan_status_test_iff ScanStatus.failed ScanStatus.failed = ground arith

instance abbrev pub ScanStatus_eq : Eq ScanStatus
ScanStatus_eq = record { test = scan_status_test; test_iff = scan_status_test_iff }

abbrev change_type_test : ChangeType → ChangeType → Bool
change_type_test add_column add_column = true
change_type_test drop_column drop_column = true
change_type_test type_change type_change = true
change_type_test nullability_change nullability_change = true
change_type_test _ _ = false

pub change_type_test_iff : (a b : ChangeType) → (change_type_test a b ≡ true) ↔ (a ≡ b)
change_type_test_iff add_column add_column = ground arith
change_type_test_iff add_column drop_column = ground arith
change_type_test_iff add_column type_change = ground arith
change_type_test_iff add_column nullability_change = ground arith
change_type_test_iff drop_column add_column = ground arith
change_type_test_iff drop_column drop_column = ground arith
change_type_test_iff drop_column type_change = ground arith
change_type_test_iff drop_column nullability_change = ground arith
change_type_test_iff type_change add_column = ground arith
change_type_test_iff type_change drop_column = ground arith
change_type_test_iff type_change type_change = ground arith
change_type_test_iff type_change nullability_change = ground arith
change_type_test_iff nullability_change add_column = ground arith
change_type_test_iff nullability_change drop_column = ground arith
change_type_test_iff nullability_change type_change = ground arith
change_type_test_iff nullability_change nullability_change = ground arith

instance abbrev pub ChangeType_eq : Eq ChangeType
ChangeType_eq = record { test = change_type_test; test_iff = change_type_test_iff }

abbrev severity_test : Severity → Severity → Bool
severity_test info info = true
severity_test warning warning = true
severity_test breaking breaking = true
severity_test _ _ = false

pub severity_test_iff : (a b : Severity) → (severity_test a b ≡ true) ↔ (a ≡ b)
severity_test_iff info info = ground arith
severity_test_iff info warning = ground arith
severity_test_iff info breaking = ground arith
severity_test_iff warning info = ground arith
severity_test_iff warning warning = ground arith
severity_test_iff warning breaking = ground arith
severity_test_iff breaking info = ground arith
severity_test_iff breaking warning = ground arith
severity_test_iff breaking breaking = ground arith

instance abbrev pub Severity_eq : Eq Severity
Severity_eq = record { test = severity_test; test_iff = severity_test_iff }

abbrev change_state_test : ChangeState → ChangeState → Bool
change_state_test open_state open_state = true
change_state_test accepted accepted = true
change_state_test resolved resolved = true
change_state_test _ _ = false

pub change_state_test_iff : (a b : ChangeState) → (change_state_test a b ≡ true) ↔ (a ≡ b)
change_state_test_iff open_state open_state = ground arith
change_state_test_iff open_state accepted = ground arith
change_state_test_iff open_state resolved = ground arith
change_state_test_iff accepted open_state = ground arith
change_state_test_iff accepted accepted = ground arith
change_state_test_iff accepted resolved = ground arith
change_state_test_iff resolved open_state = ground arith
change_state_test_iff resolved accepted = ground arith
change_state_test_iff resolved resolved = ground arith

instance abbrev pub ChangeState_eq : Eq ChangeState
ChangeState_eq = record { test = change_state_test; test_iff = change_state_test_iff }

abbrev alert_channel_test : AlertChannel → AlertChannel → Bool
alert_channel_test slack slack = true
alert_channel_test email email = true
alert_channel_test _ _ = false

pub alert_channel_test_iff : (a b : AlertChannel) → (alert_channel_test a b ≡ true) ↔ (a ≡ b)
alert_channel_test_iff slack slack = ground arith
alert_channel_test_iff slack email = ground arith
alert_channel_test_iff email slack = ground arith
alert_channel_test_iff email email = ground arith

instance abbrev pub AlertChannel_eq : Eq AlertChannel
AlertChannel_eq = record { test = alert_channel_test; test_iff = alert_channel_test_iff }

abbrev alert_status_test : AlertStatus → AlertStatus → Bool
alert_status_test pending pending = true
alert_status_test sent sent = true
alert_status_test AlertStatus.failed AlertStatus.failed = true
alert_status_test _ _ = false

pub alert_status_test_iff : (a b : AlertStatus) → (alert_status_test a b ≡ true) ↔ (a ≡ b)
alert_status_test_iff pending pending = ground arith
alert_status_test_iff pending sent = ground arith
alert_status_test_iff pending AlertStatus.failed = ground arith
alert_status_test_iff sent pending = ground arith
alert_status_test_iff sent sent = ground arith
alert_status_test_iff sent AlertStatus.failed = ground arith
alert_status_test_iff AlertStatus.failed pending = ground arith
alert_status_test_iff AlertStatus.failed sent = ground arith
alert_status_test_iff AlertStatus.failed AlertStatus.failed = ground arith

instance abbrev pub AlertStatus_eq : Eq AlertStatus
AlertStatus_eq = record { test = alert_status_test; test_iff = alert_status_test_iff }

abbrev criticality_test : PipelineCriticality → PipelineCriticality → Bool
criticality_test low low = true
criticality_test medium medium = true
criticality_test high high = true
criticality_test critical critical = true
criticality_test _ _ = false

pub criticality_test_iff : (a b : PipelineCriticality) → (criticality_test a b ≡ true) ↔ (a ≡ b)
criticality_test_iff low low = ground arith
criticality_test_iff low medium = ground arith
criticality_test_iff low high = ground arith
criticality_test_iff low critical = ground arith
criticality_test_iff medium low = ground arith
criticality_test_iff medium medium = ground arith
criticality_test_iff medium high = ground arith
criticality_test_iff medium critical = ground arith
criticality_test_iff high low = ground arith
criticality_test_iff high medium = ground arith
criticality_test_iff high high = ground arith
criticality_test_iff high critical = ground arith
criticality_test_iff critical low = ground arith
criticality_test_iff critical medium = ground arith
criticality_test_iff critical high = ground arith
criticality_test_iff critical critical = ground arith

instance abbrev pub PipelineCriticality_eq : Eq PipelineCriticality
PipelineCriticality_eq = record { test = criticality_test; test_iff = criticality_test_iff }

abbrev pub criticality_value : PipelineCriticality → String
criticality_value low = "LOW"
criticality_value medium = "MEDIUM"
criticality_value high = "HIGH"
criticality_value critical = "CRITICAL"
