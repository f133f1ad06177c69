-- ===== src/Models.antt =====
-- core/models.py: the data that every other part speaks. A timestamp is the number of microseconds
-- since the epoch; an enum's `value` is the text that the source gives it.
use wakey.Prelude.{Bool, List, Option, String, false, true, ℕ}

-- one second, in microseconds
abbrev pub second : ℕ
second = 1000000

pub data Severity : Type 0 where
  debug info warning error critical : Severity

abbrev pub severity_value : Severity → String
severity_value debug = "debug"
severity_value info = "info"
severity_value warning = "warning"
severity_value error = "error"
severity_value critical = "critical"

-- `Severity.rank`
abbrev pub rank : Severity → ℕ
rank debug = 0
rank info = 1
rank warning = 2
rank error = 3
rank critical = 4

-- `opened` is `OPEN`, whose word is reserved here
pub data WorkState : Type 0 where
  new opened queued_rca investigating awaiting_human fixing verifying : WorkState
  verified_closed closed_auto closed_human dropped reopened archived : WorkState

abbrev pub state_value : WorkState → String
state_value new = "new"
state_value opened = "open"
state_value queued_rca = "queued-rca"
state_value investigating = "investigating"
state_value awaiting_human = "awaiting-human"
state_value fixing = "fixing"
state_value verifying = "verifying"
state_value verified_closed = "verified-closed"
state_value closed_auto = "closed-auto"
state_value closed_human = "closed-human"
state_value dropped = "dropped"
state_value reopened = "reopened"
state_value archived = "archived"

-- `WorkState.busy`: membership in `_BUSY_STATES`
abbrev pub busy : WorkState → Bool
busy queued_rca = true
busy investigating = true
busy fixing = true
busy verifying = true
busy _ = false

pub record TraceFrame : Type 0 where
  pub path : String
  pub line : ℕ
  pub function : String

pub record LogEvent : Type 0 where
  pub id : String
  pub ts : ℕ
  pub service : String
  pub environment : String
  pub severity : Severity
  pub message : String
  pub source : String
  pub frames : List TraceFrame
  pub trace_id : Option String
  pub request_id : Option String
  pub attributes : List (String × String)

pub record Fingerprint : Type 0 where
  pub fp_hash : String
  pub service : String
  pub environment : String
  pub template : String
  pub frames : List TraceFrame
  pub severity : Severity
  pub first_seen : ℕ
  pub last_seen : ℕ
  pub occurrences : ℕ
  pub state : WorkState
  pub ticket_issue_id : Option String
  pub ticket_url : Option String
  pub commented_at_occurrences : ℕ
  pub last_comment_at : Option ℕ
  pub verification_started_at : Option ℕ
  pub verification_start_occurrences : ℕ
  pub chronic : Bool
  pub proposal_issue_id : Option String
  pub proposal_url : Option String
  pub proposal_branch : Option String
  pub reserved_at : Option ℕ
  pub fix_commit_sha : Option String

pub data DeliveryState : Type 0 where
  pending processing completed failed : DeliveryState

pub record Delivery : Type 0 where
  pub service : String
  pub delivery_id : String
  pub state : DeliveryState
  pub payload : String
  pub attempts : ℕ
  pub created_at : ℕ
  pub updated_at : ℕ

pub record DeployEvent : Type 0 where
  pub service : String
  pub environment : String
  pub sha : String
  pub deployed_at : ℕ

pub record Service : Type 0 where
  pub name : String
  pub repo : String
  pub path : String
  pub forge : String
  pub environment : String
  pub ingest_key_hash : String
  pub webhook_secret : Option String
  pub config_json : String

pub record AuditEvent : Type 0 where
  pub ts : ℕ
  pub actor : String
  pub action : String
  pub subject : String
  pub details : List (String × String)
