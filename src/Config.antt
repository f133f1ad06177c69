-- ===== src/Config.antt =====
-- core/config.py: the trust dial and one service's configuration. `confidence_floor` is a float in
-- [0, 1], and stands here in millionths; it is only compared.
use wakey.Prelude.{Bool, List, Option, String, [], false, none, ℕ}

pub data Autonomy : Type 0 where
  observe triage digest fix : Autonomy

abbrev pub autonomy_value : Autonomy → String
autonomy_value observe = "observe"
autonomy_value triage = "triage"
autonomy_value digest = "digest"
autonomy_value fix = "fix"

pub record ServiceYaml : Type 0 where
  pub path : String
  pub autonomy : Autonomy
  pub rate_per_min : ℕ
  pub immediate_count : ℕ
  pub grace_minutes : ℕ
  pub max_open_prs : ℕ
  pub max_tickets_per_hour : ℕ
  pub confidence_floor : ℕ
  pub allow_without_tests : Bool
  pub test_command : Option String
  pub redact : List String

-- `ServiceYaml()`
abbrev pub default_config : ServiceYaml
default_config = record {
  path = ".";
  autonomy = triage;
  rate_per_min = 5;
  immediate_count = 3;
  grace_minutes = 30;
  max_open_prs = 3;
  max_tickets_per_hour = 10;
  confidence_floor = 750000;
  allow_without_tests = false;
  test_command = none;
  redact = [];
}
