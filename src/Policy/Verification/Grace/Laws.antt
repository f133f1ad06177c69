-- ===== src/Policy/Verification/Grace/Laws.antt =====
-- When a fix is said to have worked.
use wakey.Prelude.{List, some, ℕ, ◌+◌, ◌≡◌, ◌≤◌, Option, max, ◌*◌}
use wakey.Models.{DeployEvent, Fingerprint, second}
use wakey.Policy.Verification.Grace.Window.{IsSilent, OpensAt}
use wakey.Config.{ServiceYaml}
use wakey.Storage.Events.{EventRow}
use wakey.Storage.Deploys.{list_recent_deploys}
use wakey.Policy.Verification.{decide_verdict, Verdict}
use wakey.Policy.Verification.Grace.{effective_start, grace_inputs}

-- The window opened at `start`, of the 25 latest deploys of the service, and lasts three times the
-- grace minutes, at least an hour; it is over and silent.
pub record IsConfirmed (config : ServiceYaml) (deploys : List DeployEvent) (events : List EventRow)
    (now : ℕ) (fp : Fingerprint) (started start : ℕ) : Type 0 where
  pub begun : fp.verification_started_at ≡ some started
  pub opened_at : OpensAt fp started (list_recent_deploys fp.service 25 deploys) start
  pub elapsed : start + max (3 * config.grace_minutes) 60 * (60 * second) ≤ now
  pub silent : IsSilent fp started start now events

module _ (config : ServiceYaml) (deploys : List DeployEvent) (events : List EventRow) (now : ℕ)
    (fp : Fingerprint) where
  abbrev verdict : Verdict
  verdict = decide_verdict (grace_inputs config deploys events now fp)

  abbrev start_of : ℕ → Option ℕ
  start_of started = effective_start fp started (list_recent_deploys fp.service 25 deploys)
