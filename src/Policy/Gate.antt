-- ===== src/Policy/Gate.antt =====
-- policy/gate.py: should this fingerprint wake anyone?
pub mod Laws
use wakey.Prelude.{
  Bool, Option, String, false, if◌then◌else◌, leb, ltb, none, some, str, true, ℕ, ◌<>◌,
}
use wakey.Models.{
  Fingerprint, WorkState, busy, closed_human, dropped, error, rank, severity_value, state_value,
}
use wakey.Config.{ServiceYaml}

-- `record_only` is `RECORD`, whose word is reserved here
pub data Action : Type 0 where
  wake record_only absorbed suppressed : Action

pub record Decision : Type 0 where
  pub action : Action
  pub reason : String

-- `state in (WorkState.DROPPED, WorkState.CLOSED_HUMAN)`
abbrev pub quieted_by_human : WorkState → Bool
quieted_by_human dropped = true
quieted_by_human closed_human = true
quieted_by_human _ = false

unfoldable pub wake_reason : Fingerprint → ServiceYaml → ℕ → Option String
wake_reason fingerprint config rate_in_window =
    if leb 4 (rank fingerprint.severity)
    then some "critical severity"
    else if leb config.immediate_count fingerprint.occurrences
    then some (
        "reached "
        <> str fingerprint.occurrences
        <> " occurrences (threshold "
        <> str config.immediate_count
        <> ")")
    else if leb config.rate_per_min rate_in_window
    then some (
        "burst: "
        <> str rate_in_window
        <> " errors in the rate window (cap "
        <> str config.rate_per_min
        <> ")")
    else none

unfoldable pub decide : Fingerprint → ServiceYaml → ℕ → Decision
unfolding wake_reason
decide fingerprint config rate_in_window =
    if ltb (rank fingerprint.severity) (rank error)
    then record {
      action = record_only;
      reason = severity_value fingerprint.severity <> " severity is below the error wake floor";
    }
    else if busy fingerprint.state
    then record {
      action = absorbed;
      reason = "work already in flight (" <> state_value fingerprint.state <> ")";
    }
    else if quieted_by_human fingerprint.state
    then record {
      action = suppressed;
      reason = "fingerprint was " <> state_value fingerprint.state <> " by a human";
    }
    else elim (wake_reason fingerprint config rate_in_window) [
      | some reason ↦ record { action = wake; reason = reason }
      | none ↦ record {
        action = record_only;
        reason = str fingerprint.occurrences <> "/" <> str config.immediate_count <> " occurrences";
      }
    ]
