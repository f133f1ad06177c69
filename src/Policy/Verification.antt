-- ===== src/Policy/Verification.antt =====
-- policy/verification.py: did the merged fix help?
pub mod Grace
use wakey.Prelude.{Bool, String, eqb, if◌then◌else◌, not, ℕ}

pub data Verdict : Type 0 where
  success insufficient inconclusive : Verdict

abbrev pub verdict_value : Verdict → String
verdict_value success = "success"
verdict_value insufficient = "insufficient"
verdict_value inconclusive = "inconclusive"

pub record WatchInputs : Type 0 where
  pub occurrences_after_fix : ℕ
  pub grace_window_elapsed : Bool
  pub fix_deployed_to_environment : Bool
  pub reverted_by_human : Bool

unfoldable pub decide_verdict : WatchInputs → Verdict
decide_verdict watch =
    if watch.reverted_by_human
    then inconclusive
    else if not watch.fix_deployed_to_environment
    then inconclusive
    else if not watch.grace_window_elapsed
    then inconclusive
    else if eqb watch.occurrences_after_fix 0
    then success
    else insufficient
