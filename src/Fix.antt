-- ===== src/Fix.antt =====
-- agents/fix.py: the eligibility gate, and the loops that let a proposer patch a workspace.
pub mod Gate
pub mod Loop
pub mod Proof
pub mod Delivery
pub mod Delivered
pub mod Refusals
pub mod Attempt
pub mod Executor
pub mod Reported
pub mod Guarded
use wakey.Prelude.{
  Bool, String, false, if◌then◌else◌, leb, ltb, not, str, true, ℕ, ◌&&◌, ◌<>◌, ◌==◌,
}
use wakey.Config.{Autonomy, autonomy_value, triage, digest, fix}

pub record Eligibility : Type 0 where
  pub allowed : Bool
  pub reason : String

-- The confidences are floats in [0, 1], and stand here in millionths.
pub record EligibilityInput : Type 0 where
  pub rca_class : String
  pub confidence : ℕ
  pub autonomy : Autonomy
  pub confidence_floor : ℕ
  pub open_prs : ℕ
  pub max_open_prs : ℕ
  pub chronic : Bool
  pub human_requested : Bool

abbrev pub is_fix : Autonomy → Bool
is_fix fix = true
is_fix _ = false

-- `autonomy in (Autonomy.TRIAGE, Autonomy.DIGEST)`
abbrev pub takes_requests : Autonomy → Bool
takes_requests triage = true
takes_requests digest = true
takes_requests _ = false

abbrev pub refuse : String → Eligibility
refuse reason = record { allowed = false; reason = reason }

-- `percent` prints a confidence with two decimals
unfoldable pub check_eligibility : (ℕ → String) → EligibilityInput → Eligibility
check_eligibility percent inputs =
    if not (inputs.rca_class == "code-fix")
    then refuse ("RCA class is " <> (inputs.rca_class <> ", not code-fix"))
    else if ltb inputs.confidence inputs.confidence_floor
    then refuse (
        "confidence "
        <> (percent inputs.confidence <> (" < floor " <> percent inputs.confidence_floor)))
    else if not (is_fix inputs.autonomy)
        && not (inputs.human_requested && takes_requests inputs.autonomy)
    then refuse
        ("autonomy is " <> (autonomy_value inputs.autonomy <> ", fix requires 'fix' or @wakey fix"))
    else if inputs.chronic && not inputs.human_requested
    then refuse "fingerprint is chronic — human ack required (VER-4)"
    else if leb inputs.max_open_prs inputs.open_prs
    then refuse (
        "open wakey PRs ("
        <> (str inputs.open_prs <> (") reached cap " <> str inputs.max_open_prs)))
    else record { allowed = true; reason = "eligible" }
