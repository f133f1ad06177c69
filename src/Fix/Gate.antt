-- ===== src/Fix/Gate.antt =====
-- Who may have a fix attempted.
use wakey.Prelude.{String, arith, eq_iff, false, true, ℕ, ◌<◌, ◌↔◌, ◌≡◌, ◌≤◌, ◌⊎◌}
use wakey.Config.{fix, triage, digest}
use wakey.Fix.{EligibilityInput, check_eligibility}

-- The conditions of the gate, all of them.
abbrev pub IsEligible : EligibilityInput → Type 0
IsEligible inputs =
    (inputs.rca_class ≡ "code-fix")
    × (inputs.confidence_floor ≤ inputs.confidence)
    × ((inputs.autonomy ≡ fix)
        ⊎ ((inputs.human_requested ≡ true)
            × ((inputs.autonomy ≡ triage) ⊎ (inputs.autonomy ≡ digest))))
    × ((inputs.chronic ≡ false) ⊎ (inputs.human_requested ≡ true))
    × (inputs.open_prs < inputs.max_open_prs)

-- The gate allows a fix exactly when the class is code-fix, the confidence reaches its floor, the
-- autonomy is fix, or triage or digest with a human's request, a chronic fingerprint has a human's
-- request, and the cap of open proposals is not reached.
pub allowed_iff :
    (percent : ℕ → String) (inputs : EligibilityInput)
    → ((check_eligibility percent inputs).allowed ≡ true) ↔ IsEligible inputs
unfolding check_eligibility
allowed_iff percent inputs =
    let literal = eq_iff inputs.rca_class "code-fix" in ground (arith, literal)
