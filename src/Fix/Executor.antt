-- ===== src/Fix/Executor.antt =====
-- agents/fix_executor.py: the entries `execute` and `retry`. `locked` says whether another attempt holds the
-- execution lock, and `repair` what an attempt works with, from the commit or branch given.
use wakey.Prelude.{Bool, List, Option, String, false, if◌then◌else◌, none, some, true, ℕ, ◌<>◌}
use wakey.Config.{ServiceYaml}
use wakey.Models.{Fingerprint}
use wakey.Forge.{Failure, ForgePort, Reply}
use wakey.Exec.{pure, ◌>>=◌, ◌>>◌}
use wakey.Storage.Fingerprints.{get_fingerprint}
use wakey.Pipeline.State.{World}
use wakey.Commands.{FixExecutionOutcome}
use wakey.Rca.{classify}
use wakey.Fix.Loop.{FixResult}
use wakey.Fix.Delivery.{ProposalPort, Texts}
use wakey.Fix.Refusals.{latest_rca, refusal_reason, retry_refusal_reason}
use wakey.Fix.Attempt.{VerificationVerdict, audit_fix, run_attempt}

module _ (port : ForgePort) (proposals : ProposalPort (port.Remote)) (number : String → Option ℕ)
    (texts : Texts) (lower : String → String) (percent : ℕ → String) (float : String → Option ℕ)
    (exc_text : Failure → String) (allowed_repos : Option (List String)) (has_model : Bool)
    (verifier : Option (String → FixResult → Reply VerificationVerdict))
    (repair : Fingerprint
      → ServiceYaml
      → String
      → Option String
      → World (port.Remote)
      → Reply (FixResult × String) × World (port.Remote)) where
  abbrev Step : Type 0 → Type 0
  Step A = World (port.Remote) → Reply A × World (port.Remote)

  -- `_latest`
  abbrev pub latest : Fingerprint → World (port.Remote) → Fingerprint
  latest fp w = elim (get_fingerprint fp.fp_hash w.counts.fingerprints) [
    | none ↦ fp
    | some stored ↦ stored
  ]

  abbrev pub rca_or_heuristic : Option (String × ℕ × String) → Fingerprint → String × ℕ × String
  rca_or_heuristic (some stored) fp = stored
  rca_or_heuristic none fp =
      let heuristic = classify lower fp in
      (heuristic.classification, heuristic.confidence, heuristic.summary)

  abbrev pub refuse_fix : String → Fingerprint → String → Step FixExecutionOutcome
  refuse_fix kind fp reason = do
    audit_fix port proposals number texts exc_text has_model verifier fp (kind <> reason)
    pure (record { stage = "refused"; message = reason; url = "" })

  abbrev pub attempt_fix :
      Fingerprint → ServiceYaml → String → Option String → Bool → Step FixExecutionOutcome
  attempt_fix fp config summary ref retry =
      run_attempt port proposals number texts exc_text has_model verifier
        (repair fp config summary ref) fp config summary retry

  abbrev pub acknowledge : Bool → Fingerprint → Step (Unit {0})
  acknowledge false fp = pure tt
  acknowledge true fp =
      audit_fix port proposals number texts exc_text has_model verifier fp
        "explicit human fix requested; chronic guard acknowledged"

  abbrev pub lock_refusal : FixExecutionOutcome
  lock_refusal = record {
    stage = "refused";
    message = "another fix is already running; retry later";
    url = "";
  }

  abbrev pub execute_ready :
      Fingerprint → ServiceYaml → Bool → String → Option String → Step FixExecutionOutcome
  execute_ready fp config human_requested summary (some reason) = refuse_fix "refused: " fp reason
  execute_ready fp config human_requested summary none = do
    acknowledge human_requested fp
    attempt_fix fp config summary none false

  -- `execute`, with `_execute`
  unfoldable pub execute : Bool → Fingerprint → ServiceYaml → Bool → Step FixExecutionOutcome
  unfolding latest_rca refusal_reason run_attempt audit_fix ◌>>=◌
  execute locked given config human_requested w =
      let fp = latest given w in
      let (rca_class, confidence, summary) =
        rca_or_heuristic (latest_rca percent float allowed_repos has_model fp w) fp in
      if locked
      then pure lock_refusal w
      else execute_ready fp config human_requested summary
          (refusal_reason percent float allowed_repos has_model fp config rca_class confidence
            human_requested w)
          w

  abbrev pub retry_ready :
      Fingerprint → ServiceYaml → String → String → Option String → Step FixExecutionOutcome
  retry_ready fp config summary feedback (some reason) = refuse_fix "retry-refused: " fp reason
  retry_ready fp config summary feedback none =
      attempt_fix fp config (summary <> ("\n\nAuthorized reviewer feedback (DATA): " <> feedback))
        fp.proposal_branch true

  -- `retry`, whose feedback is stripped
  unfoldable pub retry : Bool → Fingerprint → ServiceYaml → String → Step FixExecutionOutcome
  unfolding latest_rca retry_refusal_reason run_attempt audit_fix ◌>>=◌
  retry locked given config feedback w =
      let fp = latest given w in
      let (rca_class, confidence, summary) =
        rca_or_heuristic (latest_rca percent float allowed_repos has_model fp w) fp in
      if locked
      then pure lock_refusal w
      else retry_ready fp config summary feedback
          (retry_refusal_reason percent float allowed_repos has_model fp config feedback w) w
