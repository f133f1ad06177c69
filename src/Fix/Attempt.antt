-- ===== src/Fix/Attempt.antt =====
-- agents/fix_executor.py: a fix attempt. The workspace with the fixers is a parameter, `repair`, and so
-- are the verifier's model and the texts of exceptions.
use wakey.Prelude.{
  Bool, Option, String, [], false, if◌then◌else◌, none, not, some, take_chars, true, ℕ, ◌<>◌, ◌∷◌,
}
use wakey.Config.{ServiceYaml}
use wakey.Models.{Fingerprint, WorkState, awaiting_human, fixing, opened}
use wakey.Forge.{Failure, ForgePort, Reply}
use wakey.Exec.{pure, try, ◌>>=◌, ◌>>◌}
use wakey.Pipeline.{ticket_ref}
use wakey.Pipeline.State.{World, audit_event, on_forge, save}
use wakey.Commands.{FixExecutionOutcome}
use wakey.Rca.{verdict}
use wakey.Fix.Loop.{FixResult}
use wakey.Fix.Delivery.{Delivered, ProposalPort, Texts, deliver, published, undelivered}
use wakey.Fix.Refusals.{is_untested, is_set}

-- `usage` is the text of its dictionary
pub record VerificationVerdict : Type 0 where
  pub passed : Bool
  pub reason : String
  pub usage : String

module _ (port : ForgePort) (proposals : ProposalPort (port.Remote)) (number : String → Option ℕ)
    (texts : Texts) (exc_text : Failure → String) (has_model : Bool)
    (verifier : Option (String → FixResult → Reply VerificationVerdict)) where
  abbrev pub Step : Type 0 → Type 0
  Step A = World (port.Remote) → Reply A × World (port.Remote)

  -- `_audit`
  unfoldable pub audit_fix : Fingerprint → String → Step (Unit {0})
  unfolding audit_event
  audit_fix fp result = audit_event (record {
    ts = 0;
    actor = "agent";
    action = "fix.execute";
    subject = "fp:" <> fp.fp_hash;
    details = ("result", take_chars 200 result) ∷ [];
  })

  abbrev pub failure_state : Bool → WorkState
  failure_state retry = if retry then awaiting_human else opened

  -- a failed attempt leaves the fingerprint in its failure state
  abbrev pub give_up : Fingerprint → Bool → Step (Unit {0})
  give_up fp retry = save (record fp { state = failure_state retry })

  abbrev pub failed_with : String → String → FixExecutionOutcome
  failed_with stage message = record { stage = stage; message = message; url = "" }

  abbrev pub tell_blocked : Bool → Fingerprint → String → Step (Unit {0})
  tell_blocked false fp reason = pure tt
  tell_blocked true fp reason = do
    on_forge (port.add_label (ticket_ref fp) "wakey/verifier-blocked")
    on_forge (port.add_comment (ticket_ref fp) ("Fix verifier blocked publication: " <> reason))

  abbrev pub on_verdict :
      Fingerprint → Bool → VerificationVerdict → Step (String × Option FixExecutionOutcome)
  on_verdict fp retry verdict = do
    audit_event (record {
      ts = 0;
      actor = "agent";
      action = "fix.verify";
      subject = "fp:" <> fp.fp_hash;
      details =
          ("verdict", if verdict.passed then "pass" else "block")
          ∷ ("reason", verdict.reason)
          ∷ ("usage", verdict.usage)
          ∷ [];
    })
    if verdict.passed then pure (verdict.reason, none) else (do
      give_up fp retry
      tell_blocked (is_set fp.ticket_url) fp verdict.reason
      pure (verdict.reason, some (failed_with "failed" ("verifier flagged: " <> verdict.reason))))

  abbrev pub verified_by :
      Option (String → FixResult → Reply VerificationVerdict)
      → Fingerprint
      → String
      → FixResult
      → Bool
      → Step (String × Option FixExecutionOutcome)
  verified_by none fp summary result retry =
      pure ("verifier disabled in this explicitly injected test executor", none)
  verified_by (some verify) fp summary result retry = do
    verdict ← (λ w. (verify summary result, w))
    on_verdict fp retry verdict

  -- `_verify_result`
  unfoldable pub verify_result :
      Fingerprint → String → FixResult → Bool → Step (String × Option FixExecutionOutcome)
  unfolding audit_event save on_forge ◌>>=◌
  verify_result fp summary result retry = verified_by verifier fp summary result retry

  abbrev pub after_delivery : Fingerprint → Bool → Delivered → Step FixExecutionOutcome
  after_delivery fp retry (undelivered reason) = do
    give_up fp retry
    pure (failed_with "failed" reason)
  after_delivery fp retry (published branch commit url) = do
    audit_event (record {
      ts = 0;
      actor = "agent";
      action = if retry then "fix.retry.delivered" else "fix.delivered";
      subject = "fp:" <> fp.fp_hash;
      details = ("url", url) ∷ ("branch", branch) ∷ [];
    })
    pure (record {
      stage = "delivered";
      message =
          if retry
          then "Updated the existing draft proposal from reviewer feedback: " <> url
          else "Draft fix proposal published for review: " <> url;
      url = url;
    })

  abbrev pub after_verdict :
      Fingerprint
      → String
      → Bool
      → Bool
      → FixResult
      → String
      → String × Option FixExecutionOutcome
      → Step FixExecutionOutcome
  after_verdict fp summary retry untested result base_ref (reason, some blocked) = pure blocked
  after_verdict fp summary retry untested result base_ref (reason, none) = do
    delivered ←
        deliver port proposals number texts (record fp { chronic = false }) result summary
          (some base_ref) reason untested
    after_delivery fp retry delivered

  abbrev pub after_repair :
      Fingerprint → String → Bool → Bool → FixResult × String → Step FixExecutionOutcome
  after_repair fp summary retry untested (result, base_ref) =
      if not result.ok
      then (do
        give_up fp retry
        audit_fix fp ("fix-failed: " <> result.reason)
        pure (failed_with "failed" result.reason))
      else (do
        verdict ← verify_result fp summary result retry
        after_verdict fp summary retry untested result base_ref verdict)

  -- `_run_attempt`; `repair` prepares the workspace, runs the fixer and gives its result, with the
  -- path of the service in front of its files, and the commit that it started from. The clean-up of the
  -- workspace in the end, which ignores errors, is left out.
  unfoldable pub run_attempt :
      Step (FixResult × String)
      → Fingerprint
      → ServiceYaml
      → String
      → Bool
      → Step FixExecutionOutcome
  unfolding audit_fix verify_result save audit_event try ◌>>=◌
  run_attempt repair fp config summary retry =
      if not has_model then pure (failed_with "refused" "no AI model configured") else (do
        save (record fp { state = fixing })
        try (repair >>= after_repair fp summary retry (is_untested config)) pure (λ exc. do
          give_up fp retry
          audit_fix fp ("error: " <> exc_text exc)
          pure (failed_with "error" ("fix execution error: " <> exc_text exc))))
