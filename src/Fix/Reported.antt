-- ===== src/Fix/Reported.antt =====
-- agents/fix_executor.py: the outcome of an attempt, on each of its paths.
use wakey.Prelude.{
  not, Bool, Option, String, eq_refl, false, inr, none, refl, some, true, ℕ, ◌∙◌, ◌≡◌, ◌⊎◌, ap, inl,
  sym, [], arith, if◌then◌else◌, ◌<>◌, ◌∷◌,
}
use wakey.Config.{ServiceYaml}
use wakey.Models.{opened, AuditEvent, Fingerprint, awaiting_human, fixing}
use wakey.Forge.{Failure, ForgePort, Reply, raised, returned}
use wakey.Exec.{bind_split, pure, try, handled, ◌>>=◌, ◌>>◌}
use wakey.Exec.Keeps.{Keeps, keeps_rules}
use wakey.Commands.{FixExecutionOutcome}
use wakey.Storage.Events.{Counts}
use wakey.Storage.Fingerprints.{get_fingerprint}
use wakey.Storage.Fingerprints.Laws.{get-save, saved_row}
use wakey.Pipeline.State.{World, audit_event, on_forge, save}
use wakey.Fix.Loop.{FixResult}
use wakey.Fix.Delivery.{ProposalPort, Texts, Delivered, deliver, published, undelivered}
use wakey.Fix.Attempt.{
  VerificationVerdict, audit_fix, failure_state, give_up, tell_blocked, after_delivery,
  after_verdict, on_verdict, failed_with, verified_by, verify_result, after_repair, run_attempt,
}
use wakey.Fix.Delivered.{IsBound, deliver-IsBound}
use wakey.Fix.Refusals.{is_set, is_untested}

module _ (port : ForgePort) (proposals : ProposalPort (port.Remote)) (number : String → Option ℕ)
    (texts : Texts) (exc_text : Failure → String)
    (verifier : Option (String → FixResult → Reply VerificationVerdict)) (fp : Fingerprint)
    (retry : Bool) where
  abbrev W : Type 0
  W = World (port.Remote)

  -- the outcome of an attempt, and the row of its fingerprint
  abbrev pub IsReported : FixExecutionOutcome → Counts → Type 0
  IsReported outcome counts =
      (row : Fingerprint) × (get_fingerprint fp.fp_hash counts.fingerprints ≡ some row)
      × (((outcome.stage ≡ "delivered") × (row.state ≡ awaiting_human))
          ⊎ ((row.state ≡ (if retry then awaiting_human else opened))
              × (row.proposal_branch ≡ fp.proposal_branch)))

  abbrev stop : W → Reply (Unit {0}) × W
  stop = give_up port proposals number texts exc_text true verifier fp retry

  gave_up : (outcome : FixExecutionOutcome) (w : W) → IsReported outcome (stop w).1.counts
  unfolding save
  gave_up outcome w =
      by_row (get_fingerprint fp.fp_hash w.counts.fingerprints)
        (get-save fp.fp_hash stopped w.counts.fingerprints ∙ rw (eq_refl fp.fp_hash) refl)
    where
      stopped : Fingerprint
      stopped = record fp {
        state = failure_state port proposals number texts exc_text true verifier retry;
      }

      by_row :
          (o : Option Fingerprint)
          → get_fingerprint fp.fp_hash (stop w).1.counts.fingerprints ≡ some (saved_row stopped o)
          → IsReported outcome (stop w).1.counts
      by_row none found = (stopped, found, inr (refl, refl))
      by_row (some row) found = (saved_row stopped (some row), found, inr (refl, refl))

  -- what ends with the tables as they were
  abbrev HasTables : Counts → W → Type 0
  HasTables counts w = w.counts ≡ counts

  forge-HasTables :
      (counts : Counts) (A : Type 0) (call : port.Remote → Reply A × port.Remote)
      → Keeps (HasTables counts) (on_forge call)
  unfolding on_forge
  forge-HasTables counts A call = record { ends = λ w same. same }

  audit-HasTables :
      (counts : Counts) (event : AuditEvent) → Keeps (HasTables counts) (audit_event event)
  unfolding audit_event
  audit-HasTables counts event = record { ends = λ w same. same }

  tell-HasTables :
      (counts : Counts) (has_ticket : Bool) (reason : String)
      → Keeps
          (HasTables counts)
          (tell_blocked port proposals number texts exc_text true verifier has_ticket fp reason)
  tell-HasTables counts false reason = search keeps_rules
  tell-HasTables counts true reason = search (keeps_rules, forge-HasTables)

  -- what comes behind a `give_up` and answers with an outcome
  stopped_with :
      {A : Type 0} (outcome : FixExecutionOutcome) (rest : W → Reply A × W) (w : W)
      → ((counts : Counts) → Keeps (HasTables counts) rest)
      → IsReported outcome (rest (stop w).1).1.counts
  stopped_with outcome rest w keeps =
      coe 1 0 (i. IsReported outcome ((keeps (stop w).1.counts).ends (stop w).1 refl i))
        (gave_up outcome w)

  -- the outcome of a call that has returned
  abbrev Reports : (W → Reply FixExecutionOutcome × W) → Type 0
  Reports call =
      (outcome : FixExecutionOutcome) (w last : W)
      → call w ≡ (returned outcome, last)
      → IsReported outcome last.counts

  delivery-Reports :
      (delivered : Delivered) (outcome : FixExecutionOutcome) (w last : W)
      → ((b commit url : String)
          → delivered ≡ published b commit url
          → IsBound port proposals number texts (record fp { chronic = false }) b url w)
      → after_delivery port proposals number texts exc_text true verifier fp retry delivered w
        ≡ (returned outcome, last)
      → IsReported outcome last.counts
  unfolding audit_event pure save ◌>>=◌
  delivery-Reports (undelivered reason) outcome w last bound e =
      coe 0 1 (i. IsReported outcome (e i).1.counts) (gave_up outcome w)
  delivery-Reports (published b commit url) outcome w last bound e =
      let (row, found, waits, branch, link) = bound b commit url refl in
      coe 0 1 (i. IsReported outcome (e i).1.counts)
        (row, found, inl (ap (λ (p : Reply FixExecutionOutcome × W). stage_of p.0) (sym e), waits))
    where
      stage_of : Reply FixExecutionOutcome → String
      stage_of (returned o) = o.stage
      stage_of (raised exc) = ""

  verdict-Reports :
      (summary base_ref reason : String) (untested : Bool) (result : FixResult)
      → Reports (
          after_verdict port proposals number texts exc_text true verifier fp summary retry untested
            result base_ref
            (reason, none))
  verdict-Reports summary base_ref reason untested result outcome w last e =
      let candidate = record fp { chronic = false } in
      let call =
        deliver port proposals number texts candidate result summary (some base_ref) reason
          untested in
      let (delivered, told, e1) =
        bind_split call (after_delivery port proposals number texts exc_text true verifier fp retry)
          w last outcome e in
      delivery-Reports delivered outcome (call w).1 last
        (λ b commit url same.
          (deliver-IsBound port proposals number texts candidate result summary reason
            (some base_ref) untested b commit url w (call w).1
            (ap (λ (r : Reply Delivered). (r, (call w).1)) (told ∙ ap returned same))).2)
        e1

  verdict-Stops :
      (verdict : VerificationVerdict) (reason : String) (outcome : FixExecutionOutcome) (w last : W)
      → on_verdict port proposals number texts exc_text true verifier fp retry verdict w
        ≡ (returned (reason, some outcome), last)
      → IsReported outcome last.counts
  unfolding audit_event ◌>>=◌ pure save
  verdict-Stops verdict reason outcome w last e = by_passed verdict.passed e
    where
      logged : W
      logged =
          (audit_event
            (record {
              ts = 0;
              actor = "agent";
              action = "fix.verify";
              subject = "fp:" <> fp.fp_hash;
              details =
                  ("verdict", if verdict.passed then "pass" else "block")
                  ∷ ("reason", verdict.reason)
                  ∷ ("usage", verdict.usage)
                  ∷ [];
            })
            w).1

      tell : W → Reply (Unit {0}) × W
      tell =
          tell_blocked port proposals number texts exc_text true verifier (is_set fp.ticket_url) fp
            verdict.reason

      blocked : String × Option FixExecutionOutcome
      blocked = (
        verdict.reason,
        some (
            failed_with port proposals number texts exc_text true verifier "failed"
              ("verifier flagged: " <> verdict.reason)),
      )

      by_passed :
          (passed : Bool)
          → (if passed then pure (verdict.reason, none) else (stop >> (tell >> pure blocked)))
              logged
            ≡ (returned (reason, some outcome), last)
          → IsReported outcome last.counts
      by_passed true e = ground arith
      by_passed false e =
          let (x, told, e1) =
            bind_split tell (λ x. pure blocked) (stop logged).1 last (reason, some outcome) e in
          coe 0 1 (i. IsReported outcome (e1 i).1.counts) (
            stopped_with outcome tell logged
              (λ counts. tell-HasTables counts (is_set fp.ticket_url) verdict.reason))

  -- an attempt that stops and writes the audit of it
  audited :
      (result : String) (outcome : FixExecutionOutcome) (w : W)
      → IsReported outcome
          (audit_fix port proposals number texts exc_text true verifier fp result
            (stop w).1).1.counts
  unfolding audit_fix audit_event save
  audited result outcome w = gave_up outcome w

  -- a verifier that stops the attempt
  stopping-Reports :
      (summary reason : String) (result : FixResult) (outcome : FixExecutionOutcome) (w last : W)
      → verify_result port proposals number texts exc_text true verifier fp summary result retry w
        ≡ (returned (reason, some outcome), last)
      → IsReported outcome last.counts
  unfolding verify_result pure
  stopping-Reports summary reason result outcome w last = by_verifier verifier
    where
      by_reply :
          (reply : Reply VerificationVerdict)
          → ((λ w. (reply, w))
                >>= on_verdict port proposals number texts exc_text true verifier fp retry)
              w
            ≡ (returned (reason, some outcome), last)
          → IsReported outcome last.counts
      by_reply (returned verdict) e = verdict-Stops verdict reason outcome w last e
      by_reply (raised exc) e = ground arith

      by_verifier :
          (model : Option (String → FixResult → Reply VerificationVerdict))
          → verified_by port proposals number texts exc_text true verifier model fp summary result
              retry w
            ≡ (returned (reason, some outcome), last)
          → IsReported outcome last.counts
      by_verifier none e = ground arith
      by_verifier (some verify) e = by_reply (verify summary result) e

  outcome_of : FixExecutionOutcome → Reply FixExecutionOutcome → FixExecutionOutcome
  outcome_of other (returned o) = o
  outcome_of other (raised exc) = other

  verified-Reports :
      (summary base_ref : String) (untested : Bool) (result : FixResult)
      → Reports (
          verify_result port proposals number texts exc_text true verifier fp summary result retry
          >>= after_verdict port proposals number texts exc_text true verifier fp summary retry
              untested result base_ref)
  unfolding pure outcome_of
  verified-Reports summary base_ref untested result outcome w last e =
      let (judged, told, e1) =
        bind_split verify
          (after_verdict port proposals number texts exc_text true verifier fp summary retry
            untested result base_ref)
          w last outcome e in
      by_judged judged told e1
    where
      verify : W → Reply (String × Option FixExecutionOutcome) × W
      verify =
          verify_result port proposals number texts exc_text true verifier fp summary result retry

      by_judged :
          (judged : String × Option FixExecutionOutcome)
          → (verify w).0 ≡ returned judged
          → after_verdict port proposals number texts exc_text true verifier fp summary retry
              untested result base_ref judged
              (verify w).1
            ≡ (returned outcome, last)
          → IsReported outcome last.counts
      by_judged (reason, none) told e1 =
          verdict-Reports summary base_ref reason untested result outcome (verify w).1 last e1
      by_judged (reason, some blocked) told e1 =
          coe 0 1 (i. IsReported (outcome_of blocked (e1 i).0) (e1 i).1.counts) (
            stopping-Reports summary reason result blocked w (verify w).1
              (ap (λ (r : Reply (String × Option FixExecutionOutcome)). (r, (verify w).1)) told))

  repaired-Reports :
      (summary base_ref : String) (untested : Bool) (result : FixResult)
      → Reports (
          after_repair port proposals number texts exc_text true verifier fp summary retry untested
            (result, base_ref))
  unfolding audit_fix audit_event save pure ◌>>=◌
  repaired-Reports summary base_ref untested result outcome w last e = by_ok result.ok e
    where
      by_ok :
          (ok : Bool)
          → (if not ok
                then (stop
                    >> (audit_fix port proposals number texts exc_text true verifier fp
                          ("fix-failed: " <> result.reason)
                        >> pure (
                            failed_with port proposals number texts exc_text true verifier "failed"
                              result.reason)))
                else (verify_result port proposals number texts exc_text true verifier fp summary
                      result retry
                    >>= after_verdict port proposals number texts exc_text true verifier fp summary
                        retry untested result base_ref))
              w
            ≡ (returned outcome, last)
          → IsReported outcome last.counts
      by_ok false e = coe 0 1 (i. IsReported outcome (e i).1.counts) (gave_up outcome w)
      by_ok true e = verified-Reports summary base_ref untested result outcome w last e

  -- An attempt of an executor that has a model returns an outcome, whatever the workspace, the fixer,
  -- the verifier and the forge do, exceptions included. Afterwards the fingerprint is stored, and
  -- either the outcome is "delivered" and the fingerprint waits for a human, or it is in the state of
  -- a failure (open, or waiting for a human after a retry) with the branch that it had when the
  -- attempt began.
  pub attempt-IsReported :
      (repair : W → Reply (FixResult × String) × W) (config : ServiceYaml) (summary : String)
      (w : W)
      → (outcome : FixExecutionOutcome) × ((run_attempt port proposals number texts exc_text true
            verifier repair fp config summary retry w).0
          ≡ returned outcome)
        × IsReported outcome
            (run_attempt port proposals number texts exc_text true verifier repair fp config summary
              retry w).1.counts
  unfolding run_attempt try pure audit_fix audit_event save ◌>>=◌
  attempt-IsReported repair config summary w = by_reply (tried reserved).0 (tried reserved).1 refl
    where
      reserved : W
      reserved = (save (record fp { state = fixing }) w).1

      after : FixResult × String → W → Reply FixExecutionOutcome × W
      after =
          after_repair port proposals number texts exc_text true verifier fp summary retry
            (is_untested config)

      tried : W → Reply FixExecutionOutcome × W
      tried = repair >>= after

      on_error : Failure → W → Reply FixExecutionOutcome × W
      on_error exc =
          stop
          >> (audit_fix port proposals number texts exc_text true verifier fp
                ("error: " <> exc_text exc)
              >> pure (
                  failed_with port proposals number texts exc_text true verifier "error"
                    ("fix execution error: " <> exc_text exc)))

      by_reply :
          (reply : Reply FixExecutionOutcome) (last : W)
          → tried reserved ≡ (reply, last)
          → (outcome : FixExecutionOutcome) × ((handled reply pure on_error last).0
              ≡ returned outcome)
            × IsReported outcome (handled reply pure on_error last).1.counts
      by_reply (returned outcome) last e =
          let ((result, base_ref), told, e1) = bind_split repair after reserved last outcome e in
          (
            outcome,
            refl,
            repaired-Reports summary base_ref (is_untested config) result outcome
                (repair reserved).1 last e1,
          )
      by_reply (raised exc) last e = (
        failed_with port proposals number texts exc_text true verifier "error"
            ("fix execution error: " <> exc_text exc),
        refl,
        gave_up
            (failed_with port proposals number texts exc_text true verifier "error"
              ("fix execution error: " <> exc_text exc))
            last,
      )
