-- ===== src/Policy/Watcher.antt =====
-- policy/watcher.py: one pass evaluates every fingerprint that is being verified, and applies the
-- verdict on the forge first and in the table then. The inputs come from an injected callable.
pub mod Verdicts
use wakey.Prelude.{
  Bool, List, Option, String, [], false, if◌then◌else◌, none, some, str, true, ℕ, ◌<>◌, ◌==◌, ◌∷◌,
}
use wakey.Models.{Fingerprint, WorkState, reopened, verified_closed, verifying}
use wakey.Forge.{ForgePort, Reply, TicketRef, returned}
use wakey.Exec.{pure, ◌>>=◌, ◌>>◌}
use wakey.Storage.Fingerprints.{list_active_fingerprints}
use wakey.Pipeline.State.{World, audit_event, on_forge, save}
use wakey.Policy.Verification.{
  Verdict, WatchInputs, decide_verdict, inconclusive, insufficient, success, verdict_value,
}

pub record WatchResult : Type 0 where
  pub fp_hash : String
  pub verdict : Verdict

abbrev pub is_verifying : WorkState → Bool
is_verifying verifying = true
is_verifying _ = false

-- the `updates` of `_apply`
abbrev pub settle_row : Verdict → Fingerprint → Fingerprint
settle_row success fp = record fp { state = verified_closed }
settle_row insufficient fp = record fp { state = reopened; chronic = true }
settle_row inconclusive fp = fp

-- `issue_id=fingerprint.ticket_issue_id or fingerprint.fp_hash`
abbrev pub issue_of : Fingerprint → String
issue_of fp = elim fp.ticket_issue_id [
  | none ↦ fp.fp_hash
  | some id ↦ if id == "" then fp.fp_hash else id
]

module _ (port : ForgePort)
    (grace : Fingerprint → World (port.Remote) → WatchInputs × World (port.Remote)) where
  abbrev pub Pass : Type 0 → Type 0
  Pass A = World (port.Remote) → Reply A × World (port.Remote)

  -- the effects on the forge, where there is a ticket
  unfoldable pub report : Verdict → TicketRef → ℕ → Pass (Unit {0})
  unfolding on_forge ◌>>=◌
  report success ticket occurrences = do
    on_forge (
        port.close_ticket ticket
          (some ("fix verified: " <> str occurrences <> " occurrences in grace window")))
    on_forge (port.add_label ticket "wakey-verified")
  report insufficient ticket occurrences = do
    on_forge (
        port.reopen_ticket ticket (
          some (
            "error recurred ×"
            <> str occurrences
            <> " after the fix — reopening; further autonomous fixes are blocked pending human review")))
    on_forge (port.add_label ticket "wakey-recurred")
  report inconclusive ticket occurrences = pure tt

  unfoldable pub report_if_ticketed : Option String → Fingerprint → Verdict → ℕ → Pass (Unit {0})
  unfolding report
  report_if_ticketed none fp verdict occurrences = pure tt
  report_if_ticketed (some url) fp verdict occurrences =
      report verdict (record { issue_id = issue_of fp; url = url }) occurrences

  -- `_apply`
  unfoldable pub apply : Fingerprint → Verdict → WatchInputs → Pass (Unit {0})
  unfolding report_if_ticketed save audit_event ◌>>=◌
  apply fp verdict watch = do
    report_if_ticketed fp.ticket_url fp verdict watch.occurrences_after_fix
    save (settle_row verdict fp)
    audit_event (record {
      ts = 0;
      actor = "system";
      action = "verify." <> verdict_value verdict;
      subject = "fp:" <> fp.fp_hash;
      details = ("occurrences", str watch.occurrences_after_fix) ∷ [];
    })

  -- the body of the loop, for a fingerprint in `verifying`
  unfoldable pub evaluate : Fingerprint → Pass WatchResult
  unfolding apply ◌>>=◌
  evaluate fp = do
    watch ← (λ w. let (watch, w') = grace fp w in (returned watch, w'))
    let verdict = decide_verdict watch
    apply fp verdict watch
    pure (record { fp_hash = fp.fp_hash; verdict = verdict })

  -- the loop of `run_once`; an exception ends the pass
  unfoldable pub run_over : List Fingerprint → Pass (List WatchResult)
  unfolding evaluate ◌>>=◌
  run_over [] = pure []
  run_over (fp ∷ fps) =
      let rest = run_over fps in
      if is_verifying fp.state
      then (do result ← evaluate fp; results ← rest; pure (result ∷ results))
      else rest

  unfoldable pub run_once : Pass (List WatchResult)
  unfolding run_over
  run_once w = run_over (list_active_fingerprints none w.counts.fingerprints) w
