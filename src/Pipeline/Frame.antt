-- ===== src/Pipeline/Frame.antt =====
-- What every effect of the policy keeps, the whole policy keeps.
use wakey.Prelude.{Bool, Option, String, none, some, true, ℕ}
use wakey.Models.{AuditEvent, Fingerprint, LogEvent}
use wakey.Config.{ServiceYaml}
use wakey.Forge.{ForgePort, Reply, TicketRef, Failure}
use wakey.Policy.Gate.{Action}
use wakey.Exec.Keeps.{Keeps, keeps_rules}
use wakey.Pipeline.State.{World, audit_event, on_forge, read_clock, save}
use wakey.Pipeline.{
  bind_ticket, count_attempt, count_rate, rearm, reconcile_remote_ticket,
  recover_interrupted_reservation, act, after_failed_create, create_reserved, create_ticket,
  update_ticket, comment_open, policy, reopen_closed, take_back, wake_ticket, after_create,
  reconcile_failure,
}

module _ (port : ForgePort) (identify : LogEvent → Fingerprint)
    (parse_config : String → Option ServiceYaml) (P : World (port.Remote) → Type 0)
    (save-P : (fp : Fingerprint) → Keeps P (save fp))
    (audit-P : (event : AuditEvent) → Keeps P (audit_event event)) (clock-P : Keeps P read_clock)
    (attempt-P : (key : String) (now : ℕ)
      → Keeps P (count_attempt port identify parse_config key now))
    (rate-P : (key : String) (now : ℕ) → Keeps P (count_rate port identify parse_config key now))
    (forge-P : (A : Type 0) (call : port.Remote → Reply A × port.Remote)
      → Keeps P (on_forge call)) where
  reconcile-P : (fp : Fingerprint) → Keeps P (reconcile_remote_ticket port identify parse_config fp)
  unfolding reconcile_remote_ticket
  reconcile-P fp = search keeps_rules

  bind-P :
      (fp : Fingerprint) (ref : TicketRef) (reason : String) (b : Bool)
      → Keeps P (bind_ticket port identify parse_config fp ref reason b)
  unfolding bind_ticket
  bind-P fp ref reason b = search keeps_rules

  rearm-P :
      (fp : Fingerprint) (found : Option TicketRef)
      → Keeps P (rearm port identify parse_config fp found)
  unfolding rearm
  rearm-P fp none = search keeps_rules
  rearm-P fp (some ref) = bind-P fp ref "recovered interrupted ticket creation" true

  take_back-P :
      (r : Option ℕ) (fp : Fingerprint) → Keeps P (take_back port identify parse_config r fp)
  unfolding take_back
  take_back-P none fp = search keeps_rules
  take_back-P (some at) fp = search (keeps_rules, reconcile-P, rearm-P)

  failed-P :
      (stored reserved : Fingerprint) (reason : String) (exc : Failure) (found : Option TicketRef)
      → Keeps P (after_failed_create port identify parse_config stored reserved reason exc found)
  unfolding after_failed_create
  failed-P stored reserved reason exc none = search keeps_rules
  failed-P stored reserved reason exc (some ref) = search (keeps_rules, bind-P)

  after_create-P :
      (stored reserved : Fingerprint) (reason : String) (ref : TicketRef)
      → Keeps P (after_create port identify parse_config stored reserved reason ref)
  unfolding after_create
  after_create-P stored reserved reason ref = search (keeps_rules, bind-P)

  reconcile_failure-P :
      (stored reserved : Fingerprint) (reason : String) (exc : Failure)
      → Keeps P (reconcile_failure port identify parse_config stored reserved reason exc)
  unfolding reconcile_failure
  reconcile_failure-P stored reserved reason exc = search (keeps_rules, failed-P, reconcile-P)

  create_reserved-P :
      (stored reserved : Fingerprint) (reason : String)
      → Keeps P (create_reserved port identify parse_config stored reserved reason)
  unfolding create_reserved
  create_reserved-P stored reserved reason =
      search (keeps_rules, after_create-P, reconcile_failure-P)

  create-P :
      (stored : Fingerprint) (config : ServiceYaml) (reason : String)
      → Keeps P (create_ticket port identify parse_config stored config reason)
  unfolding create_ticket
  create-P stored config reason = search (keeps_rules, create_reserved-P)

  reopen-P : (stored : Fingerprint) → Keeps P (reopen_closed port identify parse_config stored)
  unfolding reopen_closed
  reopen-P stored = search keeps_rules

  comment-P : (stored : Fingerprint) → Keeps P (comment_open port identify parse_config stored)
  unfolding comment_open
  comment-P stored = search keeps_rules

  update-P : (stored : Fingerprint) → Keeps P (update_ticket port identify parse_config stored)
  unfolding update_ticket
  update-P stored = search (keeps_rules, reopen-P, comment-P)

  wake-P :
      (url : Option String) (stored : Fingerprint) (config : ServiceYaml) (reason : String)
      → Keeps P (wake_ticket port identify parse_config url stored config reason)
  unfolding wake_ticket
  wake-P none stored config reason = create-P stored config reason
  wake-P (some _) stored config reason = update-P stored

  act-P :
      (action : Action) (reason : String) (stored : Fingerprint) (config : ServiceYaml)
      → Keeps P (act port identify parse_config action reason stored config)
  unfolding act
  act-P Action.wake reason stored config = wake-P stored.ticket_url stored config reason
  act-P _ reason stored config = search keeps_rules

  -- Before the event is journaled, the policy keeps whatever each of its effects keeps.
  pub policy-P :
      (event : LogEvent) (stored : Fingerprint)
      → Keeps P (policy port identify parse_config event stored)
  unfolding policy recover_interrupted_reservation
  policy-P event stored = search (keeps_rules, take_back-P, act-P)
