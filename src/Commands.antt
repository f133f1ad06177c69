-- ===== src/Commands.antt =====
-- web/commands.py: the `@wakey` commands of an issue comment. `parse` is `parse_command`, whose regex
-- decides it; the executors are the callables that the composition injects. Metrics are left out.
pub mod Guard
pub mod Effects
use wakey.Prelude.{
  Bool, List, Option, String, [], any_where, false, find_where, if◌then◌else◌, join, map, none, not,
  some, str, take_chars, true, ℕ, ◌&&◌, ◌<>◌, ◌==◌, ◌∷◌,
}
use wakey.Config.{ServiceYaml, autonomy_value, default_config}
use wakey.Models.{Fingerprint, WorkState, closed_auto, closed_human, dropped, reopened, state_value}
use wakey.Forge.{ForgePort, Reply}
use wakey.Exec.{pure, gets, ◌>>=◌, ◌>>◌}
use wakey.Storage.Fingerprints.{get_fingerprint_by_issue}
use wakey.Storage.Services.{is_named}
use wakey.Pipeline.{ticket_ref}
use wakey.Pipeline.State.{World, audit_event, on_forge, save}
use wakey.Rca.{RcaResult, investigate}

pub record WakeyCommand : Type 0 where
  pub name : String
  pub argument : String
  pub raw : String

-- `FixExecutionOutcome` of agents/fix_executor.py
pub record FixExecutionOutcome : Type 0 where
  pub stage : String
  pub message : String
  pub url : String

abbrev pub unauthorized_reply : String
unauthorized_reply =
    "Only repo collaborators can direct wakey. Ask an admin to add your login to `WAKEY_AUTHORIZED_USERS`."

abbrev pub known_commands : List String
known_commands =
    "fix" ∷ "explain" ∷ "retry" ∷ "digest" ∷ "approve" ∷ "drop" ∷ "reopen" ∷ "status" ∷ []

abbrev pub unknown_reply : String
unknown_reply =
    "Unknown command. I understand: "
    <> (join ", " (map (λ name. "`@wakey " <> (name <> "`")) known_commands) <> ".")

-- `login in logins`
abbrev pub is_member : String → List String → Bool
is_member login logins = any_where (λ l. l == login) logins

-- the `closable` states of `_cmd_reopen`
abbrev pub is_closable : WorkState → Bool
is_closable closed_auto = true
is_closable closed_human = true
is_closable dropped = true
is_closable _ = false

-- `_render_status`
unfoldable pub render_status : Fingerprint → ServiceYaml → String
render_status fp config =
    "**Status** — state `"
    <> (state_value fp.state
        <> ("` · occurrences ×"
            <> (str fp.occurrences
                <> (" · chronic: "
                    <> ((if fp.chronic then "yes — autonomous fixes blocked" else "no")
                        <> ("\n\nService caps: ≤"
                            <> (str config.max_tickets_per_hour
                                <> (" tickets/h, autonomy `"
                                    <> (autonomy_value config.autonomy
                                        <> ("`, comment floor at ×"
                                            <> (str config.immediate_count <> ".")))))))))))

-- What the composition injects, over the world of one forge.
pub record Executors (Remote : Type 0) : Type 0 where
  pub rca : Option (Fingerprint → World Remote → Reply RcaResult × World Remote)
  pub fix_executor : Option (Fingerprint → World Remote → Reply FixExecutionOutcome × World Remote)
  pub retry_executor :
      Option (Fingerprint → String → World Remote → Reply FixExecutionOutcome × World Remote)
  pub digest_builder : Option (Fingerprint → World Remote → Reply String × World Remote)
  pub digest_approver :
      Option (String → String → World Remote → Reply FixExecutionOutcome × World Remote)

module _ (port : ForgePort) (parse_config : String → Option ServiceYaml)
    (parse : String → Option WakeyCommand) (executors : Executors (port.Remote))
    (percent : ℕ → String) (authorized bot_logins : List String) where
  abbrev pub Step : Type 0 → Type 0
  Step A = World (port.Remote) → Reply A × World (port.Remote)

  -- `_audit`; the log puts its own time in place of the event's `ts`
  unfoldable pub audit_command : String → WakeyCommand → String → String → Step (Unit {0})
  unfolding audit_event
  audit_command login command fp_hash action = audit_event (record {
    ts = 0;
    actor = "user:" <> login;
    action = "command." <> command.name;
    subject = "fp:" <> fp_hash;
    details = ("result", action) ∷ [];
  })

  -- `_service_config`
  abbrev pub config_of : String → World (port.Remote) → ServiceYaml
  config_of service w = elim (find_where (is_named service) w.services) [
    | none ↦ default_config
    | some stored ↦ elim (parse_config stored.config_json) [ none ↦ default_config | some c ↦ c ]
  ]

  unfoldable pub cmd_drop : Fingerprint → String → Step (String × String)
  unfolding save on_forge ◌>>=◌
  cmd_drop fp login = do
    save (record fp { state = dropped })
    on_forge (
        port.close_ticket (ticket_ref fp) (
          some (
            "suppressed by @"
            <> (login <> " via `@wakey drop` — reversible with `@wakey reopen`"))))
    pure (
      "Fingerprint `" <> (take_chars 8 fp.fp_hash <> ("` dropped by @" <> (login <> "."))),
      "drop",
    )

  unfoldable pub cmd_reopen : Fingerprint → Step (String × String)
  unfolding save on_forge ◌>>=◌
  cmd_reopen fp =
      if not (is_closable fp.state)
      then pure (
        "Ticket is `" <> (state_value fp.state <> "` — reopen applies to closed/dropped tickets."),
        "reopen-noop",
      )
      else (do
        save (record fp { state = reopened })
        on_forge (port.reopen_ticket (ticket_ref fp) none)
        pure ("Reopened — wakey is watching this fingerprint again.", "reopen"))

  unfoldable pub cmd_explain : Fingerprint → Step (String × String)
  unfolding ◌>>=◌
  cmd_explain fp = elim executors.rca [
    | none ↦ pure ("RCA agent is not available on this instance.", "explain-refused")
    | some investigate ↦ (do
      result ← investigate fp
      pure (
        "**Re-analysis** — class `"
            <> (result.classification
                <> ("` · confidence "
                    <> (percent result.confidence <> ("\n\n" <> result.summary)))),
        "explain",
      ))
  ]

  unfoldable pub cmd_status : Fingerprint → Step (String × String)
  unfolding render_status ◌>>=◌
  cmd_status fp = do config ← gets (config_of fp.service); pure (render_status fp config, "status")

  unfoldable pub cmd_fix : Fingerprint → Step (String × String)
  unfolding ◌>>=◌
  cmd_fix fp = elim executors.fix_executor [
    | none ↦ pure (
      "Fix execution is not available on this instance (no workspace runtime configured). See `@wakey status`.",
      "fix-refused",
    )
    | some execute ↦ (do outcome ← execute fp; pure (outcome.message, "fix-" <> outcome.stage))
  ]

  unfoldable pub cmd_retry : Fingerprint → String → Step (String × String)
  unfolding ◌>>=◌
  cmd_retry fp argument = elim executors.retry_executor [
    | none ↦ pure ("Fix retry is not available on this instance.", "retry-refused")
    | some retry ↦ (do
      outcome ← retry fp argument
      pure (outcome.message, "retry-" <> outcome.stage))
  ]

  unfoldable pub cmd_digest : Fingerprint → Step (String × String)
  unfolding ◌>>=◌
  cmd_digest fp = elim executors.digest_builder [
    | none ↦ pure ("Digest mode is not available on this instance.", "digest-refused")
    | some build ↦ (do text ← build fp; pure (text, "digest"))
  ]

  -- `_dispatch`, with its table of handlers as a chain of tests
  unfoldable pub dispatch : Fingerprint → WakeyCommand → String → Step (String × String)
  unfolding cmd_drop cmd_reopen cmd_explain cmd_status cmd_fix cmd_retry cmd_digest
  dispatch fp command login =
      if command.name == "drop"
      then cmd_drop fp login
      else if command.name == "reopen"
      then cmd_reopen fp
      else if command.name == "explain"
      then cmd_explain fp
      else if command.name == "status"
      then cmd_status fp
      else if command.name == "fix"
      then cmd_fix fp
      else if command.name == "retry"
      then cmd_retry fp command.argument
      else if command.name == "digest"
      then cmd_digest fp
      else if command.name == "approve"
      then pure (
        "Approval belongs on the daily Wakey digest issue, with a fingerprint argument.",
        "approve-refused",
      )
      else pure (unknown_reply, "unknown")

  -- the approval of a digest
  abbrev pub on_approval : String → String → WakeyCommand → Step (Option String)
  on_approval login issue_id command = elim executors.digest_approver [
    | none ↦ pure (some "Digest approval is not available on this instance.")
    | some approve ↦ (do
      outcome ← approve issue_id command.argument
      audit_command login command ("digest:" <> issue_id) ("approve-" <> outcome.stage)
      pure (some outcome.message))
  ]

  -- a command on an issue that is no ticket: only a digest can be approved there
  abbrev pub on_foreign : String → String → WakeyCommand → Step (Option String)
  on_foreign login issue_id command =
      if command.name == "approve" && is_member login authorized
      then on_approval login issue_id command
      else pure none

  abbrev pub permitted : String → WakeyCommand → Fingerprint → Step (Option String)
  permitted login command fp = do
    (reply, action) ← dispatch fp command login
    audit_command login command fp.fp_hash action
    pure (some reply)

  abbrev pub on_ticket : String → WakeyCommand → Fingerprint → Step (Option String)
  on_ticket login command fp =
      if not (is_member login authorized)
      then (do
        audit_command login command fp.fp_hash "unauthorized"
        pure (some unauthorized_reply))
      else permitted login command fp

  abbrev pub on_command : String → String → WakeyCommand → Option Fingerprint → Step (Option String)
  on_command login issue_id command none = on_foreign login issue_id command
  on_command login issue_id command (some fp) = on_ticket login command fp

  unfoldable pub routed : String → String → Option WakeyCommand → Step (Option String)
  unfolding audit_command dispatch get_fingerprint_by_issue ◌>>=◌
  routed login issue_id none w = pure none w
  routed login issue_id (some command) w =
      on_command login issue_id command (get_fingerprint_by_issue issue_id w.counts.fingerprints) w

  -- `_route`, which `handle_comment` calls
  unfoldable pub handle_comment : String → String → String → Step (Option String)
  unfolding routed
  handle_comment login issue_id body w =
      if is_member login bot_logins then pure none w else routed login issue_id (parse body) w
