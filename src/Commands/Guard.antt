-- ===== src/Commands/Guard.antt =====
-- Who may direct Wakey.
use wakey.Prelude.{
  Option, String, none, some, ℕ, List, false, ◌≡◌, refl, ◌⊎◌, inl, ◌<>◌, ◌++◌, ◌∷◌, [], Bool, arith,
  if◌then◌else◌, inr, not, true, ◌&&◌, ◌==◌,
}
use wakey.Config.{ServiceYaml}
use wakey.Models.{AuditEvent, Fingerprint}
use wakey.Forge.{ForgePort, Reply, returned}
use wakey.Pipeline.State.{World, audit_event}
use wakey.Exec.{pure, ◌>>=◌, ◌>>◌}
use wakey.Storage.Fingerprints.{get_fingerprint_by_issue}
use wakey.Pipeline.State.{World}
use wakey.Commands.{
  Executors, WakeyCommand, audit_command, handle_comment, is_member, on_approval, on_command,
  on_foreign, on_ticket, permitted, routed, unauthorized_reply,
}

-- The same tables, services, counters and forge, and at most one more line of the log, under the
-- name of the commenter.
abbrev pub IsOnlyLogged : {Remote : Type 0} → String → World Remote → World Remote → Type 0
IsOnlyLogged login w w' =
    (w'.counts ≡ w.counts)
    × (w'.services ≡ w.services)
    × (w'.remote ≡ w.remote)
    × ((w'.audit ≡ w.audit)
        ⊎ ((line : AuditEvent) × (w'.audit ≡ w.audit ++ line ∷ [])
            × (line.actor ≡ "user:" <> login)))

module _ (port : ForgePort) (parse_config : String → Option ServiceYaml)
    (parse : String → Option WakeyCommand) (executors : Executors (port.Remote))
    (percent : ℕ → String) (authorized bot_logins : List String) where
  -- The reply is silence or the refusal.
  abbrev pub IsRefused :
      String → World (port.Remote) → Reply (Option String) × World (port.Remote) → Type 0
  IsRefused login w result =
      ((result.0 ≡ returned none) ⊎ (result.0 ≡ returned (some unauthorized_reply)))
      × IsOnlyLogged login w result.1

  silence : (login : String) (w : World (port.Remote)) → IsRefused login w (returned none, w)
  silence login w = (inl refl, (refl, refl, refl, inl refl))

  foreign-IsRefused :
      (login issue_id : String) (command : WakeyCommand) (w : World (port.Remote))
      → is_member login authorized ≡ false
      → IsRefused login w (
          on_foreign port parse_config parse executors percent authorized bot_logins login issue_id
            command w)
  unfolding pure
  foreign-IsRefused login issue_id command w e =
      by_name (command.name == "approve") (is_member login authorized) e
    where
      by_name :
          (approve member : Bool)
          → member ≡ false
          → IsRefused login w (
              (if approve && member
                  then on_approval port parse_config parse executors percent authorized bot_logins
                      login issue_id command
                  else pure none)
                w)
      by_name true true e = ground arith
      by_name true false e = silence login w
      by_name false member e = silence login w

  ticket-IsRefused :
      (login : String) (command : WakeyCommand) (fp : Fingerprint) (w : World (port.Remote))
      → is_member login authorized ≡ false
      → IsRefused login w (
          on_ticket port parse_config parse executors percent authorized bot_logins login command fp
            w)
  unfolding audit_command audit_event pure ◌>>=◌
  ticket-IsRefused login command fp w e = by_member (is_member login authorized) e
    where
      by_member :
          (member : Bool)
          → member ≡ false
          → IsRefused login w (
              (if not member
                  then (do
                    audit_command port parse_config parse executors percent authorized bot_logins
                        login command fp.fp_hash "unauthorized"
                    pure (some unauthorized_reply))
                  else permitted port parse_config parse executors percent authorized bot_logins
                      login command fp)
                w)
      by_member true e = ground arith
      by_member false e = (
        inr refl,
        (
          refl,
          refl,
          refl,
          inr (
            record {
              ts = 0;
              actor = "user:" <> login;
              action = "command." <> command.name;
              subject = "fp:" <> fp.fp_hash;
              details = ("result", "unauthorized") ∷ [];
            },
            refl,
            refl,
          ),
        ),
      )

  -- A comment of someone who is not authorized changes no fingerprint, event, service or ticket,
  -- whatever it says: the answer is silence or the refusal, and at most a line of the audit log
  -- under the commenter's name remains.
  pub handle_unauthorized :
      (login issue_id body : String) (w : World (port.Remote))
      → is_member login authorized ≡ false
      → IsRefused login w (
          handle_comment port parse_config parse executors percent authorized bot_logins login
            issue_id body w)
  unfolding handle_comment routed pure
  handle_unauthorized login issue_id body w e =
      by_bot (is_member login bot_logins) (by_body (parse body))
    where
      by_fingerprint :
          (command : WakeyCommand) (o : Option Fingerprint)
          → IsRefused login w (
              on_command port parse_config parse executors percent authorized bot_logins login
                issue_id command o w)
      by_fingerprint command none = foreign-IsRefused login issue_id command w e
      by_fingerprint command (some fp) = ticket-IsRefused login command fp w e

      by_body :
          (o : Option WakeyCommand)
          → IsRefused login w (
              routed port parse_config parse executors percent authorized bot_logins login issue_id
                o w)
      by_body none = silence login w
      by_body (some command) =
          by_fingerprint command (get_fingerprint_by_issue issue_id w.counts.fingerprints)

      by_bot :
          (bot : Bool)
          → IsRefused login w (
              routed port parse_config parse executors percent authorized bot_logins login issue_id
                (parse body)
                w)
          → IsRefused login w (
              if bot
              then pure none w
              else routed port parse_config parse executors percent authorized bot_logins login
                  issue_id
                  (parse body)
                  w)
      by_bot true answer = silence login w
      by_bot false answer = answer
