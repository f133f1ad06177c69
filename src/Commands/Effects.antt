-- ===== src/Commands/Effects.antt =====
-- What `drop` leaves for the policy.
use wakey.Prelude.{
  List, Option, String, ap, eq_refl, refl, some, take_chars, ℕ, ◌<>◌, ◌∙◌, ◌≡◌, ◌≢◌, arith,
}
use wakey.Config.{ServiceYaml}
use wakey.Models.{Fingerprint, dropped}
use wakey.Forge.{ForgePort, Reply}
use wakey.Exec.{pure, ◌>>=◌, ◌>>◌}
use wakey.Exec.Keeps.{Keeps, keeps_rules}
use wakey.Policy.Gate
use wakey.Policy.Gate.{Action}
use wakey.Storage.Events.{Counts}
use wakey.Storage.Fingerprints.{get_fingerprint}
use wakey.Storage.Fingerprints.Laws.{get-save, saved_row}
use wakey.Pipeline.{ticket_ref}
use wakey.Pipeline.Quiet.{decide_hushed}
use wakey.Pipeline.State.{World, save, on_forge}
use wakey.Commands.{Executors, WakeyCommand, cmd_drop}

module _ (port : ForgePort) (parse_config : String → Option ServiceYaml)
    (parse : String → Option WakeyCommand) (executors : Executors (port.Remote))
    (percent : ℕ → String) (authorized bot_logins : List String) where
  abbrev HasTables : Counts → World (port.Remote) → Type 0
  HasTables counts w = w.counts ≡ counts

  forge-HasTables :
      (counts : Counts) (A : Type 0) (call : port.Remote → Reply A × port.Remote)
      → Keeps (HasTables counts) (on_forge call)
  unfolding on_forge
  forge-HasTables counts A call = record { ends = λ w same. same }

  -- the forge does not see the row that is written first
  drop-counts :
      (fp : Fingerprint) (login : String) (w : World (port.Remote))
      → (cmd_drop port parse_config parse executors percent authorized bot_logins fp login
          w).1.counts
        ≡ (save (record fp { state = dropped }) w).1.counts
  unfolding cmd_drop save ◌>>=◌
  drop-counts fp login w =
      let counts = (save (record fp { state = dropped }) w).1.counts in
      let rest : Keeps (HasTables counts) (
          on_forge (
            port.close_ticket (ticket_ref fp) (
              some (
                "suppressed by @"
                <> (login <> " via `@wakey drop` — reversible with `@wakey reopen`"))))
          >> pure (
            "Fingerprint `" <> (take_chars 8 fp.fp_hash <> ("` dropped by @" <> (login <> "."))),
            "drop",
          )) =
        search (keeps_rules, forge-HasTables) in
      rest.ends (save (record fp { state = dropped }) w).1 refl

  -- After a drop the row of the fingerprint is such that the gate wakes no one for it, whatever its
  -- occurrences, the rate and the configuration, and also if the forge did not close the ticket.
  pub drop_silences :
      (fp row : Fingerprint) (login : String) (w : World (port.Remote)) (config : ServiceYaml)
      (rate : ℕ)
      → get_fingerprint fp.fp_hash w.counts.fingerprints ≡ some row
      → (row' : Fingerprint) × (get_fingerprint fp.fp_hash
            (cmd_drop port parse_config parse executors percent authorized bot_logins fp login
              w).1.counts.fingerprints
          ≡ some row')
        × (row'.state ≡ dropped)
        × ((Gate.decide row' config rate).action ≢ Action.wake)
  unfolding save
  drop_silences fp row login w config rate e =
      let row' = saved_row (record fp { state = dropped }) (some row) in
      (
        row',
        ap (λ (c : Counts). get_fingerprint fp.fp_hash c.fingerprints) (drop-counts fp login w)
            ∙ get-save fp.fp_hash (record fp { state = dropped }) w.counts.fingerprints
            ∙ rw (eq_refl fp.fp_hash, e) refl,
        refl,
        decide_hushed row' config rate (ground arith),
      )
