-- ===== src/Tickets.antt =====
-- tickets/lifecycle.py, and its pass `run_lifecycle` in core/composition.py: silent tickets are
-- closed. A detail names the times that its text renders in minutes.
pub mod Closing
use wakey.Prelude.{
  Bool, List, String, [], false, if◌then◌else◌, leb, none, some, true, ℕ, ◌*◌, ◌+◌, ◌<>◌, ◌∷◌,
}
use wakey.Models.{Fingerprint, WorkState, closed_auto, investigating, opened, reopened, second}
use wakey.Config.{ServiceYaml}
use wakey.Forge.{ForgePort, Reply}
use wakey.Exec.{gets, pure, ◌>>=◌, ◌>>◌}
use wakey.Storage.Fingerprints.{list_active_fingerprints}
use wakey.Pipeline.{ticket_ref}
use wakey.Pipeline.State.{World, audit_event, on_forge, read_clock, save}

pub data LifecycleAction : Type 0 where
  close reopen leave : LifecycleAction

-- `silent_for` and `active_for` hold the time of the last sighting and of the decision
pub data Detail : Type 0 where
  no_ticket recurred : Detail
  silent_for active_for : ℕ → ℕ → Detail
  settled : WorkState → Detail

pub record LifecycleDecision : Type 0 where
  pub action : LifecycleAction
  pub detail : Detail

-- `state in (OPEN, REOPENED, INVESTIGATING)`
abbrev pub is_watched : WorkState → Bool
is_watched opened = true
is_watched reopened = true
is_watched investigating = true
is_watched _ = false

abbrev pub is_closed_auto : WorkState → Bool
is_closed_auto closed_auto = true
is_closed_auto _ = false

abbrev pub decide_ticketed : Fingerprint → ℕ → ℕ → LifecycleDecision
decide_ticketed fp now grace_minutes =
    if is_watched fp.state
    then (if leb (fp.last_seen + grace_minutes * (60 * second)) now
        then record { action = close; detail = silent_for fp.last_seen now }
        else record { action = leave; detail = active_for fp.last_seen now })
    else if is_closed_auto fp.state
    then record { action = reopen; detail = recurred }
    else record { action = leave; detail = settled fp.state }

unfoldable pub decide : Fingerprint → ℕ → ℕ → LifecycleDecision
decide fp now grace_minutes = elim fp.ticket_url [
  | none ↦ record { action = leave; detail = no_ticket }
  | some _ ↦ decide_ticketed fp now grace_minutes
]

abbrev pub is_close : LifecycleAction → Bool
is_close close = true
is_close _ = false

module _ (port : ForgePort) (config_of : String → World (port.Remote) → ServiceYaml)
    (render : Detail → String) where
  -- the body of the loop for a ticket that is to be closed
  unfoldable pub close_silent :
      Fingerprint → Detail → World (port.Remote) → Reply (Unit {0}) × World (port.Remote)
  unfolding on_forge save audit_event ticket_ref ◌>>=◌
  close_silent fp detail = do
    on_forge (
        port.close_ticket (ticket_ref fp) (some ("auto-closed: " <> (render detail <> " (wakey)"))))
    save (record fp { state = closed_auto })
    audit_event (record {
      ts = 0;
      actor = "system";
      action = "ticket.auto_close";
      subject = "fp:" <> fp.fp_hash;
      details = ("detail", render detail) ∷ [];
    })

  -- the loop of `run_lifecycle`, at the time taken before it
  unfoldable pub lifecycle_over :
      ℕ → List Fingerprint → World (port.Remote) → Reply (Unit {0}) × World (port.Remote)
  unfolding close_silent ◌>>=◌
  lifecycle_over now [] = pure tt
  lifecycle_over now (fp ∷ fps) =
      let rest = lifecycle_over now fps in
      do
        config ← gets (config_of fp.service)
        let decision = decide fp now config.grace_minutes
        if is_close decision.action then close_silent fp decision.detail >> rest else rest

  unfoldable pub run_lifecycle : World (port.Remote) → Reply (Unit {0}) × World (port.Remote)
  unfolding lifecycle_over read_clock ◌>>=◌
  run_lifecycle = do
    now ← read_clock
    fps ← gets (λ w. list_active_fingerprints none w.counts.fingerprints)
    lifecycle_over now fps
