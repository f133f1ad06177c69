-- ===== src/Worker.antt =====
-- ingest/worker.py: one pending delivery is claimed, its events go through the pipeline, and it is
-- completed or failed. What a payload holds, the redaction of a text and the consumers that are
-- registered are parameters; metrics and logging are left out, and with them the dead letters.
pub mod Replay
pub mod Queue
pub mod Draining
use text.Mathlib.Text.{starts_with}
use wakey.Prelude.{
  Bool, List, Option, String, [], false, find_where, if◌then◌else◌, none, some, true, ℕ, ◌==◌, ◌∷◌,
}
use wakey.Models.{Delivery, Fingerprint, LogEvent, Service}
use wakey.Config.{ServiceYaml}
use wakey.Forge.{ForgePort, Reply, other_error, raised, returned}
use wakey.Exec.{pure, ◌>>=◌}
use wakey.Storage.Deliveries.{claim_next_delivery, complete_delivery, fail_delivery}
use wakey.Pipeline.{Step, handle_event}
use wakey.Redaction.{sanitize_log_event}
use wakey.Pipeline.State.{World}

-- `EventContext` of ingest/normalizers.py, with no `fallback_ts`
pub record EventContext : Type 0 where
  pub service : String
  pub environment : String
  pub source : String
  pub delivery_id : String

-- The world of the pipeline, and the deliveries table.
pub record Site (Remote : Type 0) : Type 0 where
  pub world : World Remote
  pub deliveries : List Delivery

module _ (port : ForgePort) (identify : LogEvent → Fingerprint)
    (parse_config : String → Option ServiceYaml)
    (parse_events : String → EventContext → List LogEvent) (redact : String → String)
    (handlers : String → Option (Delivery → Step port identify parse_config (Unit {0}))) where
  open port use {Remote}

  abbrev pub environment_of : String → World Remote → String
  environment_of name w = elim (find_where (λ (s : Service). s.name == name) w.services) [
    | none ↦ "prod"
    | some s ↦ s.environment
  ]

  abbrev pub context_of : Delivery → World Remote → EventContext
  context_of d w = record {
    service = d.service;
    environment = environment_of d.service w;
    source = "ingest";
    delivery_id = d.delivery_id;
  }

  -- the loop over the events of a delivery
  unfoldable pub dispatch : List LogEvent → Step port identify parse_config (Unit {0})
  unfolding sanitize_log_event ◌>>=◌
  dispatch [] = pure tt
  dispatch (event ∷ events) =
      let rest = dispatch events in
      handle_event port identify parse_config (sanitize_log_event redact event) >>= (λ _. rest)

  -- a delivery that no registered consumer takes
  unfoldable pub process_log : Delivery → Step port identify parse_config (Unit {0})
  unfolding dispatch
  process_log d w =
      if starts_with d.service "__"
      then (raised other_error, w)
      else dispatch (parse_events d.payload (context_of d w)) w

  -- `_process`
  unfoldable pub process : Delivery → Step port identify parse_config (Unit {0})
  unfolding process_log
  process d = elim (handlers d.service) [ some handler ↦ handler d | none ↦ process_log d ]

  -- The end of `process_next`: `complete_delivery`, or the `except` branch. A `KeyError` of
  -- `fail_delivery` is raised on.
  unfoldable pub finish :
      ℕ → ℕ → Delivery → Reply (Unit {0}) → World Remote → List Delivery → Reply Bool × Site Remote
  finish now max_attempts d (returned _) w rows = (
    returned true,
    record { world = w; deliveries = complete_delivery now d.service d.delivery_id rows },
  )
  finish now max_attempts d (raised exc) w rows =
      elim (fail_delivery now d.service d.delivery_id max_attempts rows) [
        | none ↦ (raised other_error, record { world = w; deliveries = rows })
        | some (rows', state) ↦ (returned true, record { world = w; deliveries = rows' })
      ]

  -- `process_next` behind the claim
  unfoldable pub after_claim :
      ℕ → ℕ → World Remote → List Delivery × Option Delivery → Reply Bool × Site Remote
  unfolding process finish
  after_claim now max_attempts w (rows, none) =
      (returned false, record { world = w; deliveries = rows })
  after_claim now max_attempts w (rows, some d) =
      let (reply, w') = process d w in finish now max_attempts d reply w' rows

  -- `process_next`, which claims at the first time and finishes at the second
  unfoldable pub process_next : ℕ → ℕ → ℕ → Site Remote → Reply Bool × Site Remote
  unfolding after_claim
  process_next claimed_at now max_attempts site =
      after_claim now max_attempts site.world (claim_next_delivery claimed_at site.deliveries)
