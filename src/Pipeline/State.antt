-- ===== src/Pipeline/State.antt =====
-- The state that the pipeline works on: the tables, the counters, the clock and the forge.
use wakey.Prelude.{List, [], ℕ, ◌++◌, ◌+◌, ◌∷◌}
use wakey.Models.{AuditEvent, Fingerprint, Service}
use wakey.Forge.{Reply, returned}
use wakey.Windows.{Counters}
use wakey.Storage.Fingerprints.{save_fingerprint}
use wakey.Storage.Events.{Counts}

-- `clock n` is the clock's reading number `n`, and `reads` the number of readings made. `audit` is
-- the list of the events given to `record_audit`, oldest first.
pub record World (Remote : Type 0) : Type 0 where
  pub counts : Counts
  pub services : List Service
  pub audit : List AuditEvent
  pub counters : Counters
  pub ticket_counters : Counters
  pub remote : Remote
  pub clock : ℕ → ℕ
  pub reads : ℕ

module _ {Remote : Type 0} where
  -- `self._clock()`
  unfoldable pub read_clock : World Remote → Reply ℕ × World Remote
  read_clock w = (returned (w.clock w.reads), record w { reads = w.reads + 1 })

  -- a call of the forge
  unfoldable pub on_forge :
      {A : Type 0} → (Remote → Reply A × Remote) → World Remote → Reply A × World Remote
  on_forge call w = let (reply, remote) = call w.remote in (reply, record w { remote = remote })

  unfoldable pub save : Fingerprint → World Remote → Reply (Unit {0}) × World Remote
  save fp w = (
    returned tt,
    record w {
      counts = record (w.counts) { fingerprints = save_fingerprint fp w.counts.fingerprints };
    },
  )

  unfoldable pub audit_event : AuditEvent → World Remote → Reply (Unit {0}) × World Remote
  audit_event event w = (returned tt, record w { audit = w.audit ++ event ∷ [] })
