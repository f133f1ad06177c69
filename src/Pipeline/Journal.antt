-- ===== src/Pipeline/Journal.antt =====
-- The dispatch journal: an event that was handled is handled once.
use wakey.Prelude.{List, Option, String, refl, true, ◌≡◌, Bool, false, if◌then◌else◌}
use wakey.Models.{Fingerprint, LogEvent}
use wakey.Config.{ServiceYaml}
use wakey.Forge.{ForgePort, Reply, returned, raised}
use wakey.Exec.{go_on, pure, ◌>>=◌, ◌>>◌}
use wakey.Exec.Keeps.{Keeps}
use wakey.Storage.Fingerprints.{get_fingerprint}
use wakey.Storage.Events.{EventRow, claim_event, is_counted, is_event_dispatched}
use wakey.Storage.Events.Counting.{
  claim_counted, KeepsRow, claim-KeepsRow, claimed_counted, dispatched-claim, mark_lem,
}
use wakey.Storage.Events.Occurrences.{occurrences_of}
use wakey.Pipeline.State.{World, audit_event, on_forge, read_clock, save}
use wakey.Pipeline.Frame.{policy-P}
use wakey.Pipeline.{
  Result, apply_policy, count_attempt, count_rate, handle_event, policy, journal, Outcome, absorb,
}

module _ (port : ForgePort) (identify : LogEvent → Fingerprint)
    (parse_config : String → Option ServiceYaml) where
  abbrev pub handle : LogEvent → World (port.Remote) → Reply Result × World (port.Remote)
  handle = handle_event port identify parse_config

  -- The policy leaves the events table alone.
  pub policy-events :
      (rows : List EventRow) (event : LogEvent) (stored : Fingerprint)
      → Keeps
          (λ (w : World (port.Remote)). w.counts.events ≡ rows)
          (policy port identify parse_config event stored)
  unfolding save audit_event read_clock count_attempt count_rate on_forge
  policy-events rows =
      policy-P port identify parse_config (λ (w : World (port.Remote)). w.counts.events ≡ rows)
        (λ fp. record { ends = λ w h. h }) (λ event. record { ends = λ w h. h })
        (record { ends = λ w h. h }) (λ key now. record { ends = λ w h. h })
        (λ key now. record { ends = λ w h. h }) (λ A call. record { ends = λ w h. h })

  -- the world behind a claim
  abbrev pub claimed : LogEvent → World (port.Remote) → World (port.Remote)
  claimed event w = record w { counts = (claim_event event (identify event) w.counts).0 }

  abbrev Settled : LogEvent → World (port.Remote) → Type 0
  Settled event w =
      (is_event_dispatched event.id w.counts.events ≡ true)
      × (is_counted event.id w.counts.events ≡ true)

  journal_reply :
      (event : LogEvent) (reply : Reply Result) (w : World (port.Remote)) (r : Result)
      → is_counted event.id w.counts.events ≡ true
      → (go_on reply (λ result. journal port identify parse_config event.id >> pure result) w).0
        ≡ returned r
      → Settled event
          (go_on reply (λ result. journal port identify parse_config event.id >> pure result) w).1
  unfolding journal ◌>>=◌
  journal_reply event (returned result) w r counted e = mark_lem event.id w.counts.events counted
  journal_reply event (raised exc) w r counted e = cc

  journaled :
      (event : LogEvent) (stored : Fingerprint) (w : World (port.Remote)) (r : Result)
      → is_counted event.id w.counts.events ≡ true
      → (apply_policy port identify parse_config event stored w).0 ≡ returned r
      → Settled event (apply_policy port identify parse_config event stored w).1
  unfolding apply_policy
  journaled event stored w r counted e =
      let same = (policy-events w.counts.events event stored).ends w refl in
      let (reply, w') = policy port identify parse_config event stored w in
      journal_reply event reply w' r (rw same counted) e

  settle :
      (b : Bool) (event : LogEvent) (stored : Fingerprint) (known : Result)
      (w : World (port.Remote)) (r : Result)
      → is_counted event.id w.counts.events ≡ true
      → is_event_dispatched event.id w.counts.events ≡ b
      → ((if b then pure known else apply_policy port identify parse_config event stored) w).0
        ≡ returned r
      → Settled event
          ((if b then pure known else apply_policy port identify parse_config event stored) w).1
  unfolding pure
  settle true event stored known w r counted d e = (d, counted)
  settle false event stored known w r counted d e = journaled event stored w r counted e

  -- If an event is handled without an exception, it is journaled as dispatched and counted.
  pub handle-Settled :
      (event : LogEvent) (w : World (port.Remote)) (r : Result)
      → (handle event w).0 ≡ returned r
      → Settled event (handle event w).1
  unfolding handle_event
  handle-Settled event w r e =
      settle (is_event_dispatched event.id (claimed event w).counts.events) event
        (claim_event event (identify event) w.counts).1
        (absorb port identify parse_config (claim_event event (identify event) w.counts).1
          "event already dispatched — policy applied")
        (claimed event w) r (claimed_counted event (identify event) w.counts) refl e

  -- An event that is dispatched already is absorbed: nothing but the tables of the claim is touched.
  pub handle_dispatched :
      (event : LogEvent) (w : World (port.Remote))
      → is_event_dispatched event.id w.counts.events ≡ true
      → handle event w ≡ (
        returned (
            absorb port identify parse_config
              (claim_event event (identify event) w.counts).1
              "event already dispatched — policy applied"),
        claimed event w,
      )
  unfolding handle_event
  handle_dispatched event w d = rw (dispatched-claim event (identify event) w.counts d)

  -- No effect but on what rows were last seen with: nothing on the forge, in the audit log, in the
  -- counters or in the events; no clock is read; no fingerprint has another number of occurrences (a
  -- row that is new has none), and each row that was there keeps everything but its template, frames,
  -- severity and time last seen, so also its state and its ticket.
  pub record SameEffects (w w' : World (port.Remote)) : Type 0 where
    pub remote : w'.remote ≡ w.remote
    pub audit : w'.audit ≡ w.audit
    pub counters : w'.counters ≡ w.counters
    pub ticket_counters : w'.ticket_counters ≡ w.ticket_counters
    pub reads : w'.reads ≡ w.reads
    pub occurrences :
        (h : String)
        → occurrences_of (get_fingerprint h w'.counts.fingerprints)
          ≡ occurrences_of (get_fingerprint h w.counts.fingerprints)
    pub services : w'.services ≡ w.services
    pub events : w'.counts.events ≡ w.counts.events
    pub rows : (h : String) → KeepsRow h w.counts.fingerprints w'.counts.fingerprints

  -- After an event was handled without an exception, handling it again is absorbed, and changes
  -- nothing but the template, frames, severity and time last seen of rows of the fingerprints (and a
  -- missing row may be inserted, with no occurrences): no state, ticket or number of occurrences,
  -- nothing on the forge, and no event, audit line or counter. The event's fingerprint comes with no
  -- occurrences of its own.
  pub handle_twice :
      (event : LogEvent) (w : World (port.Remote)) (r : Result)
      → (identify event).occurrences ≡ 0
      → (handle event w).0 ≡ returned r
      → ((again : Result) × ((handle event (handle event w).1).0 ≡ returned again)
          × (again.outcome ≡ Outcome.absorbed))
        × SameEffects (handle event w).1 (handle event (handle event w).1).1
  handle_twice event w r z e =
      let after = (handle event w).1 in
      let (dispatched, counted) = handle-Settled event w r e in
      rw (handle_dispatched event after dispatched) (
        (
          absorb port identify parse_config (claim_event event (identify event) after.counts).1
              "event already dispatched — policy applied",
          refl,
          refl,
        ),
        record {
          remote = refl;
          audit = refl;
          counters = refl;
          ticket_counters = refl;
          reads = refl;
          services = refl;
          occurrences = λ h. claim_counted event (identify event) after.counts h z counted;
          events = (claim-KeepsRow event (identify event) after.counts counted).0;
          rows = (claim-KeepsRow event (identify event) after.counts counted).1;
        },
      )
