-- ===== src/Worker/Replay.antt =====
-- A delivery whose events are handed to the pipeline again, after a crash or a failure.
use wakey.Prelude.{
  All, Bool-cases, List, Option, String, inl, inr, refl, [], map, ◌∷◌, ◌≡◌, ap, ◌∙◌,
}
use wakey.Models.{Delivery, Fingerprint, LogEvent}
use wakey.Config.{ServiceYaml}
use wakey.Forge.{ForgePort, Reply, raised, returned, Failure}
use wakey.Exec.{go_on, pure, ◌>>=◌, ◌>>◌, Reply-cases, bind-raised, bind-returned}
use wakey.Redaction.{sanitize_log_event}
use wakey.Storage.Events.{claim_event, is_event_dispatched}
use wakey.Storage.Events.Counting.{KeepsRow-refl, KeepsRow-trans, claim-KeepsRow, claim_counted}
use wakey.Storage.Events.Settling.{IsSettled, claim-IsSettled, mark-IsSettled}
use wakey.Pipeline.{Result, Step, apply_policy, handle_event, journal, policy}
use wakey.Pipeline.State.{World}
use wakey.Pipeline.Journal.{policy-events, handle-Settled, SameEffects, claimed, handle_dispatched}
use wakey.Worker.{EventContext, dispatch}

module _ (port : ForgePort) (identify : LogEvent → Fingerprint)
    (parse_config : String → Option ServiceYaml)
    (parse_events : String → EventContext → List LogEvent) (redact : String → String)
    (handlers : String → Option (Delivery → Step port identify parse_config (Unit {0}))) where
  abbrev W : Type 0
  W = World (port.Remote)

  abbrev run : List LogEvent → W → Reply (Unit {0}) × W
  run = dispatch port identify parse_config parse_events redact handlers

  -- Handling any event leaves the settled ones settled, whether it raises or not.
  go_on-IsSettled :
      (id j : String) (reply : Reply Result) (w : W)
      → IsSettled id w.counts.events
      → IsSettled id
          (go_on reply
            (λ result. journal port identify parse_config j >> pure result)
            w).1.counts.events
  unfolding journal pure ◌>>=◌
  go_on-IsSettled id j (returned result) w h = mark-IsSettled id j w.counts.events h
  go_on-IsSettled id j (raised exc) w h = h

  apply-IsSettled :
      (id : String) (event : LogEvent) (stored : Fingerprint) (w : W)
      → IsSettled id w.counts.events
      → IsSettled id (apply_policy port identify parse_config event stored w).1.counts.events
  unfolding apply_policy
  apply-IsSettled id event stored w h =
      let same =
        (policy-events port identify parse_config w.counts.events event stored).ends w refl in
      let (reply, w') = policy port identify parse_config event stored w in
      go_on-IsSettled id event.id reply w' (rw same h)

  handle-IsSettled :
      (id : String) (event : LogEvent) (w : W)
      → IsSettled id w.counts.events
      → IsSettled id (handle_event port identify parse_config event w).1.counts.events
  unfolding handle_event
  handle-IsSettled id event w h =
      let kept = claim-IsSettled id event (identify event) w.counts h in
      let (counts, stored) = claim_event event (identify event) w.counts in
      elim (Bool-cases (is_event_dispatched event.id counts.events)) [
        | inl dispatched ↦ rw dispatched kept
        | inr fresh ↦ rw fresh (apply-IsSettled id event stored (record w { counts = counts }) kept)
      ]

  abbrev ids : List LogEvent → List String
  ids = map (λ (event : LogEvent). event.id)

  -- The events with the ids are settled.
  abbrev AreSettled : List String → W → Type 0
  AreSettled names w = All (λ id. IsSettled id w.counts.events) names

  abbrev clean : LogEvent → LogEvent
  clean = sanitize_log_event redact

  abbrev handled_first : LogEvent → W → Reply Result × W
  handled_first event = handle_event port identify parse_config (clean event)

  run-returned :
      (event : LogEvent) (events : List LogEvent) (w : W) (result : Result)
      → (handled_first event w).0 ≡ returned result
      → run (event ∷ events) w ≡ run events (handled_first event w).1
  unfolding dispatch
  run-returned event events w result e =
      bind-returned (handled_first event) (λ _. run events) w result e

  run-raised :
      (event : LogEvent) (events : List LogEvent) (w : W) (exc : Failure)
      → (handled_first event w).0 ≡ raised exc
      → run (event ∷ events) w ≡ (raised exc, (handled_first event w).1)
  unfolding dispatch
  run-raised event events w exc e = bind-raised (handled_first event) (λ _. run events) w exc e

  run-IsSettled :
      (id : String) (events : List LogEvent) (w : W)
      → IsSettled id w.counts.events
      → IsSettled id (run events w).1.counts.events
  run-IsSettled id [] w h = unfold dispatch in h
  run-IsSettled id (event ∷ events) w h =
      let kept = handle-IsSettled id (clean event) w h in
      elim (Reply-cases (handled_first event w).0) [
        | inl (result, e) ↦
            rw (run-returned event events w result e)
              (run-IsSettled id events (handled_first event w).1 kept)
        | inr (exc, e) ↦ rw (run-raised event events w exc e) kept
      ]

  AreSettled-cons :
      (name : String) (names : List String) (u v : Reply (Unit {0}) × W)
      → u ≡ v
      → IsSettled name v.1.counts.events
      → AreSettled names v.1
      → AreSettled (name ∷ names) u.1
  AreSettled-cons name names u v e h k = coe 1 0 (i. AreSettled (name ∷ names) (e i).1) (h, k)

  -- A run that returns has settled all its events.
  run-AreSettled :
      (events : List LogEvent) (w : W)
      → (run events w).0 ≡ returned tt
      → AreSettled (ids events) (run events w).1
  run-AreSettled [] w h = tt
  run-AreSettled (event ∷ events) w h = elim (Reply-cases (handled_first event w).0) [
    | inl (result, e) ↦
        let next = run-returned event events w result e in
        let settled = handle-Settled port identify parse_config (clean event) w result e in
        AreSettled-cons event.id (ids events) _ _ next
          (run-IsSettled event.id events (handled_first event w).1
            (unfold sanitize_log_event in settled))
          (run-AreSettled events (handled_first event w).1 (rw (← next) h))
    | inr (exc, e) ↦ let stopped = run-raised event events w exc e in cc
  ]

  -- One absorbed event touches nothing but the tables of the claim.
  claim-SameEffects :
      (event : LogEvent) (w : W)
      → (identify event).occurrences ≡ 0
      → IsSettled event.id w.counts.events
      → SameEffects port identify parse_config w (claimed port identify parse_config event w)
  claim-SameEffects event w z settled = record {
    remote = refl;
    audit = refl;
    counters = refl;
    ticket_counters = refl;
    reads = refl;
    services = refl;
    occurrences = λ h. claim_counted event (identify event) w.counts h z settled.1;
    events = (claim-KeepsRow event (identify event) w.counts settled.1).0;
    rows = (claim-KeepsRow event (identify event) w.counts settled.1).1;
  }

  SameEffects-trans :
      (u v w : W)
      → SameEffects port identify parse_config u v
      → SameEffects port identify parse_config v w
      → SameEffects port identify parse_config u w
  SameEffects-trans u v w h k = record {
    remote = k.remote ∙ h.remote;
    audit = k.audit ∙ h.audit;
    counters = k.counters ∙ h.counters;
    ticket_counters = k.ticket_counters ∙ h.ticket_counters;
    reads = k.reads ∙ h.reads;
    services = k.services ∙ h.services;
    occurrences = λ hash. k.occurrences hash ∙ h.occurrences hash;
    events = k.events ∙ h.events;
    rows = λ hash.
        KeepsRow-trans hash u.counts.fingerprints v.counts.fingerprints w.counts.fingerprints
          (h.rows hash) (k.rows hash);
  }

  AreSettled-claim :
      (names : List String) (event : LogEvent) (w : W)
      → AreSettled names w
      → AreSettled names (claimed port identify parse_config event w)
  AreSettled-claim [] event w h = tt
  AreSettled-claim (name ∷ names) event w h =
      (claim-IsSettled name event (identify event) w.counts h.0, AreSettled-claim names event w h.1)

  run_settled :
      (events : List LogEvent) (w : W)
      → ((event : LogEvent) → (identify event).occurrences ≡ 0)
      → AreSettled (ids events) w
      → ((run events w).0 ≡ returned tt) × SameEffects port identify parse_config w (run events w).1
  unfolding dispatch sanitize_log_event
  run_settled [] w z h = (
    refl,
    record {
      remote = refl;
      audit = refl;
      counters = refl;
      ticket_counters = refl;
      reads = refl;
      services = refl;
      occurrences = λ hash. refl;
      events = refl;
      rows = λ hash. KeepsRow-refl hash w.counts.fingerprints;
    },
  )
  run_settled (event ∷ events) w z h =
      let absorbed = handle_dispatched port identify parse_config (clean event) w h.0.0 in
      let w' = claimed port identify parse_config (clean event) w in
      let (again, same) =
        run_settled events w' z (AreSettled-claim (ids events) (clean event) w h.1) in
      rw (run-returned event events w _ (ap (λ p. p.0) absorbed), absorbed)
        (
          again,
          SameEffects-trans w w' _ (claim-SameEffects (clean event) w (z (clean event)) h.0) same,
        )

  -- The events of a delivery went through the pipeline without an exception. Events of the same ids,
  -- whatever else they hold, then go through it again without an exception, and change nothing but the
  -- template, frames, severity and time last seen of rows of the fingerprints (and missing rows may be
  -- inserted, with no occurrences): no state, ticket or number of occurrences, nothing on the forge,
  -- and no event, audit line or counter. No event's fingerprint comes with occurrences of its own.
  pub dispatch_twice :
      (events again : List LogEvent) (w : W)
      → ((event : LogEvent) → (identify event).occurrences ≡ 0)
      → ids again ≡ ids events
      → (run events w).0 ≡ returned tt
      → ((run again (run events w).1).0 ≡ returned tt)
        × SameEffects port identify parse_config (run events w).1 (run again (run events w).1).1
  dispatch_twice events again w z same h =
      run_settled again (run events w).1 z (rw same (run-AreSettled events w h))
