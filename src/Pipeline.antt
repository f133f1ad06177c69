-- ===== src/Pipeline.antt =====
-- ingest/pipeline.py: one event on its way through fingerprint, policy and ticket. The dispatch lock
-- makes one call of `handle_event` one transition of the world.
pub mod State
pub mod Text
pub mod Frame
pub mod Journal
pub mod Tickets
pub mod Quiet
use wakey.Prelude.{
  Bool, Option, String, [], false, find_where, if◌then◌else◌, ltb, max, none, some, str, true, ℕ,
  ◌*◌, ◌+◌, ◌<>◌, ◌==◌, ◌∷◌,
}
use wakey.Models.{
  Fingerprint, LogEvent, Service, WorkState, closed_auto, new, opened, queued_rca, reopened, second,
}
use wakey.Config.{Autonomy, ServiceYaml, default_config, observe}
use wakey.Forge.{Failure, ForgePort, Reply, TicketRef, is_ambiguous_write, returned}
use wakey.Exec.{gets, pure, raise, try, ◌>>=◌, ◌>>◌}
use wakey.Windows.{count_in_window, record_time}
use wakey.Policy.Gate
use wakey.Policy.Gate.{Action}
use wakey.Storage.Events.{claim_event, is_event_dispatched, mark_event_dispatched}
use State.{World, read_clock, on_forge, save, audit_event}
use Text.{title, body}

-- `_TICKET_CREATE_STALE_SECONDS`
abbrev pub stale_after : ℕ
stale_after = 120 * second

pub data Outcome : Type 0 where
  ticketed absorbed recorded suppressed : Outcome

pub record Result : Type 0 where
  pub fingerprint_hash : String
  pub outcome : Outcome
  pub detail : String

-- `t or s`
abbrev pub or_else : Option String → String → String
or_else none s = s
or_else (some t) s = if t == "" then s else t

-- `_ticket_ref`
unfoldable pub ticket_ref : Fingerprint → TicketRef
ticket_ref fp = record {
  issue_id = or_else fp.ticket_issue_id fp.fp_hash;
  url = or_else fp.ticket_url "";
}

-- `state in (WorkState.QUEUED_RCA, WorkState.OPEN)`
abbrev pub is_reserved : WorkState → Bool
is_reserved queued_rca = true
is_reserved opened = true
is_reserved _ = false

-- the state that a ticket creation reserves: `OPEN` in observe mode
abbrev pub reserved_state : Autonomy → WorkState
reserved_state observe = opened
reserved_state _ = queued_rca

-- `str(reconciled).lower()`
abbrev pub bool_text : Bool → String
bool_text true = "true"
bool_text false = "false"

-- a reservation with no ticket that is old enough to be taken back
abbrev pub reservation : Fingerprint → Option ℕ
reservation fp = elim fp.ticket_url [
  | some _ ↦ none
  | none ↦ if is_reserved fp.state then fp.reserved_at else none
]

module _ (port : ForgePort) (identify : LogEvent → Fingerprint)
    (parse_config : String → Option ServiceYaml) where
  open port use {Remote}

  abbrev pub Step : Type 0 → Type 0
  Step A = World Remote → Reply A × World Remote

  -- `_reconcile_remote_ticket`: a failed lookup counts as nothing found
  unfoldable pub reconcile_remote_ticket : Fingerprint → Step (Option TicketRef)
  unfolding on_forge try
  reconcile_remote_ticket stored =
      try (on_forge (port.find_ticket_by_marker ("fp:" <> stored.fp_hash))) pure (λ _. pure none)

  -- `_bind_ticket`; the log puts its own time in place of the event's `ts`
  unfoldable pub bind_ticket : Fingerprint → TicketRef → String → Bool → Step Fingerprint
  unfolding save audit_event ◌>>=◌
  bind_ticket reserved ref reason reconciled = do
    let bound = record reserved {
      ticket_issue_id = some ref.issue_id;
      ticket_url = some ref.url;
      reserved_at = none;
    }
    save bound
    audit_event (record {
      ts = 0;
      actor = "system";
      action = "ticket.create";
      subject = "fp:" <> reserved.fp_hash;
      details =
          ("forge_issue", ref.issue_id)
          ∷ ("reason", reason)
          ∷ ("reconciled", bool_text reconciled)
          ∷ [];
    })
    pure bound

  -- the end of `_recover_interrupted_reservation`, for a stale reservation
  unfoldable pub rearm : Fingerprint → Option TicketRef → Step Fingerprint
  unfolding bind_ticket save ◌>>=◌
  rearm stored (some ref) = bind_ticket stored ref "recovered interrupted ticket creation" true
  rearm stored none = do
    let recovered = record stored { state = new; reserved_at = none }
    save recovered
    pure recovered

  -- a reservation made at the given time is taken back once it is stale
  unfoldable pub take_back : Option ℕ → Fingerprint → Step Fingerprint
  unfolding rearm reconcile_remote_ticket read_clock ◌>>=◌
  take_back none stored = pure stored
  take_back (some reserved_at) stored = do
    now ← read_clock
    if ltb now (reserved_at + stale_after)
        then pure stored
        else do reconciled ← reconcile_remote_ticket stored; rearm stored reconciled

  -- `_recover_interrupted_reservation`
  unfoldable pub recover_interrupted_reservation : Fingerprint → Step Fingerprint
  unfolding take_back
  recover_interrupted_reservation stored = take_back (reservation stored) stored

  -- `_config`: the defaults for a service that is not registered or whose configuration is invalid. The
  -- decryption of the service's secret, which the read makes and which may raise, is left out.
  unfoldable pub service_config : String → World Remote → ServiceYaml
  service_config name w = elim (find_where (λ (s : Service). s.name == name) w.services) [
    | none ↦ default_config
    | some s ↦ elim (parse_config s.config_json) [ none ↦ default_config | some c ↦ c ]
  ]

  -- the `except` branch of `_create_ticket`
  unfoldable pub after_failed_create :
      Fingerprint → Fingerprint → String → Failure → Option TicketRef → Step Result
  unfolding bind_ticket save ◌>>=◌
  after_failed_create stored reserved reason exc (some ref) = do
    bind_ticket reserved ref reason true
    pure (record { fingerprint_hash = stored.fp_hash; outcome = ticketed; detail = reason })
  after_failed_create stored reserved reason exc none =
      if is_ambiguous_write exc
      then raise exc
      else do save (record stored { state = new; reserved_at = none }); raise exc

  -- the forge answered
  unfoldable pub after_create : Fingerprint → Fingerprint → String → TicketRef → Step Result
  unfolding bind_ticket ◌>>=◌
  after_create stored reserved reason ref = do
    bind_ticket reserved ref reason false
    pure (record { fingerprint_hash = stored.fp_hash; outcome = ticketed; detail = reason })

  -- the forge raised: only an ambiguous failure is looked up
  unfoldable pub reconcile_failure : Fingerprint → Fingerprint → String → Failure → Step Result
  unfolding after_failed_create reconcile_remote_ticket ◌>>=◌
  reconcile_failure stored reserved reason exc =
      if is_ambiguous_write exc
      then (do
        found ← reconcile_remote_ticket stored
        after_failed_create stored reserved reason exc found)
      else after_failed_create stored reserved reason exc none

  -- `_create_ticket`, from the call of the forge on
  unfoldable pub create_reserved : Fingerprint → Fingerprint → String → Step Result
  unfolding on_forge after_create reconcile_failure title body try
  create_reserved stored reserved reason =
      try (on_forge (port.create_ticket stored (title stored) (body stored reason)))
        (after_create stored reserved reason) (reconcile_failure stored reserved reason)

  abbrev pub cap_detail : ServiceYaml → String
  cap_detail config =
      "service ticket cap reached (" <> str config.max_tickets_per_hour <> "/h) — counted only"

  -- records the attempt on the service's hourly counter, and returns how many the hour has
  unfoldable pub count_attempt : String → ℕ → Step ℕ
  count_attempt key now w =
      let (counters, open_tickets) =
        count_in_window (record_time w.ticket_counters key now) key now in
      (returned open_tickets, record w { ticket_counters = counters })

  -- `_create_ticket`
  unfoldable pub create_ticket : Fingerprint → ServiceYaml → String → Step Result
  unfolding create_reserved count_attempt read_clock save ◌>>=◌
  create_ticket stored config reason = do
    now ← read_clock
    open_tickets ← count_attempt ("tickets:" <> stored.service) now
    if ltb config.max_tickets_per_hour open_tickets
        then pure (record {
          fingerprint_hash = stored.fp_hash;
          outcome = recorded;
          detail = cap_detail config;
        })
        else (do
          let reserved = record stored {
            state = reserved_state config.autonomy;
            reserved_at = some now;
          }
          save reserved
          create_reserved stored reserved reason)

  abbrev pub absorb : Fingerprint → String → Result
  absorb stored detail = record {
    fingerprint_hash = stored.fp_hash;
    outcome = Outcome.absorbed;
    detail = detail;
  }

  -- `max(commented_at_occurrences * 2, 4)`
  abbrev pub comment_floor : Fingerprint → ℕ
  comment_floor fp = max (fp.commented_at_occurrences * 2) 4

  unfoldable pub reopen_closed : Fingerprint → Step Result
  unfolding save on_forge ticket_ref ◌>>=◌
  reopen_closed stored = do
    save (record stored { state = reopened })
    on_forge (
        port.reopen_ticket (ticket_ref stored) (
          some (
            "error recurred ×"
            <> str stored.occurrences
            <> " after auto-close — reopening (WF-04).")))
    pure (absorb stored "auto-closed ticket reopened")

  unfoldable pub comment_open : Fingerprint → Step Result
  unfolding save on_forge ticket_ref read_clock ◌>>=◌
  comment_open stored =
      if ltb stored.occurrences (comment_floor stored)
      then pure (absorb stored "open ticket; comment throttled")
      else (do
        on_forge
            (port.add_comment (ticket_ref stored) ("still occurring ×" <> str stored.occurrences))
        now ← read_clock
        save (record stored {
          commented_at_occurrences = stored.occurrences;
          last_comment_at = some now;
        })
        pure (absorb stored "open ticket updated"))

  abbrev pub is_closed_auto : WorkState → Bool
  is_closed_auto closed_auto = true
  is_closed_auto _ = false

  -- `_update_ticket`
  unfoldable pub update_ticket : Fingerprint → Step Result
  unfolding reopen_closed comment_open
  update_ticket stored =
      if is_closed_auto stored.state then reopen_closed stored else comment_open stored

  -- `stored.ticket_url is None` under a wake decision
  unfoldable pub wake_ticket : Option String → Fingerprint → ServiceYaml → String → Step Result
  unfolding create_ticket update_ticket
  wake_ticket none stored config reason = create_ticket stored config reason
  wake_ticket (some _) stored config reason = update_ticket stored

  -- what the gate's decision leads to
  unfoldable pub act : Action → String → Fingerprint → ServiceYaml → Step Result
  unfolding wake_ticket
  act Action.record_only reason stored config =
      pure (record { fingerprint_hash = stored.fp_hash; outcome = recorded; detail = reason })
  act Action.absorbed reason stored config = pure (absorb stored reason)
  act Action.suppressed reason stored config =
      pure (record {
        fingerprint_hash = stored.fp_hash;
        outcome = Outcome.suppressed;
        detail = reason;
      })
  act Action.wake reason stored config = wake_ticket stored.ticket_url stored config reason

  -- the event is stored and counted
  unfoldable pub claim : LogEvent → Step Fingerprint
  claim event w =
      let (counts, stored) = claim_event event (identify event) w.counts in
      (returned stored, record w { counts = counts })

  -- the occurrence goes into the rate window, and the window's count comes back
  unfoldable pub count_rate : String → ℕ → Step ℕ
  count_rate key now w =
      let (counters, rate) = count_in_window (record_time w.counters key now) key now in
      (returned rate, record w { counters = counters })

  unfoldable pub journal : String → Step (Unit {0})
  journal id w = (
    returned tt,
    record w { counts = record (w.counts) { events = mark_event_dispatched id w.counts.events } },
  )

  -- `_handle_event` between the dispatch check and the journal
  unfoldable pub policy : LogEvent → Fingerprint → Step Result
  unfolding recover_interrupted_reservation count_rate act read_clock ◌>>=◌
  policy event stored = do
    current ← recover_interrupted_reservation stored
    config ← gets (service_config event.service)
    now ← read_clock
    rate ← count_rate current.fp_hash now
    let decision = Gate.decide current config rate
    act decision.action decision.reason current config

  -- the event is journaled only if the policy did not raise
  unfoldable pub apply_policy : LogEvent → Fingerprint → Step Result
  unfolding policy journal ◌>>=◌
  apply_policy event stored = do result ← policy event stored; journal event.id; pure result

  -- `handle_event`
  unfoldable pub handle_event : LogEvent → Step Result
  unfolding claim apply_policy ◌>>=◌
  handle_event event = do
    stored ← claim event
    dispatched ← gets (λ w. is_event_dispatched event.id w.counts.events)
    if dispatched
        then pure (absorb stored "event already dispatched — policy applied")
        else apply_policy event stored
