-- ===== src/Tests/Work.antt =====
-- Deliveries through the worker, and digits through the Luhn test.
use wakey.Policy.Gate
use wakey.Prelude.{
  All, Bool, List, Option, String, [], any_where, arith, false, find_where, if◌then◌else◌, none,
  refl, some, true, update_where, ℕ, ◌++◌, ◌∷◌, ◌≡◌, ◌⊎◌,
}
use wakey.Prelude.Assoc.{lookup, remove, replace}
use wakey.Models.{pending, Delivery, LogEvent, processing}
use wakey.Forge.{Reply, returned}
use wakey.Forge.Console.{console, create_ticket, Console}
use wakey.Windows.{count_in_window, record_time, refresh}
use wakey.Storage.Fingerprints.{record_occurrence}
use wakey.Storage.Events.{claim_event, is_event_dispatched}
use wakey.Storage.Deliveries.{HasKeys, is_pending, is_row, set_state}
use wakey.Storage.Deliveries.Claiming.{HasNoPending, IsOldest}
use wakey.Pipeline.{service_config, handle_event, Step}
use wakey.Pipeline.State.{World}
use wakey.Pipeline.Journal.{SameEffects}
use wakey.Redaction.{luhn_checks, luhn_total, sanitize_log_event}
use wakey.Redaction.Luhn.{luhn_checks_one}
use wakey.Worker.{EventContext, Site, dispatch, process, process_next}
use wakey.Worker.Replay.{dispatch_twice}
use wakey.Worker.Queue.{ending, process_next_lem}
use wakey.Worker.Draining.{drain, drain_empties, work}
use wakey.Tests.Data.{event, identify, parse_config, queue, start}

abbrev parse_events : String → EventContext → List LogEvent
parse_events payload context = event ∷ []

abbrev redact : String → String
redact text = "[REDACTED]"

abbrev handlers : String → Option (Delivery → Step console identify parse_config (Unit {0}))
handlers service = none

-- the same event, read anew with another time
abbrev later_event : LogEvent
later_event = record event { ts = 9 }

abbrev dispatch_in : List LogEvent → World Console → Reply (Unit {0}) × World Console
dispatch_in = dispatch console identify parse_config parse_events redact handlers

dispatched_once : (dispatch_in (event ∷ []) start).0 ≡ returned tt
unfolding dispatch sanitize_log_event handle_event is_event_dispatched find_where claim_event
    any_where update_where record_occurrence Gate.decide service_config count_in_window lookup
    refresh record_time remove replace create_ticket
dispatched_once = refl

dispatch_twice_example :
    ((dispatch_in (later_event ∷ []) (dispatch_in (event ∷ []) start).1).0 ≡ returned tt)
    × SameEffects console identify parse_config
        (dispatch_in (event ∷ []) start).1
        (dispatch_in (later_event ∷ []) (dispatch_in (event ∷ []) start).1).1
dispatch_twice_example =
    dispatch_twice console identify parse_config parse_events redact handlers (event ∷ [])
      (later_event ∷ []) start (λ e. refl) refl dispatched_once

abbrev site : Site Console
site = record { world = start; deliveries = queue }

abbrev round_in : ℕ → ℕ → ℕ → Site Console → Reply Bool × Site Console
round_in = process_next console identify parse_config parse_events redact handlers

abbrev processed_in : Delivery → Site Console → Reply (Unit {0}) × World Console
processed_in d site =
    process console identify parse_config parse_events redact handlers
      (record d { state = processing }) site.world

keyed : HasKeys queue
keyed = unfold any_where in (refl, (refl, (refl, tt)))

process_next_example :
    ((round_in 8 9 5 site ≡ (returned false, site)) × HasNoPending queue)
    ⊎ ((d : Delivery) × (find_where (is_row d.service d.delivery_id) queue ≡ some d)
        × (d.state ≡ pending)
        × IsOldest d queue
        × ((round_in 8 9 5 site).0 ≡ returned true)
        × ((round_in 8 9 5 site).1.world ≡ (processed_in d site).1)
        × (find_where (is_row "shop" "d1") (round_in 8 9 5 site).1.deliveries ≡ (
            if is_row "shop" "d1" d
            then some (
                ending 9 5
                  (processed_in d site).0
                  (record d { state = processing })
                  (set_state processing 8 d))
            else find_where (is_row "shop" "d1") queue)))
process_next_example =
    process_next_lem console identify parse_config parse_events redact handlers 8 9 5 site "shop"
      "d1" keyed

drain_example :
    All
      (λ e. is_pending e.state ≡ false)
      (drain console identify parse_config parse_events redact handlers 4 8 2 site).deliveries
drain_example =
    drain_empties console identify parse_config parse_events redact handlers 4 8 2 site keyed
      (unfold work in omega arith)

-- 18 passes, and 13 does not
luhn_example : luhn_checks ([] ++ 3 ∷ (1 ∷ [])) ≡ false
luhn_example =
    luhn_checks_one [] (1 ∷ []) 8 3 (omega arith) (omega arith) (omega arith)
      (unfold luhn_checks luhn_total in refl)
