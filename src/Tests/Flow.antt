-- ===== src/Tests/Flow.antt =====
-- Events through the pipeline and verdicts through the watcher, with the console forge.
use wakey.Policy.Gate
use wakey.Prelude.Assoc.{lookup, remove, replace}
use wakey.Windows.{count_in_window, record_time, refresh}
use wakey.Prelude.{◌≡◌, refl, [], any_where, find_where, some, true, update_where, ◌∷◌}
use wakey.Models.{Fingerprint, info, queued_rca, verifying}
use wakey.Forge.{returned, ForgePort, forge_unreachable, raised}
use wakey.Forge.Console.{console, Console, create_ticket, find_ticket_by_marker}
use wakey.Storage.Fingerprints.{get_fingerprint, record_occurrence}
use wakey.Storage.Events.{claim_event, is_counted, is_event_dispatched}
use wakey.Policy.Verification.{WatchInputs, insufficient}
use wakey.Policy.Verification.Grace.{not_yet}
use wakey.Policy.Watcher.{apply}
use wakey.Policy.Watcher.Verdicts.{IsApplied, apply-IsApplied}
use wakey.Pipeline.{
  Result, handle_event, ticketed, Outcome, create_reserved, policy, service_config,
}
use wakey.Pipeline.State.{World}
use wakey.Pipeline.Text.{body}
use wakey.Pipeline.Journal.{SameEffects, handle-Settled, handle_twice}
use wakey.Pipeline.Tickets.{row_after, row_of-create}
use wakey.Pipeline.Quiet.{policy_hushed}
use wakey.Tests.Data.{event, identify, parse_config, start, boom, fatal}

-- what the pipeline answers to a critical event
abbrev answer : Result
answer = record { fingerprint_hash = "abc"; outcome = ticketed; detail = "critical severity" }

handled_once : (handle_event console identify parse_config event start).0 ≡ returned answer
unfolding handle_event is_event_dispatched find_where claim_event any_where update_where
    record_occurrence Gate.decide service_config count_in_window lookup refresh record_time remove
    replace create_ticket
handled_once = refl

handle_twice_example :
    ((again : Result) × ((handle_event console identify parse_config event
          (handle_event console identify parse_config event start).1).0
        ≡ returned again)
      × (again.outcome ≡ Outcome.absorbed))
    × SameEffects console identify parse_config
        (handle_event console identify parse_config event start).1
        (handle_event console identify parse_config event
          (handle_event console identify parse_config event start).1).1
handle_twice_example =
    handle_twice console identify parse_config event start answer refl handled_once

handle_settled_example :
    (is_event_dispatched "e1"
        (handle_event console identify parse_config event start).1.counts.events
      ≡ true)
    × (is_counted "e1" (handle_event console identify parse_config event start).1.counts.events
        ≡ true)
handle_settled_example =
    handle-Settled console identify parse_config event start answer handled_once

-- a forge whose answers to writes are lost: the ticket is there, and the caller does not know
abbrev lossy : ForgePort
lossy = record console {
  create_ticket =
      λ fp title body c. (raised forge_unreachable, record c { created = (fp, body) ∷ [] });
}

abbrev held : Fingerprint
held = record fatal { state = queued_rca; reserved_at = some 100 }

abbrev reserving : World Console
reserving = record start { counts = record { events = []; fingerprints = held ∷ [] } }

row_of_create_example :
    get_fingerprint "abc"
      (create_reserved lossy identify parse_config fatal held "critical severity"
        reserving).1.counts.fingerprints
    ≡ some (
        row_after
          (raised forge_unreachable)
          (find_ticket_by_marker "fp:abc"
            (record (start.remote) { created = (fatal, body fatal "critical severity") ∷ [] })).0
          fatal
          held
          held)
row_of_create_example =
    row_of-create lossy identify parse_config fatal held refl "critical severity" held reserving
      (unfold get_fingerprint find_where in refl)

policy_hushed_example :
    ((policy console identify parse_config event (record boom { severity = info }) start).1.remote
      ≡ start.remote)
    × ((policy console identify parse_config event (record boom { severity = info }) start).1.counts
        ≡ start.counts)
    × ((policy console identify parse_config event (record boom { severity = info }) start).1.audit
        ≡ start.audit)
policy_hushed_example =
    policy_hushed console identify parse_config event (record boom { severity = info }) start refl
      tt

abbrev watched : Fingerprint
watched = record held { state = verifying; ticket_url = some "console://tickets/abc" }

abbrev grace : Fingerprint → World Console → WatchInputs × World Console
grace fp w = (not_yet, w)

apply-IsApplied_example :
    IsApplied console grace watched insufficient 0 reserving
      (apply console grace watched insufficient not_yet reserving)
apply-IsApplied_example = apply-IsApplied console grace watched insufficient not_yet reserving
