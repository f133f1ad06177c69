-- ===== src/Tests/Agents.antt =====
-- agents/rca.py and web/commands.py at small inputs, with the console forge.
use wakey.Prelude.{
  Option, String, [], any_where, arith, find_where, none, refl, select_where, some, str, true, ◌∷◌,
  ◌≡◌, ◌≢◌,
}
use wakey.Prelude.Assoc.{lookup, replace}
use wakey.Models.{Fingerprint, dropped, queued_rca}
use wakey.Config.{default_config}
use wakey.Forge.Console.{Console, console}
use wakey.Policy.Gate
use wakey.Policy.Gate.{Action}
use wakey.Storage.Fingerprints.{get_fingerprint}
use wakey.Windows.{count_in_window, drop_expired, drop_old, refresh}
use wakey.Pipeline.State.{World}
use wakey.Rca.Budget.{RcaBudget, hour, try_take, tokens_of}
use wakey.Rca.Caps.{IsCapped, take-IsCapped}
use wakey.Rca.Dispatch.{Desk, run_once}
use wakey.Rca.Untouched.{run_once_untouched}
use wakey.Commands.{Executors, WakeyCommand, cmd_drop, handle_comment}
use wakey.Commands.Guard.{IsRefused, handle_unauthorized}
use wakey.Commands.Effects.{drop_silences}
use wakey.Tests.Data.{boom, start}

-- 20 units before the hour is over, two dispatches are in the window of a cap of three
abbrev budget : RcaBudget
budget = record {
  max_per_hour = 3;
  max_tokens_per_hour = 2000;
  counters = record { window_seconds = hour; max_keys = 4; windows = ("rca", 5 ∷ 9 ∷ []) ∷ [] };
  token_events = (5, 512) ∷ (9, 512) ∷ [];
}

take_example : IsCapped 30 512 budget (try_take 30 512 budget)
take_example =
    take-IsCapped 30 512 budget (unfold lookup in ((omega arith, tt), (tt, tt)))
      (unfold lookup in (omega arith, (omega arith, tt))) (refl, tt) (omega arith)

take_granted : (try_take 30 512 budget).0 ≡ true
unfolding try_take count_in_window refresh lookup drop_expired drop_old replace select_where
    tokens_of
take_granted = refl

abbrev queued : Fingerprint
queued = record boom { fp_hash = "q1"; state = queued_rca }

abbrev closed : Fingerprint
closed = record boom { fp_hash = "c1"; state = dropped }

abbrev world : World Console
world = record start { counts = record (start.counts) { fingerprints = queued ∷ closed ∷ [] } }

abbrev desk : Desk Console
desk = record { budget = budget; world = world }

run_once_example :
    get_fingerprint "c1"
      (run_once console (λ s. s) none (λ fp w. "") str str none desk).1.world.counts.fingerprints
    ≡ get_fingerprint "c1" (queued ∷ closed ∷ [])
run_once_example =
    run_once_untouched console (λ s. s) none (λ fp w. "") str str "c1" desk
      (unfold any_where in refl)

abbrev nothing : Executors Console
nothing = record {
  rca = none;
  fix_executor = none;
  retry_executor = none;
  digest_builder = none;
  digest_approver = none;
}

abbrev parse_drop : String → Option WakeyCommand
parse_drop body = some (record { name = "drop"; argument = ""; raw = body })

unauthorized_example :
    IsRefused console
      (λ t. none)
      parse_drop
      nothing
      str
      ("ann" ∷ [])
      ("wakey[bot]" ∷ [])
      "eve"
      world
      (handle_comment console
        (λ t. none)
        parse_drop
        nothing
        str
        ("ann" ∷ [])
        ("wakey[bot]" ∷ [])
        "eve"
        "12"
        "@wakey drop"
        world)
unauthorized_example =
    handle_unauthorized console (λ t. none) parse_drop nothing str ("ann" ∷ []) ("wakey[bot]" ∷ [])
      "eve" "12" "@wakey drop" world (unfold any_where in refl)

drop_example :
    (row : Fingerprint) × (get_fingerprint "q1"
        (cmd_drop console
          (λ t. none)
          parse_drop
          nothing
          str
          ("ann" ∷ [])
          []
          queued
          "ann"
          world).1.counts.fingerprints
      ≡ some row)
    × (row.state ≡ dropped)
    × ((Gate.decide row default_config 9).action ≢ Action.wake)
drop_example =
    drop_silences console (λ t. none) parse_drop nothing str ("ann" ∷ []) [] queued queued "ann"
      world default_config 9 (unfold get_fingerprint find_where in refl)
