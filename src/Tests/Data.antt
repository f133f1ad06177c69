-- ===== src/Tests/Data.antt =====
-- Test data for the models of src/wakey: a fingerprint, an event, a delivery and a console world.
use wakey.Prelude.{List, Option, String, [], false, none, ℕ, ◌*◌, ◌+◌, ◌∷◌}
use wakey.Models.{
  Delivery, DeliveryState, Fingerprint, LogEvent, critical, error, new, pending, processing, second,
}
use wakey.Config.{ServiceYaml}
use wakey.Windows.{Counters}
use wakey.Storage.Events.{Counts}
use wakey.Pipeline.State.{World}
use wakey.Forge.Console.{Console}

abbrev pub boom : Fingerprint
boom = record {
  fp_hash = "abc";
  service = "shop";
  environment = "prod";
  template = "boom <*>";
  frames = [];
  severity = error;
  first_seen = 5;
  last_seen = 5;
  occurrences = 0;
  state = new;
  ticket_issue_id = none;
  ticket_url = none;
  commented_at_occurrences = 0;
  last_comment_at = none;
  verification_started_at = none;
  verification_start_occurrences = 0;
  chronic = false;
  proposal_issue_id = none;
  proposal_url = none;
  proposal_branch = none;
  reserved_at = none;
  fix_commit_sha = none;
}

abbrev pub fatal : Fingerprint
fatal = record boom { severity = critical }

abbrev pub event : LogEvent
event = record {
  id = "e1";
  ts = 5;
  service = "shop";
  environment = "prod";
  severity = critical;
  message = "boom 7";
  source = "http";
  frames = [];
  trace_id = none;
  request_id = none;
  attributes = [];
}

-- an adapter that names every event by one fingerprint, and a configuration that does not parse
abbrev pub identify : LogEvent → Fingerprint
identify e = fatal

abbrev pub parse_config : String → Option ServiceYaml
parse_config text = none

abbrev pub counters : Counters
counters = record { window_seconds = 60 * second; max_keys = 2; windows = [] }

abbrev pub empty_tables : Counts
empty_tables = record { events = []; fingerprints = [] }

abbrev pub start : World Console
start = record {
  counts = empty_tables;
  services = [];
  audit = [];
  counters = counters;
  ticket_counters = counters;
  remote = record { created = []; comments = []; closed = []; reopened = []; labels = [] };
  clock = λ n. 100 + n;
  reads = 0;
}

abbrev pub delivery : String → ℕ → DeliveryState → Delivery
delivery id at state = record {
  service = "shop";
  delivery_id = id;
  state = state;
  payload = "{}";
  attempts = 0;
  created_at = at;
  updated_at = at;
}

abbrev pub queue : List Delivery
queue = delivery "d2" 7 pending ∷ delivery "d1" 4 pending ∷ delivery "d0" 1 processing ∷ []
