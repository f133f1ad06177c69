-- ===== src/Storage/Events.antt =====
-- core/storage.py, the `log_events` table, and the claim that counts an event once.
pub mod Occurrences
pub mod Counting
pub mod Settling
use wakey.Prelude.{
  Bool, List, Option, String, [], any_where, count_where, delete_where, eqb, false, find_where,
  if◌then◌else◌, leb, ltb, none, select_where, some, true, update_where, ℕ, ◌&&◌, ◌++◌, ◌==◌, ◌∷◌,
  ◌≡◌, map, take,
}
use wakey.Models.{Fingerprint, LogEvent, Severity}
use wakey.Storage.Fingerprints.{holds, record_occurrence}

-- `frames` are not stored; `fp_hash` is null until an event is counted
pub record EventRow : Type 0 where
  pub id : String
  pub ts : ℕ
  pub service : String
  pub environment : String
  pub severity : Severity
  pub message : String
  pub source : String
  pub trace_id : Option String
  pub request_id : Option String
  pub attributes : List (String × String)
  pub dispatched : Bool
  pub counted : Bool
  pub fp_hash : Option String

abbrev pub event_row : LogEvent → EventRow
event_row event = record {
  id = event.id;
  ts = event.ts;
  service = event.service;
  environment = event.environment;
  severity = event.severity;
  message = event.message;
  source = event.source;
  trace_id = event.trace_id;
  request_id = event.request_id;
  attributes = event.attributes;
  dispatched = false;
  counted = false;
  fp_hash = none;
}

abbrev pub has_id : String → EventRow → Bool
has_id id row = row.id == id

-- `INSERT … ON CONFLICT(id) DO NOTHING`: the rows, and whether one was inserted
unfoldable pub save_log_event : LogEvent → List EventRow → List EventRow × Bool
save_log_event event rows =
    if any_where (has_id event.id) rows then (rows, false) else (rows ++ event_row event ∷ [], true)

abbrev pub is_counted : String → List EventRow → Bool
is_counted id rows = elim (find_where (has_id id) rows) [ none ↦ false | some row ↦ row.counted ]

-- The two tables that one claim writes in one transaction.
pub record Counts : Type 0 where
  pub events : List EventRow
  pub fingerprints : List Fingerprint

-- `UPDATE log_events SET counted = 1, fp_hash = ?`
abbrev pub bind_row : String → EventRow → EventRow
bind_row fp_hash row = record row { counted = true; fp_hash = some fp_hash }

unfoldable pub claim_event : LogEvent → Fingerprint → Counts → Counts × Fingerprint
unfolding save_log_event
claim_event event fingerprint db =
    let events = (save_log_event event db.events).0 in
    if is_counted event.id events
    then (let (fingerprints, stored) = record_occurrence fingerprint 0 db.fingerprints in
        (record { events = events; fingerprints = fingerprints }, stored))
    else let (fingerprints, stored) = record_occurrence fingerprint 1 db.fingerprints in
      (
        record {
          events = update_where (has_id event.id) (bind_row fingerprint.fp_hash) events;
          fingerprints = fingerprints;
        },
        stored,
      )

unfoldable pub is_event_dispatched : String → List EventRow → Bool
is_event_dispatched id rows = elim (find_where (has_id id) rows) [
  | none ↦ false
  | some row ↦ row.dispatched
]

unfoldable pub mark_event_dispatched : String → List EventRow → List EventRow
mark_event_dispatched id = update_where (has_id id) (λ row. record row { dispatched = true })

-- `service = ? AND environment = ? AND ts >= ? AND ts <= ?`
abbrev pub in_window : String → String → ℕ → ℕ → EventRow → Bool
in_window service environment since until row =
    ((row.service == service && row.environment == environment) && leb since row.ts)
    && leb row.ts until

unfoldable pub count_events : String → String → ℕ → ℕ → List EventRow → ℕ
count_events service environment since until =
    count_where (in_window service environment since until)

abbrev pub is_bound : String → EventRow → Bool
is_bound h row = holds h row.fp_hash

abbrev pub is_unbound : EventRow → Bool
is_unbound row = elim row.fp_hash [ none ↦ true | some _ ↦ false ]

-- The two sums over the window; `none` if an event in it is bound to no fingerprint.
unfoldable pub count_fingerprint_events : Fingerprint → ℕ → ℕ → List EventRow → Option ℕ
count_fingerprint_events fp since until rows =
    let window = select_where (in_window fp.service fp.environment since until) rows in
    if eqb (count_where is_unbound window) 0
    then some (count_where (is_bound fp.fp_hash) window)
    else none

-- `DELETE FROM log_events WHERE ts < ?`
unfoldable pub prune_events : ℕ → List EventRow → List EventRow × ℕ
prune_events older_than rows = (
  delete_where (λ row. ltb row.ts older_than) rows,
  count_where (λ row. ltb row.ts older_than) rows,
)

-- a row as the reader gets it, with no frames
abbrev pub event_of : EventRow → LogEvent
event_of row = record {
  id = row.id;
  ts = row.ts;
  service = row.service;
  environment = row.environment;
  severity = row.severity;
  message = row.message;
  source = row.source;
  frames = [];
  trace_id = row.trace_id;
  request_id = row.request_id;
  attributes = row.attributes;
}

-- `ORDER BY ts DESC`; rows of one time keep the order of the table
unfoldable pub insert_recent : EventRow → List EventRow → List EventRow
insert_recent x [] = x ∷ []
insert_recent x (y ∷ ys) =
    let further = y ∷ insert_recent x ys in if leb y.ts x.ts then x ∷ y ∷ ys else further

unfoldable pub recent_first : List EventRow → List EventRow
unfolding insert_recent
recent_first [] = []
recent_first (x ∷ xs) = insert_recent x (recent_first xs)

-- `service = ?`, and `environment = ?` if one is given
abbrev pub is_from : String → Option String → EventRow → Bool
is_from service none row = row.service == service
is_from service (some environment) row = row.service == service && row.environment == environment

unfoldable pub recent_events : String → Option String → ℕ → List EventRow → List LogEvent
unfolding recent_first
recent_events service environment limit rows =
    map event_of (take limit (recent_first (select_where (is_from service environment) rows)))

-- The primary key of `log_events`.
abbrev pub HasIds : List EventRow → Type 0
HasIds [] = Unit {0}
HasIds (r ∷ rs) = (any_where (has_id r.id) rs ≡ false) × HasIds rs
