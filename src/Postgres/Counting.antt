-- ===== src/Postgres/Counting.antt =====
-- storage/postgres.py: the occurrence upsert, and the claim of an event.
use wakey.Prelude.{
  Bool, List, [], any_where, false, find_where, if◌then◌else◌, none, some, true, update_where, ℕ,
  ◌++◌, ◌+◌, ◌∷◌,
}
use wakey.Models.{Fingerprint, LogEvent}
use wakey.Storage.Fingerprints.{has_hash}
use wakey.Storage.Events.{has_id, event_row, is_counted, bind_row, Counts, EventRow}

-- the `DO UPDATE SET` list of `_upsert_occurrence_locked`
abbrev pub bump_row : Fingerprint → ℕ → Fingerprint → Fingerprint
bump_row incoming delta row = record row {
  template = incoming.template;
  frames = incoming.frames;
  severity = incoming.severity;
  last_seen = incoming.last_seen;
  occurrences = row.occurrences + delta;
}

-- `_upsert_occurrence_locked`: the row inserted is the incoming one, without `delta`; what comes back
-- is the row of the table
unfoldable pub upsert_occurrence :
    Fingerprint → ℕ → List Fingerprint → List Fingerprint × Fingerprint
upsert_occurrence incoming delta rows = elim (find_where (has_hash incoming.fp_hash) rows) [
  | none ↦ (rows ++ incoming ∷ [], incoming)
  | some row ↦ (
    update_where (has_hash incoming.fp_hash) (bump_row incoming delta) rows,
    bump_row incoming delta row,
  )
]

-- `INSERT … ON CONFLICT (id) DO NOTHING`
unfoldable pub insert_event : LogEvent → List EventRow → List EventRow × Bool
insert_event event rows =
    if any_where (has_id event.id) rows then (rows, false) else (rows ++ event_row event ∷ [], true)

unfoldable pub claim_event : LogEvent → Fingerprint → Counts → Counts × Fingerprint
unfolding insert_event
claim_event event fingerprint db =
    let events = (insert_event event db.events).0 in
    if is_counted event.id events
    then (let (fingerprints, stored) = upsert_occurrence fingerprint 0 db.fingerprints in
        (record { events = events; fingerprints = fingerprints }, stored))
    else let (fingerprints, stored) = upsert_occurrence fingerprint 1 db.fingerprints in
      (
        record {
          events = update_where (has_id event.id) (bind_row fingerprint.fp_hash) events;
          fingerprints = fingerprints;
        },
        stored,
      )
