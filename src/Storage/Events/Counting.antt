-- ===== src/Storage/Events/Counting.antt =====
-- Exactly-once counting: a fingerprint's occurrences are the events that were counted for it.
use wakey.Prelude.{
  Bool-cases, List, String, [], any_where, any_where-update, arith, false, find_where, inl, inr,
  refl, true, update_where, ◌∷◌, ◌≡◌, ap, eq_iff, some, ◌==◌, ◌∙◌,
}
use wakey.Models.{Fingerprint, LogEvent}
use wakey.Storage.Fingerprints.{get_fingerprint, record_occurrence}
use wakey.Storage.Fingerprints.Laws.{counted_row, get-record}
use wakey.Storage.Events.{
  Counts, EventRow, HasIds, bind_row, claim_event, has_id, is_counted, is_event_dispatched,
  mark_event_dispatched, save_log_event,
}
use wakey.Storage.Events.Occurrences.{
  IsCounted, any_id-save, bind-counts, occurrences-record, occurrences_of, save-HasIds, save-counts,
  saved_row_found,
}

abbrev pub with_event : LogEvent → Counts → List EventRow
with_event event db = (save_log_event event db.events).0

claim_again :
    (event : LogEvent) (fp : Fingerprint) (db : Counts)
    → is_counted event.id (with_event event db) ≡ true
    → (claim_event event fp db).0 ≡ record {
      events = with_event event db;
      fingerprints = (record_occurrence fp 0 db.fingerprints).0;
    }
unfolding claim_event
claim_again event fp db h = ground arith

pub claim_first :
    (event : LogEvent) (fp : Fingerprint) (db : Counts)
    → is_counted event.id (with_event event db) ≡ false
    → (claim_event event fp db).0 ≡ record {
      events = update_where (has_id event.id) (bind_row fp.fp_hash) (with_event event db);
      fingerprints = (record_occurrence fp 1 db.fingerprints).0;
    }
unfolding claim_event
claim_first event fp db h = ground arith

bind-HasIds :
    (id h : String) (rows : List EventRow)
    → HasIds rows
    → HasIds (update_where (has_id id) (bind_row h) rows)
unfolding update_where
bind-HasIds id h [] k = tt
bind-HasIds id h (r ∷ rs) k = ground (
  arith,
  any_where-update (has_id r.id) (has_id id) (bind_row h) rs (λ x. refl),
  bind-HasIds id h rs k.1,
)

-- A claim keeps the primary key of the events.
pub claim-HasIds :
    (event : LogEvent) (fp : Fingerprint) (db : Counts)
    → HasIds db.events
    → HasIds (claim_event event fp db).0.events
claim-HasIds event fp db k = elim (Bool-cases (is_counted event.id (with_event event db))) [
  | inl old ↦ rw (claim_again event fp db old) (save-HasIds event db.events k)
  | inr first ↦
      rw (claim_first event fp db first)
        (bind-HasIds event.id fp.fp_hash (with_event event db) (save-HasIds event db.events k))
]

-- A claim of an event, for a fingerprint that comes with no occurrences of its own, keeps the
-- number of occurrences of every fingerprint equal to the number of events counted for it. This
-- is so whether the event is new, was stored and not counted, or was counted before.
pub claim-IsCounted :
    (event : LogEvent) (fp : Fingerprint) (db : Counts)
    → fp.occurrences ≡ 0
    → HasIds db.events
    → IsCounted db
    → IsCounted (claim_event event fp db).0
claim-IsCounted event fp db z k inv h =
    elim (Bool-cases (is_counted event.id (with_event event db))) [
      | inl old ↦ rw (claim_again event fp db old) (
          ground (
            arith,
            occurrences-record h fp 0 db.fingerprints z,
            save-counts h event db.events,
            inv h,
          ))
      | inr first ↦
          let (row, found) = saved_row_found event db.events in
          let fresh : row.counted ≡ false = ground arith in
          rw (claim_first event fp db first) (
            ground (
              arith,
              occurrences-record h fp 1 db.fingerprints z,
              save-counts h event db.events,
              bind-counts h event.id fp.fp_hash (with_event event db) row
                  (save-HasIds event db.events k) found fresh,
              inv h,
            ))
    ]

bind_counted :
    (id h : String) (rows : List EventRow)
    → any_where (has_id id) rows ≡ true
    → is_counted id (update_where (has_id id) (bind_row h) rows) ≡ true
unfolding any_where find_where update_where
bind_counted id h [] e = ground arith
bind_counted id h (r ∷ rs) e = ground (arith, bind_counted id h rs)

-- After a claim the event counts as counted.
pub claimed_counted :
    (event : LogEvent) (fp : Fingerprint) (db : Counts)
    → is_counted event.id (claim_event event fp db).0.events ≡ true
claimed_counted event fp db = elim (Bool-cases (is_counted event.id (with_event event db))) [
  | inl old ↦ rw (claim_again event fp db old) old
  | inr first ↦
      rw (claim_first event fp db first)
        (bind_counted event.id fp.fp_hash (with_event event db) (any_id-save event db.events))
]

counted_any :
    (id : String) (rows : List EventRow)
    → is_counted id rows ≡ true
    → any_where (has_id id) rows ≡ true
unfolding find_where any_where
counted_any id [] e = ground arith
counted_any id (r ∷ rs) e = ground (arith, counted_any id rs)

save_known :
    (event : LogEvent) (rows : List EventRow)
    → any_where (has_id event.id) rows ≡ true
    → (save_log_event event rows).0 ≡ rows
unfolding save_log_event
save_known event rows h = ground arith

-- A second claim under the id of an event that was claimed before adds no occurrence to any
-- fingerprint, whatever the event holds and whichever fingerprint it is claimed for; that
-- fingerprint comes with no occurrences of its own.
pub claim_exactly_once :
    (event again : LogEvent) (fp fp' : Fingerprint) (db : Counts) (h : String)
    → again.id ≡ event.id
    → fp'.occurrences ≡ 0
    → occurrences_of
        (get_fingerprint h (claim_event again fp' (claim_event event fp db).0).0.fingerprints)
      ≡ occurrences_of (get_fingerprint h (claim_event event fp db).0.fingerprints)
claim_exactly_once event again fp fp' db h same z =
    let after = (claim_event event fp db).0 in
    let counted : is_counted again.id after.events ≡ true = rw same (claimed_counted event fp db) in
    let kept = save_known again after.events (counted_any again.id after.events counted) in
    rw (claim_again again fp' after (rw kept counted))
      (ground (arith, occurrences-record h fp' 0 after.fingerprints z))

-- A claim of an event that is counted already adds nothing to any fingerprint, which comes with no
-- occurrences of its own.
pub claim_counted :
    (event : LogEvent) (fp : Fingerprint) (db : Counts) (h : String)
    → fp.occurrences ≡ 0
    → is_counted event.id db.events ≡ true
    → occurrences_of (get_fingerprint h (claim_event event fp db).0.fingerprints)
      ≡ occurrences_of (get_fingerprint h db.fingerprints)
claim_counted event fp db h z counted =
    let kept = save_known event db.events (counted_any event.id db.events counted) in
    rw (claim_again event fp db (rw kept counted))
      (ground (arith, occurrences-record h fp 0 db.fingerprints z))

-- The row as it was, but for what an occurrence was last seen with.
abbrev pub refreshed : Fingerprint → Fingerprint → Fingerprint
refreshed row seen = record row {
  template = seen.template;
  frames = seen.frames;
  severity = seen.severity;
  last_seen = seen.last_seen;
}

-- The row of a hash is there still, and only refreshed.
abbrev pub KeepsRow : String → List Fingerprint → List Fingerprint → Type 0
KeepsRow h rows after =
    (row : Fingerprint)
    → get_fingerprint h rows ≡ some row
    → (row' : Fingerprint) × (get_fingerprint h after ≡ some row') × (row' ≡ refreshed row row')

pub KeepsRow-refl : (h : String) (rows : List Fingerprint) → KeepsRow h rows rows
KeepsRow-refl h rows row e = (row, e, refl)

pub KeepsRow-trans :
    (h : String) (rows between after : List Fingerprint)
    → KeepsRow h rows between
    → KeepsRow h between after
    → KeepsRow h rows after
KeepsRow-trans h rows between after first later row e =
    let (row1, e1, same1) = first row e in
    let (row2, e2, same2) = later row1 e1 in (row2, e2, same2 ∙ ap (λ r. refreshed r row2) same1)

record-KeepsRow :
    (h : String) (fp : Fingerprint) (rows : List Fingerprint)
    → KeepsRow h rows (record_occurrence fp 0 rows).0
record-KeepsRow h fp rows row e = elim (Bool-cases (fp.fp_hash == h)) [
  | inl hit ↦
      let same : fp.fp_hash ≡ h = (eq_iff fp.fp_hash h).0 hit in
      (
        counted_row fp 0 (some row),
        get-record h fp 0 rows ∙ rw (hit, same, e) refl,
        ap
            (λ n. record row {
              template = fp.template;
              frames = fp.frames;
              severity = fp.severity;
              last_seen = fp.last_seen;
              occurrences = n;
            })
            (omega arith),
      )
  | inr miss ↦ (row, get-record h fp 0 rows ∙ rw (miss, e) refl, refl)
]

-- A claim of an event that is counted already leaves the events as they were, and of each row in the
-- fingerprints everything but the template, the frames, the severity and the time last seen.
pub claim-KeepsRow :
    (event : LogEvent) (fp : Fingerprint) (db : Counts)
    → is_counted event.id db.events ≡ true
    → ((claim_event event fp db).0.events ≡ db.events)
      × ((h : String) → KeepsRow h db.fingerprints (claim_event event fp db).0.fingerprints)
claim-KeepsRow event fp db counted =
    let kept = save_known event db.events (counted_any event.id db.events counted) in
    let again = claim_again event fp db (rw kept counted) in
    (ap (λ c. c.events) again ∙ kept, λ h. rw again (record-KeepsRow h fp db.fingerprints))

dispatched_any :
    (id : String) (rows : List EventRow)
    → is_event_dispatched id rows ≡ true
    → any_where (has_id id) rows ≡ true
unfolding is_event_dispatched find_where any_where
dispatched_any id [] e = ground arith
dispatched_any id (r ∷ rs) e = ground (arith, dispatched_any id rs)

bind_dispatched :
    (id h : String) (rows : List EventRow)
    → is_event_dispatched id rows ≡ true
    → is_event_dispatched id (update_where (has_id id) (bind_row h) rows) ≡ true
unfolding is_event_dispatched find_where update_where
bind_dispatched id h [] e = ground arith
bind_dispatched id h (r ∷ rs) e = ground (arith, bind_dispatched id h rs)

-- A claim leaves a dispatched event dispatched.
pub dispatched-claim :
    (event : LogEvent) (fp : Fingerprint) (db : Counts)
    → is_event_dispatched event.id db.events ≡ true
    → is_event_dispatched event.id (claim_event event fp db).0.events ≡ true
dispatched-claim event fp db h =
    let kept = save_known event db.events (dispatched_any event.id db.events h) in
    elim (Bool-cases (is_counted event.id (with_event event db))) [
      | inl old ↦ rw (claim_again event fp db old, kept) h
      | inr first ↦
          rw (claim_first event fp db first, kept) (bind_dispatched event.id fp.fp_hash db.events h)
    ]

-- Journaling an event that is in the table marks it, and leaves its counted flag as it was.
pub mark_lem :
    (id : String) (rows : List EventRow)
    → is_counted id rows ≡ true
    → (is_event_dispatched id (mark_event_dispatched id rows) ≡ true)
      × (is_counted id (mark_event_dispatched id rows) ≡ true)
unfolding is_event_dispatched mark_event_dispatched find_where update_where
mark_lem id [] e = ground arith
mark_lem id (r ∷ rs) e = ground (arith, mark_lem id rs)
