-- ===== src/Storage/Events/Occurrences.antt =====
-- The occurrences of a fingerprint against the events that are counted for it, table by table.
use wakey.Prelude.{
  Bool, Bool-cases, List, Option, Option-cases, String, [], any_where, arith, count_where,
  count_where-append, eq_iff, eq_refl, false, find_where, if◌then◌else◌, inl, inr, none, refl, some,
  true, update_where, update_where-none, ℕ, ◌&&◌, ◌++◌, ◌+◌, ◌==◌, ◌||◌, ◌∙◌, ◌∷◌, ◌≡◌,
}
use wakey.Models.{Fingerprint, LogEvent}
use wakey.Storage.Fingerprints.{get_fingerprint, holds, record_occurrence}
use wakey.Storage.Fingerprints.Laws.{get-record}
use wakey.Storage.Events.{Counts, EventRow, HasIds, bind_row, event_row, has_id, save_log_event}

-- the occurrences that the table holds for a fingerprint
abbrev pub occurrences_of : Option Fingerprint → ℕ
occurrences_of none = 0
occurrences_of (some fp) = fp.occurrences

-- an event that was counted for the fingerprint
abbrev pub counts_for : String → EventRow → Bool
counts_for h row = row.counted && holds h row.fp_hash

-- Every fingerprint has as many occurrences as there are events counted for it.
abbrev pub IsCounted : Counts → Type 0
IsCounted db =
    (h : String)
    → occurrences_of (get_fingerprint h db.fingerprints) ≡ count_where (counts_for h) db.events

pub any_id-append :
    (id : String) (rows : List EventRow) (row : EventRow)
    → any_where (has_id id) (rows ++ row ∷ []) ≡ (any_where (has_id id) rows || has_id id row)
unfolding any_where
any_id-append id [] row = ground arith
any_id-append id (r ∷ rows) row = ground (arith, any_id-append id rows row)

append-HasIds :
    (rows : List EventRow) (row : EventRow)
    → any_where (has_id row.id) rows ≡ false
    → HasIds rows
    → HasIds (rows ++ row ∷ [])
unfolding any_where
append-HasIds [] row h k = (refl, tt)
append-HasIds (r ∷ rows) row h k = ground (
  arith,
  any_id-append r.id rows row,
  eq_iff r.id row.id,
  eq_iff row.id r.id,
  append-HasIds rows row,
)

pub save-HasIds :
    (event : LogEvent) (rows : List EventRow) → HasIds rows → HasIds (save_log_event event rows).0
unfolding save_log_event
save-HasIds event rows k = ground (arith, append-HasIds rows (event_row event))

-- Storing an event counts nothing.
pub save-counts :
    (h : String) (event : LogEvent) (rows : List EventRow)
    → count_where (counts_for h) (save_log_event event rows).0 ≡ count_where (counts_for h) rows
unfolding save_log_event
save-counts h event rows =
    ground (arith, count_where-append (counts_for h) rows (event_row event ∷ []), new_row h)
  where
    new_row : (h : String) → count_where (counts_for h) (event_row event ∷ []) ≡ 0
    new_row h = unfold count_where in refl

find-found :
    (p : EventRow → Bool) (rows : List EventRow)
    → any_where p rows ≡ true
    → (row : EventRow) × (find_where p rows ≡ some row)
unfolding any_where find_where
find-found p [] h = ground arith
find-found p (r ∷ rows) h = elim (Bool-cases (p r)) [
  | inl hit ↦ (r, rw hit)
  | inr miss ↦ rw miss (find-found p rows (ground arith))
]

pub any_id-save :
    (event : LogEvent) (rows : List EventRow)
    → any_where (has_id event.id) (save_log_event event rows).0 ≡ true
unfolding save_log_event
any_id-save event rows =
    ground (arith, any_id-append event.id rows (event_row event), eq_refl event.id)

-- After a save the event is in the table.
pub saved_row_found :
    (event : LogEvent) (rows : List EventRow)
    → (row : EventRow) × (find_where (has_id event.id) (save_log_event event rows).0 ≡ some row)
saved_row_found event rows =
    find-found (has_id event.id) (save_log_event event rows).0 (any_id-save event rows)

id_same :
    (id : String) (r : EventRow) (rows : List EventRow)
    → has_id id r ≡ true
    → any_where (has_id id) rows ≡ any_where (has_id r.id) rows
id_same id r rows h = ground (arith, eq_iff r.id id)

-- Binding one event that was not counted adds one to its fingerprint's count.
pub bind-counts :
    (h id fp_hash : String) (rows : List EventRow) (row : EventRow)
    → HasIds rows
    → find_where (has_id id) rows ≡ some row
    → row.counted ≡ false
    → count_where (counts_for h) (update_where (has_id id) (bind_row fp_hash) rows)
      ≡ (if fp_hash == h then 1 else 0) + count_where (counts_for h) rows
unfolding find_where update_where count_where
bind-counts h id fp_hash [] row k e c = ground arith
bind-counts h id fp_hash (r ∷ rows) row k e c = elim (Bool-cases (has_id id r)) [
  | inl hit ↦
      let rest =
        update_where-none (has_id id) (bind_row fp_hash) rows (id_same id r rows hit ∙ k.0) in
      ground (arith, rest)
  | inr miss ↦ ground (arith, bind-counts h id fp_hash rows row k.1)
]

-- The table's occurrences after a record.
pub occurrences-record :
    (h : String) (fp : Fingerprint) (delta : ℕ) (rows : List Fingerprint)
    → fp.occurrences ≡ 0
    → occurrences_of (get_fingerprint h (record_occurrence fp delta rows).0)
      ≡ (if fp.fp_hash == h then delta else 0) + occurrences_of (get_fingerprint h rows)
occurrences-record h fp delta rows z =
    rw (get-record h fp delta rows) (elim (Bool-cases (fp.fp_hash == h)) [
      | inl hit ↦
          let same : fp.fp_hash ≡ h = (eq_iff fp.fp_hash h).0 hit in
          rw same (elim (Option-cases (get_fingerprint h rows)) [
            | inl e ↦ rw (e, eq_refl h) (omega arith)
            | inr (row, e) ↦ rw (e, eq_refl h) (omega arith)
          ])
      | inr miss ↦ rw miss (omega arith)
    ])
