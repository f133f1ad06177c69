-- ===== src/Storage/Events/Settling.antt =====
-- An event that was counted and dispatched stays so, whatever is claimed and journaled later.
use wakey.Prelude.{
  Bool-cases, List, String, [], any_where, arith, find_where, inl, inr, true, update_where, ◌++◌,
  ◌∷◌, ◌≡◌,
}
use wakey.Models.{Fingerprint, LogEvent}
use wakey.Storage.Events.{
  Counts, EventRow, bind_row, claim_event, event_row, has_id, is_counted, is_event_dispatched,
  mark_event_dispatched, save_log_event,
}

-- The event with the id is counted, and its policy is journaled.
abbrev pub IsSettled : String → List EventRow → Type 0
IsSettled id rows = (is_event_dispatched id rows ≡ true) × (is_counted id rows ≡ true)

append-IsSettled :
    (id : String) (rows : List EventRow) (row : EventRow)
    → IsSettled id rows
    → IsSettled id (rows ++ row ∷ [])
unfolding is_event_dispatched find_where
append-IsSettled id [] row h = ground arith
append-IsSettled id (r ∷ rows) row h = ground (arith, append-IsSettled id rows row)

save-IsSettled :
    (id : String) (event : LogEvent) (rows : List EventRow)
    → IsSettled id rows
    → IsSettled id (save_log_event event rows).0
unfolding save_log_event
save-IsSettled id event rows h = elim (Bool-cases (any_where (has_id event.id) rows)) [
  | inl known ↦ rw known h
  | inr fresh ↦ rw fresh (append-IsSettled id rows (event_row event) h)
]

bind-IsSettled :
    (id j h : String) (rows : List EventRow)
    → IsSettled id rows
    → IsSettled id (update_where (has_id j) (bind_row h) rows)
unfolding is_event_dispatched find_where update_where
bind-IsSettled id j h [] e = ground arith
bind-IsSettled id j h (r ∷ rows) e = ground (arith, bind-IsSettled id j h rows)

pub mark-IsSettled :
    (id j : String) (rows : List EventRow)
    → IsSettled id rows
    → IsSettled id (mark_event_dispatched j rows)
unfolding is_event_dispatched mark_event_dispatched find_where update_where
mark-IsSettled id j [] e = ground arith
mark-IsSettled id j (r ∷ rows) e = ground (arith, mark-IsSettled id j rows)

pub claim-IsSettled :
    (id : String) (event : LogEvent) (fp : Fingerprint) (db : Counts)
    → IsSettled id db.events
    → IsSettled id (claim_event event fp db).0.events
unfolding claim_event
claim-IsSettled id event fp db h =
    let saved = save-IsSettled id event db.events h in
    elim (Bool-cases (is_counted event.id (save_log_event event db.events).0)) [
      | inl counted ↦ rw counted saved
      | inr fresh ↦ rw fresh (bind-IsSettled id event.id fp.fp_hash _ saved)
    ]
