-- ===== src/Postgres/Shortfall.antt =====
-- What the two backends count for the events of a new fingerprint.
use wakey.Prelude.{
  List, String, [], any_where, false, some, ℕ, ◌∷◌, ◌≡◌, ap, arith, eq_refl, find_where,
  if◌then◌else◌, none, sym, true, update_where, ◌++◌, ◌==◌, ◌∙◌, any_where-update, length, refl,
  ◌+◌,
}
use wakey.Models.{Fingerprint, LogEvent}
use wakey.Storage.Fingerprints.{get_fingerprint, has_hash, record_occurrence}
use wakey.Storage.Fingerprints.Laws.{find-append_hash, get-update}
use wakey.Storage.Events.{
  Counts, EventRow, event_row, has_id, bind_row, is_counted, claim_event, save_log_event,
}
use wakey.Storage.Events.Occurrences.{occurrences_of, any_id-append, occurrences-record}
use wakey.Postgres.Counting.{upsert_occurrence, bump_row}
use wakey.Postgres.Counting as Pg

-- the claims of a list of events, all of one fingerprint, in turn
abbrev pub claims :
    (LogEvent → Fingerprint → Counts → Counts × Fingerprint)
    → List LogEvent
    → Fingerprint
    → Counts
    → Counts
claims claim [] fp db = db
claims claim (event ∷ events) fp db = claims claim events fp (claim event fp db).0

-- No event has the id of another or of a row of the table.
abbrev pub AreNew : List LogEvent → List EventRow → Type 0
AreNew [] rows = Unit {0}
AreNew (event ∷ events) rows =
    (any_where (has_id event.id) rows ≡ false) × AreNew events (event_row event ∷ rows)

-- the occurrences that a table holds for a hash
abbrev pub held : String → Counts → ℕ
held h db = occurrences_of (get_fingerprint h db.fingerprints)

-- a keyed table of events is new or not to an event by the ids alone
AreNew-same :
    (events : List LogEvent) (rows rows' : List EventRow)
    → ((id : String) → any_where (has_id id) rows ≡ any_where (has_id id) rows')
    → AreNew events rows
    → AreNew events rows'
AreNew-same [] rows rows' same h = tt
AreNew-same (event ∷ events) rows rows' same h = (
  sym (same event.id) ∙ h.0,
  AreNew-same events (event_row event ∷ rows) (event_row event ∷ rows') (λ id. wider id) h.1,
)
  where
    wider :
        (id : String)
        → any_where (has_id id) (event_row event ∷ rows)
          ≡ any_where (has_id id) (event_row event ∷ rows')
    wider id = unfold any_where in ap (λ b. if event.id == id then true else b) (same id)

stored_new :
    (event : LogEvent) (rows : List EventRow)
    → any_where (has_id event.id) rows ≡ false
    → is_counted event.id (rows ++ event_row event ∷ []) ≡ false
unfolding any_where find_where
stored_new event [] h = ground (arith, eq_refl event.id)
stored_new event (r ∷ rows) h = ground (arith, stored_new event rows)

-- what a claim of a new event leaves in the table of events
abbrev stored_rows : LogEvent → Fingerprint → List EventRow → List EventRow
stored_rows event fp rows =
    update_where (has_id event.id) (bind_row fp.fp_hash) (rows ++ event_row event ∷ [])

stored_ids :
    (event : LogEvent) (fp : Fingerprint) (rows : List EventRow) (id : String)
    → any_where (has_id id) (event_row event ∷ rows)
      ≡ any_where (has_id id) (stored_rows event fp rows)
stored_ids event fp rows id =
    let kept =
      any_where-update (has_id id) (has_id event.id) (bind_row fp.fp_hash)
        (rows ++ event_row event ∷ []) (λ x. refl) in
    let ends = any_id-append id rows (event_row event) in
    unfold any_where in ground (arith, kept, ends)

upsert_known :
    (fp : Fingerprint) (delta : ℕ) (rows : List Fingerprint) (row : Fingerprint)
    → get_fingerprint fp.fp_hash rows ≡ some row
    → (upsert_occurrence fp delta rows).0
      ≡ update_where (has_hash fp.fp_hash) (bump_row fp delta) rows
unfolding upsert_occurrence get_fingerprint
upsert_known fp delta rows row e = ground arith

upsert_fresh :
    (fp : Fingerprint) (delta : ℕ) (rows : List Fingerprint)
    → get_fingerprint fp.fp_hash rows ≡ none
    → (upsert_occurrence fp delta rows).0 ≡ rows ++ fp ∷ []
unfolding upsert_occurrence get_fingerprint
upsert_fresh fp delta rows e = ground arith

upserted :
    (fp : Fingerprint) (delta : ℕ) (rows : List Fingerprint) (row : Fingerprint)
    → get_fingerprint fp.fp_hash rows ≡ some row
    → get_fingerprint fp.fp_hash (upsert_occurrence fp delta rows).0 ≡ some (bump_row fp delta row)
unfolding upsert_occurrence get_fingerprint
upserted fp delta rows row e = rw (upsert_known fp delta rows row e) (
    get-update fp.fp_hash fp.fp_hash (bump_row fp delta) rows row (λ x. refl) e
    ∙ rw (eq_refl fp.fp_hash) refl)

inserted :
    (fp : Fingerprint) (delta : ℕ) (rows : List Fingerprint)
    → get_fingerprint fp.fp_hash rows ≡ none
    → get_fingerprint fp.fp_hash (upsert_occurrence fp delta rows).0 ≡ some fp
unfolding upsert_occurrence get_fingerprint
inserted fp delta rows e =
    rw (upsert_fresh fp delta rows e)
      (find-append_hash fp.fp_hash fp rows e ∙ rw (eq_refl fp.fp_hash) refl)

claimed_new :
    (event : LogEvent) (fp : Fingerprint) (db : Counts)
    → any_where (has_id event.id) db.events ≡ false
    → (Pg.claim_event event fp db).0 ≡ record {
      events = stored_rows event fp db.events;
      fingerprints = (upsert_occurrence fp 1 db.fingerprints).0;
    }
unfolding Pg.claim_event Pg.insert_event
claimed_new event fp db h = ground (arith, stored_new event db.events h)

AreNew-next :
    (event : LogEvent) (events : List LogEvent) (fp : Fingerprint) (rows : List EventRow)
    → AreNew events (event_row event ∷ rows)
    → AreNew events (stored_rows event fp rows)
AreNew-next event events fp rows =
    AreNew-same events (event_row event ∷ rows) (stored_rows event fp rows)
      (stored_ids event fp rows)

-- each further event of a fingerprint that Postgres has a row for adds one
postgres_counts :
    (events : List LogEvent) (fp row : Fingerprint) (db : Counts)
    → AreNew events db.events
    → get_fingerprint fp.fp_hash db.fingerprints ≡ some row
    → held fp.fp_hash (claims Pg.claim_event events fp db) ≡ row.occurrences + length events
postgres_counts [] fp row db fresh e = rw e (omega arith)
postgres_counts (event ∷ events) fp row db fresh e =
    let claimed = claimed_new event fp db fresh.0 in
    let next : Counts = record {
      events = stored_rows event fp db.events;
      fingerprints = (upsert_occurrence fp 1 db.fingerprints).0;
    } in
    ap (λ d. held fp.fp_hash (claims Pg.claim_event events fp d)) claimed
    ∙ postgres_counts events fp (bump_row fp 1 row) next
        (AreNew-next event events fp db.events fresh.1) (upserted fp 1 db.fingerprints row e)
    ∙ omega arith

-- in SQLite every new event adds one
sqlite_claimed :
    (event : LogEvent) (fp : Fingerprint) (db : Counts)
    → any_where (has_id event.id) db.events ≡ false
    → (claim_event event fp db).0 ≡ record {
      events = stored_rows event fp db.events;
      fingerprints = (record_occurrence fp 1 db.fingerprints).0;
    }
unfolding claim_event save_log_event
sqlite_claimed event fp db h = ground (arith, stored_new event db.events h)

sqlite_counts :
    (events : List LogEvent) (fp : Fingerprint) (db : Counts)
    → AreNew events db.events
    → fp.occurrences ≡ 0
    → held fp.fp_hash (claims claim_event events fp db) ≡ held fp.fp_hash db + length events
sqlite_counts [] fp db fresh z = omega arith
sqlite_counts (event ∷ events) fp db fresh z =
    let claimed = sqlite_claimed event fp db fresh.0 in
    let next : Counts = record {
      events = stored_rows event fp db.events;
      fingerprints = (record_occurrence fp 1 db.fingerprints).0;
    } in
    let one : held fp.fp_hash next ≡ 1 + held fp.fp_hash db =
      occurrences-record fp.fp_hash fp 1 db.fingerprints z ∙ rw (eq_refl fp.fp_hash) refl in
    ap (λ d. held fp.fp_hash (claims claim_event events fp d)) claimed
    ∙ sqlite_counts events fp next (AreNew-next event events fp db.events fresh.1) z
    ∙ omega (arith, one)

-- The first events of a fingerprint, `n + 1` of them and all new, leave `n + 1` occurrences in
-- SQLite and only `n` in Postgres. The fingerprint comes with no occurrences of its own.
pub postgres_shortfall :
    (event : LogEvent) (events : List LogEvent) (fp : Fingerprint) (db : Counts)
    → AreNew (event ∷ events) db.events
    → get_fingerprint fp.fp_hash db.fingerprints ≡ none
    → fp.occurrences ≡ 0
    → (held fp.fp_hash (claims claim_event (event ∷ events) fp db) ≡ length events + 1)
      × (held fp.fp_hash (claims Pg.claim_event (event ∷ events) fp db) ≡ length events)
postgres_shortfall event events fp db fresh e z =
    let claimed = claimed_new event fp db fresh.0 in
    let next : Counts = record {
      events = stored_rows event fp db.events;
      fingerprints = (upsert_occurrence fp 1 db.fingerprints).0;
    } in
    let nothing : held fp.fp_hash db ≡ 0 = ap occurrences_of e in
    (
      sqlite_counts (event ∷ events) fp db fresh z ∙ omega (arith, nothing),
      ap (λ d. held fp.fp_hash (claims Pg.claim_event events fp d)) claimed
          ∙ postgres_counts events fp fp next (AreNew-next event events fp db.events fresh.1)
              (inserted fp 1 db.fingerprints e)
          ∙ omega arith,
    )
