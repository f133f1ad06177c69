-- ===== src/Storage/Fingerprints.antt =====
-- core/storage.py, the `fingerprints` table: occurrence counting, state transitions and lookups.
pub mod Laws
pub mod Listing
use wakey.Prelude.{
  Bool, List, Option, String, [], any_where, false, find_where, if◌then◌else◌, leb, none, not,
  select_where, some, true, update_where, ℕ, ◌++◌, ◌+◌, ◌==◌, ◌||◌, ◌∷◌,
}
use wakey.Models.{
  Fingerprint, WorkState, archived, closed_auto, closed_human, dropped, new, verified_closed,
}

-- `fp_hash = ?`, the primary key
abbrev pub has_hash : String → Fingerprint → Bool
has_hash h fp = fp.fp_hash == h

unfoldable pub get_fingerprint : String → List Fingerprint → Option Fingerprint
get_fingerprint h = find_where (has_hash h)

-- what the caller gets back when the row is there: lifecycle state, ticket references and throttle
-- anchors are the table's
abbrev pub merge_row : Fingerprint → ℕ → Fingerprint → Fingerprint
merge_row incoming delta row = record incoming {
  occurrences = row.occurrences + delta;
  first_seen = row.first_seen;
  state = row.state;
  ticket_issue_id = row.ticket_issue_id;
  ticket_url = row.ticket_url;
  commented_at_occurrences = row.commented_at_occurrences;
  last_comment_at = row.last_comment_at;
  verification_started_at = row.verification_started_at;
  verification_start_occurrences = row.verification_start_occurrences;
  chronic = row.chronic;
  proposal_issue_id = row.proposal_issue_id;
  proposal_url = row.proposal_url;
  proposal_branch = row.proposal_branch;
  reserved_at = row.reserved_at;
  fix_commit_sha = row.fix_commit_sha;
}

-- `UPDATE fingerprints SET template=?, frames_json=?, severity=?, last_seen=?, occurrences=?`
abbrev pub count_row : Fingerprint → Fingerprint → Fingerprint
count_row merged row = record row {
  template = merged.template;
  frames = merged.frames;
  severity = merged.severity;
  last_seen = merged.last_seen;
  occurrences = merged.occurrences;
}

-- `_record_occurrence_locked`, and `record_occurrence` around it
unfoldable pub record_occurrence :
    Fingerprint → ℕ → List Fingerprint → List Fingerprint × Fingerprint
record_occurrence incoming delta rows = elim (find_where (has_hash incoming.fp_hash) rows) [
  | none ↦
      let stored = record incoming { occurrences = incoming.occurrences + delta } in
      (rows ++ stored ∷ [], stored)
  | some row ↦
      let merged = merge_row incoming delta row in
      (update_where (has_hash merged.fp_hash) (count_row merged) rows, merged)
]

-- the `DO UPDATE SET` list: all columns but `service`, `environment` and `first_seen`
abbrev pub overwrite_row : Fingerprint → Fingerprint → Fingerprint
overwrite_row fp row = record fp {
  fp_hash = row.fp_hash;
  service = row.service;
  environment = row.environment;
  first_seen = row.first_seen;
}

unfoldable pub save_fingerprint : Fingerprint → List Fingerprint → List Fingerprint
save_fingerprint fp rows =
    if any_where (has_hash fp.fp_hash) rows
    then update_where (has_hash fp.fp_hash) (overwrite_row fp) rows
    else rows ++ fp ∷ []

-- the `quiet` states of `list_active_fingerprints`
abbrev pub is_quiet : WorkState → Bool
is_quiet closed_auto = true
is_quiet closed_human = true
is_quiet dropped = true
is_quiet verified_closed = true
is_quiet archived = true
is_quiet _ = false

-- `ORDER BY last_seen DESC`; rows of one time keep the order of the table
unfoldable pub insert_newest : Fingerprint → List Fingerprint → List Fingerprint
insert_newest x [] = x ∷ []
insert_newest x (y ∷ ys) =
    let further = y ∷ insert_newest x ys in
    if leb y.last_seen x.last_seen then x ∷ y ∷ ys else further

unfoldable pub newest_first : List Fingerprint → List Fingerprint
unfolding insert_newest
newest_first [] = []
newest_first (x ∷ xs) = insert_newest x (newest_first xs)

-- `service is None or row["service"] == service`
abbrev pub in_service : Option String → Fingerprint → Bool
in_service none fp = true
in_service (some s) fp = fp.service == s

unfoldable pub list_active_fingerprints : Option String → List Fingerprint → List Fingerprint
unfolding newest_first
list_active_fingerprints service rows =
    select_where (in_service service)
      (newest_first (select_where (λ fp. not (is_quiet fp.state)) rows))

abbrev pub holds : String → Option String → Bool
holds x none = false
holds x (some y) = y == x

abbrev pub first_of_list : List Fingerprint → Option Fingerprint
first_of_list [] = none
first_of_list (x ∷ xs) = some x

-- `ticket_issue_id = ? OR proposal_issue_id = ? ORDER BY last_seen DESC LIMIT 1`
unfoldable pub get_fingerprint_by_issue : String → List Fingerprint → Option Fingerprint
unfolding newest_first
get_fingerprint_by_issue issue_id rows = first_of_list (
    newest_first (
      select_where (λ fp. holds issue_id fp.ticket_issue_id || holds issue_id fp.proposal_issue_id)
        rows))

unfoldable pub get_fingerprint_by_branch : String → List Fingerprint → Option Fingerprint
unfolding newest_first
get_fingerprint_by_branch branch rows =
    first_of_list (newest_first (select_where (λ fp. holds branch fp.proposal_branch) rows))

-- the first statement of `recover_stale_deliveries`
abbrev pub is_interrupted : Fingerprint → Bool
is_interrupted fp = elim fp.ticket_url [
  | some _ ↦ false
  | none ↦ elim fp.reserved_at [ none ↦ false | some _ ↦ true ]
]

unfoldable pub release_reservations : List Fingerprint → List Fingerprint
release_reservations =
    update_where is_interrupted (λ fp. record fp { state = new; reserved_at = none })
