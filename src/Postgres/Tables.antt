-- ===== src/Postgres/Tables.antt =====
-- storage/postgres.py: the fingerprints, events, services, deployments, secrets and audit tables. The
-- parameters are those of the SQLite tables.
use mathlib.Core.List.{reverse}
use wakey.Prelude.{
  Bool, List, Option, String, [], any_where, count_where, delete_where, eqb, false, find_where,
  if◌then◌else◌, leb, ltb, map, none, not, select_where, some, take, true, update_where, ℕ, ◌&&◌,
  ◌++◌, ◌+◌, ◌==◌, ◌||◌, ◌∷◌,
}
use wakey.Models.{AuditEvent, DeployEvent, Fingerprint, LogEvent, Service}
use wakey.Storage.Fingerprints.{
  has_hash, overwrite_row, is_quiet, newest_first, holds, first_of_list,
}
use wakey.Storage.Events.{EventRow, has_id, is_bound, is_unbound, event_of, recent_first, is_from}
use wakey.Storage.Deploys.{latest_first}
use wakey.Storage.Services.{is_named, on_secret}
use wakey.Storage.Secrets.{SecretRow, has_key}
use wakey.Storage.Audit.{AuditRow, material, last_hash, same_hash, on_subject}

unfoldable pub get_fingerprint : String → List Fingerprint → Option Fingerprint
get_fingerprint h = find_where (has_hash h)

unfoldable pub get_fingerprint_by_issue : String → List Fingerprint → Option Fingerprint
get_fingerprint_by_issue issue_id rows = first_of_list (
    newest_first (
      select_where (λ fp. holds issue_id fp.ticket_issue_id || holds issue_id fp.proposal_issue_id)
        rows))

unfoldable pub get_fingerprint_by_branch : String → List Fingerprint → Option Fingerprint
get_fingerprint_by_branch branch rows =
    first_of_list (newest_first (select_where (λ fp. holds branch fp.proposal_branch) rows))

unfoldable pub save_fingerprint : Fingerprint → List Fingerprint → List Fingerprint
save_fingerprint fp rows =
    if any_where (has_hash fp.fp_hash) rows
    then update_where (has_hash fp.fp_hash) (overwrite_row fp) rows
    else rows ++ fp ∷ []

-- the service is a condition of the query, and not a filter behind it
unfoldable pub list_active_fingerprints : Option String → List Fingerprint → List Fingerprint
list_active_fingerprints none rows =
    newest_first (select_where (λ fp. not (is_quiet fp.state)) rows)
list_active_fingerprints (some service) rows =
    newest_first (select_where (λ fp. not (is_quiet fp.state) && fp.service == service) rows)

unfoldable pub is_event_dispatched : String → List EventRow → Bool
is_event_dispatched id rows = elim (find_where (has_id id) rows) [
  | none ↦ false
  | some row ↦ row.dispatched
]

unfoldable pub mark_event_dispatched : String → List EventRow → List EventRow
mark_event_dispatched id = update_where (has_id id) (λ row. record row { dispatched = true })

-- `service = %s AND environment = %s AND ts >= %s AND ts <= %s`
abbrev pub is_within : String → String → ℕ → ℕ → EventRow → Bool
is_within service environment since until row =
    ((row.service == service && row.environment == environment) && leb since row.ts)
    && leb row.ts until

unfoldable pub count_events : String → String → ℕ → ℕ → List EventRow → ℕ
count_events service environment since until =
    count_where (is_within service environment since until)

unfoldable pub count_fingerprint_events : Fingerprint → ℕ → ℕ → List EventRow → Option ℕ
count_fingerprint_events fp since until rows =
    let window = select_where (is_within fp.service fp.environment since until) rows in
    if eqb (count_where is_unbound window) 0
    then some (count_where (is_bound fp.fp_hash) window)
    else none

unfoldable pub recent_events : String → Option String → ℕ → List EventRow → List LogEvent
recent_events service environment limit rows =
    map event_of (take limit (recent_first (select_where (is_from service environment) rows)))

unfoldable pub prune_events : ℕ → List EventRow → List EventRow × ℕ
prune_events older_than rows = (
  delete_where (λ row. ltb row.ts older_than) rows,
  count_where (λ row. ltb row.ts older_than) rows,
)

unfoldable pub save_deploy : DeployEvent → List DeployEvent → List DeployEvent
save_deploy event rows = rows ++ event ∷ []

unfoldable pub list_recent_deploys : String → ℕ → List DeployEvent → List DeployEvent
list_recent_deploys service limit rows =
    take limit (latest_first (select_where (λ (d : DeployEvent). d.service == service) rows))

unfoldable pub get_secret : String → List SecretRow → Option String
get_secret key rows = elim (find_where (has_key key) rows) [
  | none ↦ none
  | some row ↦ some row.value
]

unfoldable pub set_secret : ℕ → String → String → List SecretRow → List SecretRow
set_secret now key value rows =
    if any_where (has_key key) rows
    then update_where (has_key key) (λ row. record row { value = value; updated_at = now }) rows
    else rows ++ record { key = key; value = value; updated_at = now } ∷ []

unfoldable pub delete_secret : String → List SecretRow → List SecretRow
delete_secret key = delete_where (has_key key)

module _ (seal unseal : String → String) where
  unfoldable pub service_from_row : Service → Service
  service_from_row row = record row { webhook_secret = on_secret unseal row.webhook_secret }

  unfoldable pub save_service : Service → List Service → List Service
  save_service s rows =
      let sealed = record s { webhook_secret = on_secret seal s.webhook_secret } in
      if any_where (is_named s.name) rows
      then update_where (is_named s.name) (λ row. sealed) rows
      else rows ++ sealed ∷ []

  unfoldable pub get_service : String → List Service → Option Service
  unfolding service_from_row
  get_service name rows = elim (find_where (is_named name) rows) [
    | none ↦ none
    | some row ↦ some (service_from_row row)
  ]

module _ (sha256 : String → String) (dumps : List (String × String) → String)
    (iso : ℕ → String) where
  unfoldable pub audit_entry_hash : Option String → AuditRow → String
  audit_entry_hash prev_hash row = sha256 (material prev_hash row)

  unfoldable pub record_audit : ℕ → AuditEvent → List AuditRow → List AuditRow
  unfolding audit_entry_hash
  record_audit now event rows =
      let values : AuditRow = record {
        ts = iso now;
        actor = event.actor;
        action = event.action;
        subject = event.subject;
        details_json = dumps event.details;
        prev_hash = none;
        entry_hash = none;
      } in
      rows
      ++ record values {
        prev_hash = last_hash rows;
        entry_hash = some (audit_entry_hash (last_hash rows) values);
      }
        ∷ []

  -- the loop over `enumerate(rows)`
  unfoldable pub verify_rows : ℕ → Option String → List AuditRow → Bool × ℕ
  unfolding audit_entry_hash
  verify_rows index prev [] = (true, index)
  verify_rows index prev (row ∷ rows) =
      let rest = verify_rows (index + 1) row.entry_hash rows in
      if not (same_hash row.entry_hash (some (audit_entry_hash prev row)))
        || not (same_hash row.prev_hash prev)
      then (false, index)
      else rest

  unfoldable pub verify_audit_chain : List AuditRow → Bool × ℕ
  unfolding verify_rows
  verify_audit_chain rows = verify_rows 0 none rows

unfoldable pub list_audit : Option String → ℕ → List AuditRow → List AuditRow
list_audit subject limit rows = take limit (reverse (select_where (on_subject subject) rows))
