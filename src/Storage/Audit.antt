-- ===== src/Storage/Audit.antt =====
-- core/storage.py, the `audit` table: an append-only log whose rows are chained by hashes. The
-- digest (`hashlib.sha256(…).hexdigest()`), the JSON text of the details (`json.dumps`) and the ISO
-- text of a time are parameters. The rows are in the order of `seq`.
pub mod Chain
pub mod Tamper
pub mod Backfill
use wakey.Prelude.{
  Bool, List, Option, String, [], false, if◌then◌else◌, none, not, some, true, ℕ, ◌++◌, ◌+◌, ◌<>◌,
  ◌==◌, ◌||◌, ◌∷◌, select_where, take,
}
use mathlib.Core.List.{reverse}
use wakey.Models.{AuditEvent}

pub record AuditRow : Type 0 where
  pub ts : String
  pub actor : String
  pub action : String
  pub subject : String
  pub details_json : String
  pub prev_hash : Option String
  pub entry_hash : Option String

-- `prev_hash or ""`
abbrev pub or_empty : Option String → String
or_empty none = ""
or_empty (some h) = h

-- `row_values`, and what `"|".join` makes of them behind the previous hash
unfoldable pub values_text : AuditRow → String
values_text row =
    row.ts
    <> ("|"
        <> (row.actor
            <> ("|" <> (row.action <> ("|" <> (row.subject <> ("|" <> row.details_json)))))))

unfoldable pub material : Option String → AuditRow → String
unfolding values_text
material prev_hash row = or_empty prev_hash <> ("|" <> values_text row)

-- The `entry_hash` of the last row: `ORDER BY seq DESC LIMIT 1`.
unfoldable pub last_hash : List AuditRow → Option String
last_hash [] = none
last_hash (row ∷ []) = row.entry_hash
last_hash (row ∷ next ∷ rows) = last_hash (next ∷ rows)

abbrev pub same_hash : Option String → Option String → Bool
same_hash none none = true
same_hash (some a) (some b) = a == b
same_hash _ _ = false

module _ (sha256 : String → String) (dumps : List (String × String) → String)
    (iso : ℕ → String) where
  unfoldable pub entry_hash : Option String → AuditRow → String
  unfolding material
  entry_hash prev_hash row = sha256 (material prev_hash row)

  -- a row with the given values, chained behind `prev_hash`
  unfoldable pub chained : Option String → AuditRow → AuditRow
  unfolding entry_hash
  chained prev_hash row = record row {
    prev_hash = prev_hash;
    entry_hash = some (entry_hash prev_hash row);
  }

  unfoldable pub record_audit : ℕ → AuditEvent → List AuditRow → List AuditRow
  unfolding chained last_hash
  record_audit now event rows =
      rows
      ++ chained (last_hash rows) (record {
        ts = iso now;
        actor = event.actor;
        action = event.action;
        subject = event.subject;
        details_json = dumps event.details;
        prev_hash = none;
        entry_hash = none;
      })
        ∷ []

  -- the loop of `verify_audit_chain`; `index` is the position of the row
  unfoldable pub verify_from : ℕ → Option String → List AuditRow → Bool × ℕ
  unfolding entry_hash
  verify_from index prev [] = (true, index)
  verify_from index prev (row ∷ rows) =
      let rest = verify_from (index + 1) row.entry_hash rows in
      if not (same_hash row.entry_hash (some (entry_hash prev row)))
        || not (same_hash row.prev_hash prev)
      then (false, index)
      else rest

  unfoldable pub verify_audit_chain : List AuditRow → Bool × ℕ
  unfolding verify_from
  verify_audit_chain rows = verify_from 0 none rows

  -- the loop of `_backfill_audit_chain`: legacy rows, whose `entry_hash` is null, are chained in order
  unfoldable pub backfill_from : Option String → List AuditRow → List AuditRow
  unfolding chained
  backfill_from prev [] = []
  backfill_from prev (row ∷ rows) = elim row.entry_hash [
    | some _ ↦ row ∷ backfill_from prev rows
    | none ↦ chained prev row ∷ backfill_from (some (entry_hash prev row)) rows
  ]

  -- up to the first legacy row, the newest hash so far is carried along
  unfoldable pub backfill_head : Option String → List AuditRow → List AuditRow
  unfolding backfill_from
  backfill_head prev [] = []
  backfill_head prev (row ∷ rows) = elim row.entry_hash [
    | some h ↦ row ∷ backfill_head (some h) rows
    | none ↦ backfill_from prev (row ∷ rows)
  ]

  unfoldable pub backfill_audit_chain : List AuditRow → List AuditRow
  unfolding backfill_head
  backfill_audit_chain rows = backfill_head none rows

-- `ORDER BY seq DESC LIMIT ?` under an optional subject
abbrev pub on_subject : Option String → AuditRow → Bool
on_subject none row = true
on_subject (some s) row = row.subject == s

unfoldable pub list_audit : Option String → ℕ → List AuditRow → List AuditRow
list_audit subject limit rows = take limit (reverse (select_where (on_subject subject) rows))
