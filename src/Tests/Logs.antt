-- ===== src/Tests/Logs.antt =====
-- The audit log, the counters, the gate, the verdicts and the ticket lifecycle at small inputs.
use wakey.Prelude.{
  Bool, eqb, leb, List, String, [], arith, count_where, false, if◌then◌else◌, length, refl, some,
  str, true, ◌++◌, ◌+◌, ◌==◌, ◌↔◌, ◌∷◌, ◌≡◌, ◌≤◌, ◌⊎◌, none,
}
use wakey.Prelude.Assoc.{lookup, remove, replace}
use Prim.Native.String.{count}
use Prim.Native.Nat.{◌%◌}
use wakey.Models.{AuditEvent, DeployEvent, Fingerprint, busy, critical, error, new, opened, rank}
use wakey.Config.{default_config}
use wakey.Storage.Audit.{
  AuditRow, record_audit, verify_audit_chain, verify_from, backfill_audit_chain,
}
use wakey.Storage.Audit.Chain.{verify-record}
use wakey.Storage.Audit.Tamper.{HasCollision, SameValues, verify_tamper_evident}
use wakey.Storage.Audit.Backfill.{verify-backfill}
use wakey.Windows.{
  Counters, count_in_window, drop_expired, drop_old, is_unexpired, record_time, refresh, window_of,
}
use wakey.Windows.Refinement.{count-record, count_lem}
use wakey.Windows.Bounds.{length-record-le}
use wakey.Policy.Gate
use wakey.Policy.Gate.{quieted_by_human}
use wakey.Policy.Gate.Laws.{OverThreshold, decide-wake_iff}
use wakey.Tickets
use wakey.Tests.Data.{boom, counters, fatal}

-- a digest of one letter
abbrev digest : String → String
digest text = "0"

abbrev dumps : List (String × String) → String
dumps details = "{}"

abbrev noted : AuditEvent
noted = record { ts = 0; actor = "system"; action = "prune.run"; subject = "storage"; details = [] }

abbrev log : List AuditRow
log = record_audit digest dumps str 7 noted []

log_verifies : verify_audit_chain digest dumps str log ≡ (true, 1)
log_verifies =
    verify-record digest dumps str 7 0 noted [] (unfold verify_audit_chain verify_from in refl)

abbrev legacy : AuditRow
legacy = record {
  ts = "1";
  actor = "system";
  action = "ticket.create";
  subject = "fp:abc";
  details_json = "{}";
  prev_hash = none;
  entry_hash = none;
}

verify_backfill_example :
    verify_audit_chain digest dumps str (backfill_audit_chain digest dumps str (log ++ legacy ∷ []))
    ≡ (true, 1 + 1)
verify_backfill_example =
    verify-backfill digest dumps str 1 log (legacy ∷ []) log_verifies (refl, tt)

-- a digest that tells texts of even and of odd length apart
abbrev bit : Bool → String
bit true = "0"
bit false = "1"

abbrev parity : String → String
parity text = bit (eqb (count text % 2) 0)

bit-length : (a b : Bool) → count (bit a) ≡ count (bit b)
bit-length true true = refl
bit-length true false = refl
bit-length false true = refl
bit-length false false = refl

abbrev longer_log : List AuditRow
longer_log = record_audit parity dumps str 8 noted (record_audit parity dumps str 7 noted [])

longer_log_verifies : verify_audit_chain parity dumps str longer_log ≡ (true, 2)
longer_log_verifies =
    verify-record parity dumps str 8 1 noted (record_audit parity dumps str 7 noted [])
      (verify-record parity dumps str 7 0 noted [] (unfold verify_audit_chain verify_from in refl))

verify_tamper_evident_example :
    SameValues longer_log longer_log ⊎ HasCollision parity longer_log longer_log
verify_tamper_evident_example =
    verify_tamper_evident parity dumps str
      (λ s t. bit-length (eqb (count s % 2) 0) (eqb (count t % 2) 0)) 2 2 longer_log longer_log refl
      longer_log_verifies longer_log_verifies refl

abbrev counted : Counters
counted = record counters { windows = ("abc", 3 ∷ 5 ∷ []) ∷ ("old", 1 ∷ []) ∷ [] }

count_lem_example :
    ((count_in_window counted "abc" 60000004).1
      ≡ count_where (is_unexpired counted.window_seconds 60000004) (window_of counted "abc"))
    × (count_where
          (is_unexpired counted.window_seconds 60000005)
          (window_of (count_in_window counted "abc" 60000004).0 "old")
        ≡ count_where (is_unexpired counted.window_seconds 60000005) (window_of counted "old"))
count_lem_example =
    count_lem counted "abc" "old" 60000004 60000005 (unfold lookup in ground arith) (omega arith)

count_record_example :
    (count_in_window (record_time counted "abc" 8) "abc" 9).1
    ≡ (if "abc" == "abc" then (if leb 9 (8 + counted.window_seconds) then 1 else 0) else 0)
      + (count_in_window counted "abc" 9).1
count_record_example =
    count-record counted "abc" "abc" 8 9
      (unfold refresh drop_expired drop_old lookup remove replace in ground arith) (omega arith)
      (unfold lookup in ground arith) (unfold lookup in ground arith)

record_bounded_example : length (record_time counted "new" 8).windows ≤ 2
record_bounded_example = length-record-le counted "new" 8

decide_wake_example : ((Gate.decide fatal default_config 1).action ≡ Gate.wake) ↔ (
    (rank error ≤ rank critical)
    × (busy new ≡ false)
    × (quieted_by_human new ≡ false)
    × OverThreshold fatal default_config 1)
decide_wake_example = decide-wake_iff fatal default_config 1

abbrev merged : Fingerprint
merged = record boom { verification_started_at = some 100; fix_commit_sha = some "c0ffee" }

abbrev deploys : List DeployEvent
deploys = record { service = "shop"; environment = "prod"; sha = "c0ffee1"; deployed_at = 200 } ∷ []

abbrev silent : Fingerprint
silent = record boom { state = opened; ticket_url = some "console://tickets/abc" }
