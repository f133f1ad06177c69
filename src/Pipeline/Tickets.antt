-- ===== src/Pipeline/Tickets.antt =====
-- Ticket creation: what each answer of the forge leaves in the fingerprint's row.
use wakey.Prelude.{
  Option, String, eq_refl, if◌then◌else◌, none, some, ◌∙◌, ◌≡◌, Bool-cases, inl, inr, refl, true,
  ◌<>◌, Bool, arith, false, leb,
}
use wakey.Models.{Fingerprint, LogEvent, new}
use wakey.Config.{ServiceYaml}
use wakey.Forge.{
  ForgePort, Reply, TicketRef, is_ambiguous_write, raised, returned, Failure, forge_error,
  forge_unreachable,
}
use wakey.Exec.{handled, pure}
use wakey.Storage.Fingerprints.{get_fingerprint}
use wakey.Storage.Fingerprints.Laws.{get-save, saved_row}
use wakey.Pipeline.State.{World, save}
use wakey.Pipeline.Text.{title, body}
use wakey.Pipeline.{
  after_create, after_failed_create, reconcile_failure, reconcile_remote_ticket, create_reserved,
}

-- The row once a ticket is bound, and once the reservation is released.
abbrev pub bound_row : Fingerprint → TicketRef → Fingerprint
bound_row reserved ref = record reserved {
  ticket_issue_id = some ref.issue_id;
  ticket_url = some ref.url;
  reserved_at = none;
}

abbrev pub released_row : Fingerprint → Fingerprint
released_row stored = record stored { state = new; reserved_at = none }

-- The failures behind which the forge may have kept the ticket: it was not reached, it answered with
-- no status, or its status was 500 or more.
abbrev pub is_doubtful : Failure → Bool
is_doubtful forge_unreachable = true
is_doubtful (forge_error none) = true
is_doubtful (forge_error (some status)) = leb 500 status
is_doubtful _ = false

-- The row that each answer of the forge, and of the lookup behind a doubtful failure, calls for.
abbrev pub row_after :
    Reply TicketRef
    → Reply (Option TicketRef)
    → Fingerprint
    → Fingerprint
    → Fingerprint
    → Fingerprint
row_after (returned ref) lookup stored reserved row = saved_row (bound_row reserved ref) (some row)
row_after (raised exc) lookup stored reserved row =
    if is_doubtful exc
    then (elim lookup [
      | returned (some ref) ↦ saved_row (bound_row reserved ref) (some row)
      | returned none ↦ row
      | raised _ ↦ row
    ])
    else saved_row (released_row stored) (some row)

module _ (port : ForgePort) (identify : LogEvent → Fingerprint)
    (parse_config : String → Option ServiceYaml) (stored reserved : Fingerprint)
    (same_hash : reserved.fp_hash ≡ stored.fp_hash) (reason : String) where
  abbrev row_of : World (port.Remote) → Option Fingerprint
  row_of w = get_fingerprint stored.fp_hash w.counts.fingerprints

  saved :
      (fp : Fingerprint) (row : Fingerprint) (w : World (port.Remote))
      → fp.fp_hash ≡ stored.fp_hash
      → row_of w ≡ some row
      → row_of (save fp w).1 ≡ some (saved_row fp (some row))
  unfolding save
  saved fp row w h e =
      get-save stored.fp_hash fp w.counts.fingerprints ∙ rw (h, eq_refl stored.fp_hash, e)

  bound :
      (ref : TicketRef) (row : Fingerprint) (w : World (port.Remote))
      → row_of w ≡ some row
      → row_of (after_create port identify parse_config stored reserved reason ref w).1
        ≡ some (saved_row (bound_row reserved ref) (some row))
  unfolding after_create
  bound ref row w e = saved (bound_row reserved ref) row w same_hash e

  abbrev found_of : Reply (Option TicketRef) → Option TicketRef
  found_of (returned found) = found
  found_of (raised exc) = none

  abbrev lookup_at : port.Remote → Reply (Option TicketRef) × port.Remote
  lookup_at = port.find_ticket_by_marker ("fp:" <> stored.fp_hash)

  look_reply :
      (reply : Reply (Option TicketRef)) (w : World (port.Remote))
      → handled reply pure (λ _. pure none) w ≡ (returned (found_of reply), w)
  unfolding pure
  look_reply (returned found) w = refl
  look_reply (raised exc) w = refl

  look :
      (w : World (port.Remote))
      → reconcile_remote_ticket port identify parse_config stored w
        ≡ (returned (found_of (lookup_at w.remote).0), record w { remote = (lookup_at w.remote).1 })
  unfolding reconcile_remote_ticket
  look w = look_reply (lookup_at w.remote).0 (record w { remote = (lookup_at w.remote).1 })

  failed :
      (exc : Failure) (found : Option TicketRef) (row : Fingerprint) (w : World (port.Remote))
      → row_of w ≡ some row
      → row_of (after_failed_create port identify parse_config stored reserved reason exc found w).1
        ≡ some (elim found [
          | some ref ↦ saved_row (bound_row reserved ref) (some row)
          | none ↦
              if is_ambiguous_write exc then row else saved_row (released_row stored) (some row)
        ])
  unfolding after_failed_create
  failed exc (some ref) row w e = saved (bound_row reserved ref) row w same_hash e
  failed exc none row w e = elim (Bool-cases (is_ambiguous_write exc)) [
    | inl ambiguous ↦ rw ambiguous e
    | inr definite ↦ rw definite (saved (released_row stored) row w refl e)
  ]

  looked_up :
      (exc : Failure) (row : Fingerprint) (w : World (port.Remote))
      → is_ambiguous_write exc ≡ true
      → row_of w ≡ some row
      → row_of (reconcile_failure port identify parse_config stored reserved reason exc w).1
        ≡ some (elim (found_of (lookup_at w.remote).0) [
          | some ref ↦ saved_row (bound_row reserved ref) (some row)
          | none ↦
              if is_ambiguous_write exc then row else saved_row (released_row stored) (some row)
        ])
  unfolding reconcile_failure
  looked_up exc row w ambiguous e = rw ambiguous (
      rw (look w) (
        failed exc (found_of (lookup_at w.remote).0) row
          (record w { remote = (lookup_at w.remote).1 }) e))

  answered :
      (answer : Reply TicketRef) (row : Fingerprint) (w : World (port.Remote))
      → row_of w ≡ some row
      → row_of
          (handled answer
            (after_create port identify parse_config stored reserved reason)
            (reconcile_failure port identify parse_config stored reserved reason)
            w).1
        ≡ some (row_after answer (lookup_at w.remote).0 stored reserved row)
  unfolding is_ambiguous_write
  answered (returned ref) row w e = bound ref row w e
  answered (raised exc) row w e = elim (Bool-cases (is_ambiguous_write exc)) [
    | inl ambiguous ↦
        looked_up exc row w ambiguous e
        ∙ kept (lookup_at w.remote).0 (is_ambiguous_write exc) ambiguous
    | inr definite ↦
        rw definite
          (unfold reconcile_failure in rw definite (saved (released_row stored) row w refl e))
  ]
    where
      kept :
          (lookup : Reply (Option TicketRef)) (b : Bool)
          → b ≡ true
          → some (elim (found_of lookup) [
            | some ref ↦ saved_row (bound_row reserved ref) (some row)
            | none ↦ if b then row else saved_row (released_row stored) (some row)
          ])
            ≡ some (
                if b
                then (elim lookup [
                  | returned (some ref) ↦ saved_row (bound_row reserved ref) (some row)
                  | returned none ↦ row
                  | raised _ ↦ row
                ])
                else saved_row (released_row stored) (some row))
      kept lookup b h = ground arith

  abbrev answer_at : port.Remote → Reply TicketRef × port.Remote
  answer_at = port.create_ticket stored (title stored) (body stored reason)

  -- The reservation of the fingerprint is in the table. If the forge answers with a ticket, or a
  -- lookup finds one behind a failure that leaves it in doubt (the forge was not reached, no status
  -- came, or one from 500 on), the row is then bound to that ticket. Behind such a failure with no
  -- ticket found, the row is kept as reserved. Behind any other failure, also one from outside the
  -- adapter, it is released to `new`.
  pub row_of-create :
      (row : Fingerprint) (w : World (port.Remote))
      → row_of w ≡ some row
      → row_of (create_reserved port identify parse_config stored reserved reason w).1
        ≡ some (
            row_after
              (answer_at w.remote).0
              (lookup_at (answer_at w.remote).1).0
              stored
              reserved
              row)
  unfolding create_reserved
  row_of-create row w e =
      answered (answer_at w.remote).0 row (record w { remote = (answer_at w.remote).1 }) e
