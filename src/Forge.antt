-- ===== src/Forge.antt =====
-- forge/port.py: what a forge adapter provides, its failures, and the console adapter.
pub mod Console
use wakey.Prelude.{Bool, Option, String, false, leb, none, some, true, ℕ}
use wakey.Models.{Fingerprint}

pub record TicketRef : Type 0 where
  pub issue_id : String
  pub url : String

-- The exceptions that an adapter raises, by class; a `ForgeError` of no subclass has the status that
-- the forge answered, if it did. `other_error` is any exception from outside the adapters.
pub data Failure : Type 0 where
  forge_auth_error forge_rate_limited forge_unreachable other_error : Failure
  forge_error : Option ℕ → Failure

-- `exc.status_code is None or exc.status_code >= 500`
abbrev pub unanswered : Option ℕ → Bool
unanswered none = true
unanswered (some status) = leb 500 status

unfoldable pub is_ambiguous_write : Failure → Bool
is_ambiguous_write forge_unreachable = true
is_ambiguous_write forge_auth_error = false
is_ambiguous_write forge_rate_limited = false
is_ambiguous_write (forge_error status) = unanswered status
is_ambiguous_write other_error = false

-- What a call gives: a value, or an exception.
pub data Reply {ℓ} (A : Type ℓ) : Type ℓ where
  returned : A → Reply A
  raised : Failure → Reply A

-- The calls that the core makes, over the state of the forge and of the adapter.
pub record ForgePort : Type 1 where
  pub Remote : Type 0
  pub create_ticket : Fingerprint → String → String → Remote → Reply TicketRef × Remote
  pub find_ticket_by_marker : String → Remote → Reply (Option TicketRef) × Remote
  pub add_comment : TicketRef → String → Remote → Reply (Unit {0}) × Remote
  pub close_ticket : TicketRef → Option String → Remote → Reply (Unit {0}) × Remote
  pub reopen_ticket : TicketRef → Option String → Remote → Reply (Unit {0}) × Remote
  pub add_label : TicketRef → String → Remote → Reply (Unit {0}) × Remote
