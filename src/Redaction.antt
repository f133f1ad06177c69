-- ===== src/Redaction.antt =====
-- security/redaction.py: the Luhn test, and the redaction of an event. What the engine makes of one
-- text is a parameter.
pub mod Luhn
pub mod Engine
use wakey.Prelude.{
  Bool, List, Option, String, [], eqb, false, if◌then◌else◌, ltb, none, not, some, true, ℕ, ◌%◌,
  ◌*◌, ◌++◌, ◌+◌, ◌-◌, ◌==◌, ◌∷◌,
}
use wakey.Prelude.Assoc.{lookup, replace}
use wakey.Models.{LogEvent}

-- `enumerate(reversed(compact))`: the value that a digit at an odd or even index counts for
abbrev pub luhn_value : Bool → ℕ → ℕ
luhn_value false value = value
luhn_value true value = let doubled = value * 2 in if ltb 9 doubled then doubled - 9 else doubled

-- the loop over the reversed digits; the flag says that the index is odd
unfoldable pub luhn_total : Bool → List ℕ → ℕ
luhn_total odd [] = 0
luhn_total odd (d ∷ ds) = luhn_value odd d + luhn_total (not odd) ds

-- the test on the reversed digits
unfoldable pub luhn_checks : List ℕ → Bool
unfolding luhn_total
luhn_checks ds = eqb (luhn_total false ds % 10) 0

-- The dictionary that a comprehension builds: a later value of a key takes the place of the earlier.
unfoldable pub put : String → String → List (String × String) → List (String × String)
put k v m = elim (lookup k m) [ none ↦ m ++ (k, v) ∷ [] | some _ ↦ replace k v m ]

unfoldable pub redact_pairs :
    (String → String) → List (String × String) → List (String × String) → List (String × String)
unfolding put
redact_pairs redact done [] = done
redact_pairs redact done ((k, v) ∷ pairs) =
    redact_pairs redact (put (redact k) (redact v) done) pairs

-- `redact(s) if s else None`
abbrev pub redact_optional : (String → String) → Option String → Option String
redact_optional redact none = none
redact_optional redact (some s) = if s == "" then none else some (redact s)

unfoldable pub sanitize_log_event : (String → String) → LogEvent → LogEvent
unfolding redact_pairs
sanitize_log_event redact event = record event {
  message = redact event.message;
  trace_id = redact_optional redact event.trace_id;
  request_id = redact_optional redact event.request_id;
  attributes = redact_pairs redact [] event.attributes;
}
