-- ===== src/Tests/Masking.antt =====
-- Texts through the redaction engine.
use wakey.Prelude.{◌++◌, List, Option, String, [], false, none, refl, some, true, ℕ, ◌∷◌, ◌≡◌}
use wakey.Redaction.Engine.{
  redact_broken, Pattern, Piece, any_match, apply_pattern, kept, matched, redact, replaced,
  run_patterns, substitute,
}

-- a pattern that matches a whole text, one that matches nothing, and one that raises
abbrev whole : Pattern
whole = record { family = "token"; custom = false; scan = λ s. some (matched s ∷ []) }

abbrev nothing : Pattern
nothing = record { family = "email"; custom = true; scan = λ s. some (kept s ∷ []) }

abbrev broken : Pattern
broken = record { family = "slow"; custom = true; scan = λ s. none }

abbrev no_digits : String → Option (List ℕ)
no_digits text = none

abbrev no_cards : String → Option (List Piece)
no_cards text = some (kept text ∷ [])

redacts_whole :
    redact no_digits no_cards (nothing ∷ whole ∷ []) "t0p" ≡ ("[REDACTED:token]", "token" ∷ [])
unfolding redact run_patterns apply_pattern replaced any_match substitute
redacts_whole = refl

redact_broken_example :
    redact no_digits no_cards ((whole ∷ []) ++ broken ∷ nothing ∷ []) "t0p"
    ≡ ("[REDACTION_FAILURE]", "engine_failure" ∷ [])
redact_broken_example =
    redact_broken no_digits no_cards (whole ∷ []) (nothing ∷ []) broken "t0p" refl (λ s. refl)
