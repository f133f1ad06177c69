-- ===== src/Redaction/Engine.antt =====
-- `RedactionEngine.redact` of src/wakey/security/redaction.py. A compiled pattern is known by its
-- scan of a text: what stands between the matches and the matches, in order; `none` is an exception
-- of the regex engine. The digits of a text are a parameter: `none` if it is not all digits without its
-- blanks and dashes.
use mathlib.Core.List.{reverse}
use wakey.Redaction.{luhn_checks}
use wakey.Prelude.{
  Bool, List, Option, String, [], arith, false, if◌then◌else◌, none, some, true, ◌++◌, ◌<>◌, ◌==◌,
  ◌∷◌, ◌≡◌, Option-cases, ap, inl, inr, refl, ◌∙◌, ℕ,
}

pub data Piece : Type 0 where
  kept matched : String → Piece

pub record Pattern : Type 0 where
  pub family : String
  pub custom : Bool
  pub scan : String → Option (List Piece)

-- `compiled.sub`: each match that the test admits gives way to the mark
unfoldable pub substitute : (String → Bool) → String → List Piece → String
substitute admits mark [] = ""
substitute admits mark (kept s ∷ ps) = s <> substitute admits mark ps
substitute admits mark (matched s ∷ ps) =
    let rest = substitute admits mark ps in if admits s then mark <> rest else s <> rest

-- a match that the test admits
unfoldable pub any_match : (String → Bool) → List Piece → Bool
any_match admits [] = false
any_match admits (kept s ∷ ps) = any_match admits ps
any_match admits (matched s ∷ ps) = if admits s then true else any_match admits ps

module _ (digits_of : String → Option (List ℕ)) (card_scan : String → Option (List Piece)) where
  unfoldable pub luhn_valid : String → Bool
  luhn_valid digits = elim (digits_of digits) [ none ↦ false | some ds ↦ luhn_checks (reverse ds) ]

  abbrev pub hit_name : Pattern → String
  hit_name p = if p.custom then "custom:" <> p.family else p.family

  -- one pattern on the pieces of its scan: the text after it, and its hits
  unfoldable pub replaced :
      (String → Bool) → String → String → String → List Piece → String × List String
  unfolding substitute any_match
  replaced admits family hit text ps =
      if any_match admits ps
      then (substitute admits ("[REDACTED:" <> (family <> "]")) ps, hit ∷ [])
      else (text, [])

  -- the body of the loop; cards are replaced only if they pass the Luhn test
  unfoldable pub apply_pattern : Pattern → String → Option (String × List String)
  unfolding replaced
  apply_pattern p text =
      if p.family == "credit_card"
      then (elim (card_scan text) [
        | none ↦ none
        | some ps ↦ some (replaced luhn_valid "credit_card" "credit_card" text ps)
      ])
      else (elim (p.scan text) [
        | none ↦ none
        | some ps ↦ some (replaced (λ s. true) p.family (hit_name p) text ps)
      ])

  -- the loop, with the hits of the patterns that follow
  unfoldable pub run_patterns : List Pattern → String → Option (String × List String)
  unfolding apply_pattern
  run_patterns [] text = some (text, [])
  run_patterns (p ∷ ps) text = elim (apply_pattern p text) [
    | none ↦ none
    | some (text', hits) ↦ elim (run_patterns ps text') [
      | none ↦ none
      | some (final, more) ↦ some (final, hits ++ more)
    ]
  ]

  -- `redact`: any exception destroys the text
  unfoldable pub redact : List Pattern → String → String × List String
  unfolding run_patterns
  redact patterns text = elim (run_patterns patterns text) [
    | none ↦ ("[REDACTION_FAILURE]", "engine_failure" ∷ [])
    | some result ↦ result
  ]

  applied_silent :
      (p : Pattern) (text final : String) → apply_pattern p text ≡ some (final, []) → final ≡ text
  unfolding apply_pattern
  applied_silent p text final h = ground arith

  append_nil : (xs ys : List String) → xs ++ ys ≡ [] → (xs ≡ []) × (ys ≡ [])
  append_nil [] ys h = (refl, h)
  append_nil (x ∷ xs) ys h = ground arith

  ran_silent :
      (patterns : List Pattern) (text final : String)
      → run_patterns patterns text ≡ some (final, [])
      → final ≡ text
  unfolding run_patterns
  ran_silent [] text final h = ground arith
  ran_silent (p ∷ ps) text final h = elim (Option-cases (apply_pattern p text)) [
    | inl e ↦ ground arith
    | inr ((text', hits), e) ↦ elim (Option-cases (run_patterns ps text')) [
      | inl e' ↦ ground arith
      | inr ((final', more), e') ↦
          let (no_hits, no_more) = append_nil hits more (ground arith) in
          let first : text' ≡ text =
            applied_silent p text text' (e ∙ ap (λ xs. some (text', xs)) no_hits) in
          let rest : final' ≡ text' =
            ran_silent ps text' final' (e' ∙ ap (λ xs. some (final', xs)) no_more) in
          let same : final ≡ final' = ground arith in same ∙ rest ∙ first
    ]
  ]

  ran_broken :
      (before after : List Pattern) (p : Pattern) (text : String)
      → ((s : String) → apply_pattern p s ≡ none)
      → run_patterns (before ++ p ∷ after) text ≡ none
  unfolding run_patterns
  ran_broken [] after p text broken = ground (arith, broken text)
  ran_broken (q ∷ before) after p text broken = elim (Option-cases (apply_pattern q text)) [
    | inl e ↦ ground arith
    | inr ((text', hits), e) ↦ let rest = ran_broken before after p text' broken in ground arith
  ]

  -- If the engine reports no family, the text that it gives back is the one that it was given.
  pub redact_silent :
      (patterns : List Pattern) (text : String)
      → (redact patterns text).1 ≡ []
      → (redact patterns text).0 ≡ text
  unfolding redact
  redact_silent patterns text h = elim (Option-cases (run_patterns patterns text)) [
    | inl e ↦ ground arith
    | inr ((final, hits), e) ↦
        let silent : hits ≡ [] = ground arith in
        let same = ran_silent patterns text final (e ∙ ap (λ xs. some (final, xs)) silent) in
        ground arith
  ]

  -- One pattern that raises, wherever it stands among the others, destroys the text: only the
  -- failure marker comes back, and nothing of what the other patterns made of it. The pattern is not
  -- the one of the cards, whose scan is the engine's own.
  pub redact_broken :
      (before after : List Pattern) (p : Pattern) (text : String)
      → (p.family == "credit_card") ≡ false
      → ((s : String) → p.scan s ≡ none)
      → redact (before ++ p ∷ after) text ≡ ("[REDACTION_FAILURE]", "engine_failure" ∷ [])
  unfolding redact apply_pattern
  redact_broken before after p text other broken =
      let stopped = ran_broken before after p text (λ s. ground (arith, broken s)) in ground arith
