-- ===== src/Rca.antt =====
-- agents/rca.py: the classification of a fingerprint, the hourly budget and the dispatch pass. A
-- confidence is a float in [0, 1], and stands here in millionths.
pub mod Budget
pub mod Caps
pub mod Dispatch
pub mod Untouched
use wakey.Prelude.{
  Bool, List, Option, String, [], any_where, contains, false, if◌then◌else◌, none, some, true, ℕ,
  ◌&&◌, ◌<>◌, ◌==◌, ◌∷◌,
}
use wakey.Models.{Fingerprint, TraceFrame, WorkState, awaiting_human, opened}
use wakey.Forge.{ForgePort, Reply}
use wakey.Exec.{pure, gets, ◌>>=◌, ◌>>◌}
use wakey.Pipeline.State.{World, audit_event, on_forge, save}
use wakey.Prelude.Assoc.{lookup}

pub record RcaResult : Type 0 where
  pub classification : String
  pub confidence : ℕ
  pub summary : String
  pub usage : List (String × String)

-- `_INFRA_MARKERS`, `_CONFIG_MARKERS` and `_CODE_FIX_MARKERS`
abbrev pub infra_markers : List String
infra_markers =
    "connection refused" ∷ "timed out" ∷ "timeout" ∷ "econnrefused" ∷ "connection reset"
    ∷ "permission denied" ∷ "address already in use" ∷ "disk quota" ∷ []

abbrev pub config_markers : List String
config_markers =
    "no module named" ∷ "modulenotfounderror" ∷ "importerror" ∷ "cannot find module" ∷ []

abbrev pub code_fix_markers : List String
code_fix_markers =
    "typeerror" ∷ "keyerror" ∷ "attributeerror" ∷ "valueerror" ∷ "indexerror" ∷ "undefined" ∷ []

-- `any(marker in haystack for marker in markers)`
unfoldable pub has_marker : List String → String → Bool
has_marker markers haystack = any_where (λ marker. contains marker haystack) markers

abbrev pub has_frames : List TraceFrame → Bool
has_frames [] = false
has_frames (frame ∷ frames) = true

abbrev pub verdict_of : String → ℕ → String → RcaResult
verdict_of classification confidence summary = record {
  classification = classification;
  confidence = confidence;
  summary = summary;
  usage = [];
}

-- `classify`; `lower` is `str.lower`
unfoldable pub classify : (String → String) → Fingerprint → RcaResult
unfolding has_marker
classify lower fp =
    let haystack = lower fp.template in
    if has_marker infra_markers haystack
    then verdict_of "infra" 800000 "Dependency or environment failure (refusal/timeout pattern)."
    else if has_marker config_markers haystack
    then verdict_of "config" 700000 "Missing module or import — likely packaging/deploy drift."
    else if has_marker code_fix_markers haystack && has_frames fp.frames
    then verdict_of "code-fix" 600000
        "Runtime type/access error with stack frames — code path identified."
    else if has_frames fp.frames
    then verdict_of "needs-human" 400000 "Error with stack context but no recognised pattern."
    else verdict_of "needs-human" 200000 "No stack frames and no known pattern — needs human eyes."

-- `result.usage.get(key, default)`
abbrev pub usage_or : String → String → List (String × String) → String
usage_or key default usage = elim (lookup key usage) [ none ↦ default | some v ↦ v ]

abbrev pub refined : Option RcaResult → RcaResult → RcaResult
refined none result = result
refined (some better) result = better

abbrev pub issue_of : Fingerprint → String
issue_of fp = elim fp.ticket_issue_id [
  | none ↦ fp.fp_hash
  | some id ↦ if id == "" then fp.fp_hash else id
]

abbrev pub verdict_state : RcaResult → WorkState
verdict_state result = if result.classification == "needs-human" then awaiting_human else opened

-- The model tier answers through `analyze`, and `evidence` is the text that `_evidence` collects;
-- `percent` and `decimal` print a confidence.
module _ (port : ForgePort) (lower : String → String)
    (analyze : Option (Fingerprint → String → Option RcaResult))
    (evidence : Fingerprint → World (port.Remote) → String) (percent decimal : ℕ → String) where
  abbrev pub Pass : Type 0 → Type 0
  Pass A = World (port.Remote) → Reply A × World (port.Remote)

  -- `_comment`
  unfoldable pub comment : RcaResult → String
  comment result =
      "**RCA** — class `"
      <> (result.classification
          <> ("` · confidence "
              <> (percent result.confidence
                  <> ("\n\n"
                      <> (result.summary
                          <> "\n\nRespond `@wakey fix` to request a suggested patch.")))))

  unfoldable pub verdict : Fingerprint → String → RcaResult
  unfolding classify
  verdict fp found = elim analyze [
    | none ↦ classify lower fp
    | some model ↦ refined (model fp found) (classify lower fp)
  ]

  abbrev pub comment_if : Option String → Fingerprint → RcaResult → Pass (Unit {0})
  comment_if none fp result = pure tt
  comment_if (some url) fp result =
      on_forge (port.add_comment (record { issue_id = issue_of fp; url = url }) (comment result))

  unfoldable pub investigate : Fingerprint → Pass RcaResult
  unfolding verdict comment save audit_event on_forge ◌>>=◌
  investigate fp = do
    found ← gets (evidence fp)
    let result = verdict fp found
    comment_if fp.ticket_url fp result
    save (record fp { state = verdict_state result })
    audit_event (record {
      ts = 0;
      actor = "agent";
      action = "rca.classify";
      subject = "fp:" <> fp.fp_hash;
      details =
          ("class", result.classification)
          ∷ ("confidence", decimal result.confidence)
          ∷ ("summary", result.summary)
          ∷ ("model", usage_or "model" "heuristic" result.usage)
          ∷ ("input_tokens", usage_or "input_tokens" "0" result.usage)
          ∷ ("output_tokens", usage_or "output_tokens" "0" result.usage)
          ∷ ("evidence", if found == "" then "fingerprint-only" else "repository+deploy")
          ∷ [];
    })
    pure result
