-- ===== src/Fix/Delivery.antt =====
-- agents/fix_delivery.py: a proven patch becomes a branch, a commit and a draft proposal.
use wakey.Prelude.{
  Bool, Option, String, [], eqb, false, if◌then◌else◌, none, not, some, str, strip, suc, take_chars,
  true, zero, ℕ, ◌+◌, ◌-◌, ◌<>◌, ◌==◌, ◌∷◌,
}
use wakey.Models.{Fingerprint, awaiting_human}
use wakey.Forge.{ForgePort, Failure, Reply, TicketRef, other_error}
use wakey.Exec.{pure, raise, try, ◌>>=◌, ◌>>◌}
use wakey.Pipeline.{bool_text}
use wakey.Pipeline.State.{World, audit_event, on_forge, save}
use wakey.Fix.Loop.{Files, FixResult, no_files}

-- The proposal calls of forge/port.py, over the state of a forge.
pub record ProposalPort (Remote : Type 0) : Type 0 where
  pub default_branch : Remote → Reply String × Remote
  pub create_branch : String → String → Remote → Reply (Unit {0}) × Remote
  pub commit_files : String → String → Files → Remote → Reply String × Remote
  pub open_draft_proposal : String → String → String → String → Remote → Reply TicketRef × Remote

abbrev pub max_branch_attempts : ℕ
max_branch_attempts = 3

-- `proposal_branch`
unfoldable pub proposal_branch : Fingerprint → ℕ → String
proposal_branch fp attempt =
    let stem = "wakey/fix-" <> take_chars 8 fp.fp_hash in
    if eqb attempt 1 then stem else stem <> ("-" <> str attempt)

abbrev pub or_one : Option ℕ → ℕ
or_one none = 1
or_one (some n) = n

-- `_bound_attempt`; `number` is `int` on a text of digits
unfoldable pub bound_attempt : (String → Option ℕ) → Option String → Fingerprint → ℕ
unfolding proposal_branch
bound_attempt number none fp = 1
bound_attempt number (some branch) fp =
    let stem = proposal_branch fp 1 in
    if branch == stem
    then 1
    else elim (strip (stem <> "-") branch) [ none ↦ 1 | some suffix ↦ or_one (number suffix) ]

abbrev pub same_text : String → Option String → Bool
same_text name none = false
same_text name (some branch) = branch == name

-- The answer of `deliver`.
pub data Delivered : Type 0 where
  undelivered : String → Delivered
  published : (branch commit url : String) → Delivered

-- `title` is `proposal_title`, and `body` is `format_proposal_body` with the test summary and
-- the line that follows it: of the fix, the RCA, the verifier's reason, the commit, the branch and
-- the base.
pub record Texts : Type 0 where
  pub title : Fingerprint → String
  pub body : Fingerprint → FixResult → String → String → String → String → String → String

module _ (port : ForgePort) (proposals : ProposalPort (port.Remote)) (number : String → Option ℕ)
    (texts : Texts) where
  abbrev pub Step : Type 0 → Type 0
  Step A = World (port.Remote) → Reply A × World (port.Remote)

  -- the loop of `_ensure_branch`, with the failure of the last round
  unfoldable pub branch_from : ℕ → ℕ → Option Failure → Fingerprint → String → Step String
  unfolding proposal_branch on_forge save ◌>>=◌ try
  branch_from zero attempt none fp base_ref = raise other_error
  branch_from zero attempt (some exc) fp base_ref = raise exc
  branch_from (suc n) attempt last fp base_ref =
      let name = proposal_branch fp attempt in
      try (on_forge (proposals.create_branch name base_ref))
        (λ x.
          if same_text name fp.proposal_branch
          then pure name
          else (do save (record fp { proposal_branch = some name }); pure name))
        (λ exc. branch_from n (attempt + 1) (some exc) fp base_ref)

  -- `range(start, MAX_BRANCH_ATTEMPTS + 1)`
  unfoldable pub ensure_branch : Fingerprint → String → Step String
  unfolding bound_attempt branch_from
  ensure_branch fp base_ref =
      let start = bound_attempt number fp.proposal_branch fp in
      branch_from (max_branch_attempts + 1 - start) start none fp base_ref

  abbrev pub bind_proposal : Fingerprint → String → TicketRef → Fingerprint
  bind_proposal fp branch ref = record fp {
    state = awaiting_human;
    proposal_issue_id = some ref.issue_id;
    proposal_url = some ref.url;
    proposal_branch = some branch;
  }

  abbrev pub label_untested : Bool → TicketRef → Step (Unit {0})
  label_untested true ref = on_forge (port.add_label ref "wakey/untested")
  label_untested false ref = pure tt

  -- the end of `deliver`
  abbrev pub record_delivery :
      Fingerprint → String → Bool → String → String → TicketRef → Step Delivered
  record_delivery fp verifier_reason untested branch sha ref = do
    save (bind_proposal fp branch ref)
    audit_event (record {
      ts = 0;
      actor = "agent";
      action = "proposal.deliver";
      subject = "fp:" <> fp.fp_hash;
      details =
          ("branch", branch)
          ∷ ("commit", sha)
          ∷ ("url", ref.url)
          ∷ ("untested", bool_text untested)
          ∷ ("verifier", verifier_reason)
          ∷ [];
    })
    pure (published branch sha ref.url)

  abbrev pub label : Fingerprint → String → Bool → String → String → TicketRef → Step Delivered
  label fp verifier_reason untested branch sha ref = do
    on_forge (port.add_label ref "wakey/fix")
    label_untested untested ref
    record_delivery fp verifier_reason untested branch sha ref

  abbrev pub propose :
      Fingerprint → FixResult → String → String → Bool → String → String → String → Step Delivered
  propose fp result rca_summary verifier_reason untested base branch sha = do
    ref ← on_forge (
        proposals.open_draft_proposal branch (texts.title fp)
          (texts.body fp result rca_summary verifier_reason sha branch base) base)
    label fp verifier_reason untested branch sha ref

  -- behind the branch
  unfoldable pub publish :
      Fingerprint → FixResult → String → String → Bool → String → String → Step Delivered
  unfolding on_forge save audit_event ◌>>=◌
  publish fp result rca_summary verifier_reason untested base branch = do
    sha ←
        on_forge (
          proposals.commit_files branch ("wakey: suggested fix for fp:" <> fp.fp_hash) result.files)
    propose fp result rca_summary verifier_reason untested base branch sha

  -- a `base_ref` of none or of the empty text stands for the default branch
  abbrev pub or_base : Option String → String → String
  or_base none base = base
  or_base (some ref) base = if ref == "" then base else ref

  -- `deliver`
  unfoldable pub deliver :
      Fingerprint → FixResult → String → Option String → String → Bool → Step Delivered
  unfolding ensure_branch publish on_forge ◌>>=◌
  deliver fp result rca_summary base_ref verifier_reason untested =
      if not result.ok
      then pure (undelivered result.reason)
      else if no_files result.files
      then pure (undelivered "no changed files to publish")
      else (do
        base ← on_forge proposals.default_branch
        branch ← ensure_branch fp (or_base base_ref base)
        publish fp result rca_summary verifier_reason untested base branch)
