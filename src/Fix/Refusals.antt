-- ===== src/Fix/Refusals.antt =====
-- agents/fix_executor.py: the gates around a fix attempt.
use mathlib.Core.List.{reverse}
use wakey.Prelude.{
  Bool, List, Option, String, any_where, count_where, false, find_where, if◌then◌else◌, leb, none,
  not, select_where, some, take, true, ℕ, ◌&&◌, ◌+◌, ◌<>◌, ◌==◌, ◌||◌,
}
use wakey.Prelude.Assoc.{lookup}
use wakey.Config.{ServiceYaml}
use wakey.Models.{
  AuditEvent, Fingerprint, WorkState, archived, awaiting_human, closed_auto, fixing, reopened,
  state_value, verifying,
}
use wakey.Storage.Fingerprints.{list_active_fingerprints}
use wakey.Storage.Services.{is_named}
use wakey.Pipeline.State.{World}
use wakey.Fix.{Eligibility, check_eligibility}

-- `list_audit(subject=…, limit=50)`, newest first
abbrev pub recent_audit : String → List AuditEvent → List AuditEvent
recent_audit subject log =
    take 50 (reverse (select_where (λ (e : AuditEvent). e.subject == subject) log))

abbrev pub detail_or : String → String → List (String × String) → String
detail_or key default details = elim (lookup key details) [ none ↦ default | some v ↦ v ]

abbrev pub is_action : String → AuditEvent → Bool
is_action action event = event.action == action

abbrev pub is_set : Option String → Bool
is_set none = false
is_set (some text) = not (text == "")

-- the states of `_refusal_reason`
abbrev pub is_unfixable : WorkState → Bool
is_unfixable fixing = true
is_unfixable verifying = true
is_unfixable closed_auto = true
is_unfixable archived = true
is_unfixable _ = false

abbrev pub is_awaiting : WorkState → Bool
is_awaiting awaiting_human = true
is_awaiting _ = false

abbrev pub is_fixing : WorkState → Bool
is_fixing fixing = true
is_fixing _ = false

abbrev pub is_reopened : WorkState → Bool
is_reopened reopened = true
is_reopened _ = false

abbrev pub same_repo : Option String → Option String → Bool
same_repo none none = true
same_repo (some a) (some b) = a == b
same_repo _ _ = false

-- `self._allowed_repos is not None and repo not in self._allowed_repos`
abbrev pub is_barred : Option (List String) → String → Bool
is_barred none repo = false
is_barred (some repos) repo = not (any_where (λ r. r == repo) repos)

-- `not config.test_command`
abbrev pub is_untested : ServiceYaml → Bool
is_untested config = not (is_set config.test_command)

-- `min(1.0, …)`, in millionths
abbrev pub floor_of : ServiceYaml → ℕ
floor_of config =
    let floor =
      config.confidence_floor
      + (if config.allow_without_tests && is_untested config then 100000 else 0) in
    if leb 1000000 floor then 1000000 else floor

module _ (allowed_repos : Option (List String)) (has_model : Bool) where
  -- the environmental preconditions, which both kinds of attempt share
  abbrev pub environment_refusal : ServiceYaml → Option String → Option String
  environment_refusal config none =
      some "service has no repository binding — register the repo first"
  environment_refusal config (some repo) =
      if is_barred allowed_repos repo
      then some ("repo " <> (repo <> " is not in the write allowlist"))
      else if is_untested config && not config.allow_without_tests
      then some
          "service config has no test_command — add it to wakey.yml or explicitly set allow_without_tests: true"
      else if not has_model
      then some "no AI model configured — set WAKEY_LLM_* to enable fix proposals"
      else none

module _ {Remote : Type 0} (percent : ℕ → String) (float : String → Option ℕ)
    (allowed_repos : Option (List String)) (has_model : Bool) where
  -- `_repo_of`
  unfoldable pub repo_of : Fingerprint → World Remote → Option String
  repo_of fp w = elim (find_where (is_named fp.service) w.services) [
    | none ↦ none
    | some service ↦ some service.repo
  ]

  -- `_latest_rca`; a confidence that is no float counts as 0
  unfoldable pub latest_rca : Fingerprint → World Remote → Option (String × ℕ × String)
  latest_rca fp w =
      elim (find_where (is_action "rca.classify") (recent_audit ("fp:" <> fp.fp_hash) w.audit)) [
        | none ↦ none
        | some event ↦ some (
          detail_or "class" "needs-human" event.details,
          elim (float (detail_or "confidence" "0" event.details)) [ none ↦ 0 | some c ↦ c ],
          detail_or "summary" "" event.details,
        )
      ]

  -- what counts as an open proposal of the repository of `fp`
  abbrev pub is_open_pr : Fingerprint → World Remote → Fingerprint → Bool
  is_open_pr fp w other =
      same_repo (repo_of other w) (repo_of fp w)
      && ((is_set other.proposal_branch && is_awaiting other.state) || is_fixing other.state)

  -- `_gate`
  unfoldable pub gate : Fingerprint → ServiceYaml → String → ℕ → Bool → World Remote → Eligibility
  unfolding repo_of
  gate fp config rca_class confidence human_requested w = check_eligibility percent (record {
    rca_class = rca_class;
    confidence = confidence;
    autonomy = config.autonomy;
    confidence_floor = floor_of config;
    open_prs = count_where (is_open_pr fp w) (list_active_fingerprints none w.counts.fingerprints);
    max_open_prs = config.max_open_prs;
    chronic = fp.chronic;
    human_requested = human_requested;
  })

  -- `_refusal_reason`
  unfoldable pub refusal_reason :
      Fingerprint → ServiceYaml → String → ℕ → Bool → World Remote → Option String
  unfolding gate
  refusal_reason fp config rca_class confidence human_requested w =
      let acknowledged = (human_requested && fp.chronic) && is_reopened fp.state in
      let eligible = gate fp config rca_class confidence human_requested w in
      if (is_set fp.proposal_branch && not acknowledged) || is_unfixable fp.state
      then some "fingerprint already has a proposal, is busy, or is closed"
      else if not eligible.allowed
      then some eligible.reason
      else environment_refusal allowed_repos has_model config (repo_of fp w)

  -- `_retry_refusal_reason`; `feedback` is stripped
  unfoldable pub retry_refusal_reason :
      Fingerprint → ServiceYaml → String → World Remote → Option String
  unfolding repo_of
  retry_refusal_reason fp config feedback w =
      if not (is_set fp.proposal_branch) || not (is_set fp.proposal_url)
      then some "retry requires an existing draft proposal"
      else if not (is_awaiting fp.state)
      then some ("retry requires awaiting-human state, found " <> state_value fp.state)
      else if feedback == ""
      then some "retry requires reviewer feedback after `@wakey retry`"
      else if leb 2 (
          count_where (is_action "fix.retry.delivered")
            (recent_audit ("fp:" <> fp.fp_hash) w.audit))
      then some "two automated retries already used; a human must update the branch"
      else environment_refusal allowed_repos has_model config (repo_of fp w)
