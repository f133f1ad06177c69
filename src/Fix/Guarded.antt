-- ===== src/Fix/Guarded.antt =====
-- agents/fix_executor.py: what `execute` answers, and when it goes on to an attempt.
use wakey.Prelude.{
  Bool, List, Option, String, arith, false, if◌then◌else◌, none, not, refl, some, true, ℕ, ◌≡◌, ◌⊎◌,
  inl, inr, ◌&&◌, ◌||◌,
}
use wakey.Config.{ServiceYaml}
use wakey.Models.{Fingerprint}
use wakey.Forge.{Failure, ForgePort, Reply, returned}
use wakey.Exec.{pure, ◌>>=◌}
use wakey.Commands.{FixExecutionOutcome}
use wakey.Pipeline.State.{World, audit_event}
use wakey.Fix.Loop.{FixResult}
use wakey.Fix.Delivery.{ProposalPort, Texts}
use wakey.Fix.Refusals.{
  environment_refusal, gate, is_barred, is_reopened, is_set, is_unfixable, latest_rca,
  refusal_reason, repo_of,
}
use wakey.Fix.Attempt.{VerificationVerdict, audit_fix}
use wakey.Fix.Executor.{acknowledge, execute, execute_ready, latest, lock_refusal, rca_or_heuristic}
use wakey.Fix.Reported.{IsReported, attempt-IsReported}

module _ (allowed_repos : Option (List String)) (has_model : Bool) where
  -- the repository of a fix: bound, and in the allowlist where there is one
  abbrev pub HasRepo : Option String → Type 0
  HasRepo bound = (repo : String) × (bound ≡ some repo) × (is_barred allowed_repos repo ≡ false)

  environment-HasRepo :
      (config : ServiceYaml) (bound : Option String)
      → environment_refusal allowed_repos has_model config bound ≡ none
      → HasRepo bound
  environment-HasRepo config none e = ground arith
  environment-HasRepo config (some repo) e = (repo, refl, ground arith)

passed_gate :
    (taken allowed : Bool) (a b : String) (rest : Option String)
    → (if taken then some a else if not allowed then some b else rest) ≡ none
    → (allowed ≡ true) × (rest ≡ none)
passed_gate true allowed a b rest e = ground arith
passed_gate false false a b rest e = ground arith
passed_gate false true a b rest e = (refl, e)

module _ {Remote : Type 0} (percent : ℕ → String) (float : String → Option ℕ)
    (allowed_repos : Option (List String)) (has_model : Bool) where
  -- An attempt that nothing refuses has passed the gate of eligibility, in a bound repository that
  -- the allowlist has.
  abbrev pub IsCleared : Fingerprint → ServiceYaml → String → ℕ → Bool → World Remote → Type 0
  IsCleared fp config rca_class confidence human_requested w =
      ((gate percent float allowed_repos has_model fp config rca_class confidence human_requested
          w).allowed
        ≡ true)
      × HasRepo allowed_repos has_model (repo_of percent float allowed_repos has_model fp w)

  refusal-IsCleared :
      (fp : Fingerprint) (config : ServiceYaml) (rca_class : String) (confidence : ℕ)
      (human_requested : Bool) (w : World Remote)
      → refusal_reason percent float allowed_repos has_model fp config rca_class confidence
          human_requested w
        ≡ none
      → IsCleared fp config rca_class confidence human_requested w
  unfolding refusal_reason
  refusal-IsCleared fp config rca_class confidence human_requested w e =
      let eligible =
        gate percent float allowed_repos has_model fp config rca_class confidence human_requested
          w in
      let bound = repo_of percent float allowed_repos has_model fp w in
      let (ok, rest) =
        passed_gate
          ((is_set fp.proposal_branch
              && not ((human_requested && fp.chronic) && is_reopened fp.state))
            || is_unfixable fp.state)
          eligible.allowed "fingerprint already has a proposal, is busy, or is closed"
          eligible.reason (environment_refusal allowed_repos has_model config bound) e in
      (ok, environment-HasRepo allowed_repos has_model config bound rest)

module _ (port : ForgePort) (proposals : ProposalPort (port.Remote)) (number : String → Option ℕ)
    (texts : Texts) (lower : String → String) (percent : ℕ → String) (float : String → Option ℕ)
    (exc_text : Failure → String) (allowed_repos : Option (List String))
    (verifier : Option (String → FixResult → Reply VerificationVerdict))
    (repair : Fingerprint
      → ServiceYaml
      → String
      → Option String
      → World (port.Remote)
      → Reply (FixResult × String) × World (port.Remote)) where
  -- the class and the confidence that the gate reads
  abbrev pub judged : Fingerprint → World (port.Remote) → String × ℕ × String
  judged fp w =
      rca_or_heuristic port proposals number texts lower percent float exc_text allowed_repos true
        verifier repair (latest_rca percent float allowed_repos true fp w) fp

  -- The call is refused and leaves the tables as they were, or it was cleared and is reported.
  abbrev pub IsAnswered :
      Fingerprint
      → ServiceYaml
      → Bool
      → World (port.Remote)
      → Reply FixExecutionOutcome × World (port.Remote)
      → Type 0
  IsAnswered fp config human_requested w result =
      (outcome : FixExecutionOutcome) × (result.0 ≡ returned outcome)
      × (((outcome.stage ≡ "refused") × (result.1.counts ≡ w.counts))
          ⊎ (IsCleared percent float allowed_repos true fp config (judged fp w).0 (judged fp w).1
                human_requested w
              × IsReported port proposals number texts exc_text verifier fp false outcome
                  result.1.counts))

  -- `execute` of an executor that has a model always returns an outcome. Either the outcome is
  -- "refused" and the tables stay as they were, or the fingerprint (the stored row, or the given one
  -- when none is stored) has passed the gate of eligibility, in a bound repository that the allowlist
  -- has, and afterwards it either waits for a human behind a "delivered", or is open with the branch
  -- that it had before the attempt.
  pub execute-IsAnswered :
      (locked : Bool) (given : Fingerprint) (config : ServiceYaml) (human_requested : Bool)
      (w : World (port.Remote))
      → IsAnswered
          (latest port proposals number texts lower percent float exc_text allowed_repos true
            verifier repair given w)
          config
          human_requested
          w
          (execute port proposals number texts lower percent float exc_text allowed_repos true
            verifier repair locked given config human_requested w)
  unfolding execute pure ◌>>=◌ audit_fix audit_event
  execute-IsAnswered locked given config human_requested w = by_lock locked
    where
      fp : Fingerprint
      fp =
          latest port proposals number texts lower percent float exc_text allowed_repos true
            verifier repair given w

      rca_class : String
      rca_class = (judged fp w).0

      refused : Option String
      refused =
          refusal_reason percent float allowed_repos true fp config rca_class (judged fp w).1
            human_requested w

      reported :
          (human : Bool)
          → (outcome : FixExecutionOutcome) × ((execute_ready port proposals number texts lower
                percent float exc_text allowed_repos true verifier repair fp config human
                (judged fp w).2
                none
                w).0
              ≡ returned outcome)
            × IsReported port proposals number texts exc_text verifier fp false outcome
                (execute_ready port proposals number texts lower percent float exc_text
                  allowed_repos true verifier repair fp config human
                  (judged fp w).2
                  none
                  w).1.counts
      reported false =
          attempt-IsReported port proposals number texts exc_text verifier fp false
            (repair fp config (judged fp w).2 none) config (judged fp w).2 w
      reported true =
          attempt-IsReported port proposals number texts exc_text verifier fp false
            (repair fp config (judged fp w).2 none) config (judged fp w).2
            (acknowledge port proposals number texts lower percent float exc_text allowed_repos true
              verifier repair true fp w).1

      by_refusal :
          (o : Option String)
          → refused ≡ o
          → IsAnswered fp config human_requested w (
              execute_ready port proposals number texts lower percent float exc_text allowed_repos
                true verifier repair fp config human_requested
                (judged fp w).2
                o
                w)
      by_refusal (some reason) e =
          (record { stage = "refused"; message = reason; url = "" }, refl, inl (refl, refl))
      by_refusal none e =
          let (outcome, same, ends) = reported human_requested in
          (
            outcome,
            same,
            inr (
              refusal-IsCleared percent float allowed_repos true fp config rca_class (judged fp w).1
                  human_requested w e,
              ends,
            ),
          )

      by_lock :
          (taken : Bool)
          → IsAnswered fp config human_requested w (
              if taken
              then pure
                  (lock_refusal port proposals number texts lower percent float exc_text
                    allowed_repos true verifier repair)
                  w
              else execute_ready port proposals number texts lower percent float exc_text
                  allowed_repos true verifier repair fp config human_requested
                  (judged fp w).2
                  refused
                  w)
      by_lock true = (
        lock_refusal port proposals number texts lower percent float exc_text allowed_repos true
            verifier repair,
        refl,
        inl (refl, refl),
      )
      by_lock false = by_refusal refused refl
