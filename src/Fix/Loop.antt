-- ===== src/Fix/Loop.antt =====
-- agents/fix.py: `ReproFirstFixer` and `UntestedFixer`. A workspace is the dictionary of its files; what
-- `Path.resolve` makes of a relative path, the runner, the proposer and the regex are parameters.
use wakey.Prelude.{
  Bool, List, Option, String, [], any_where, false, if◌then◌else◌, length, none, not, select_where,
  some, str, suc, true, zero, ℕ, ◌&&◌, ◌++◌, ◌+◌, ◌<>◌, ◌==◌, ◌||◌, ◌∷◌,
}
use wakey.Prelude.Assoc.{lookup, replace}
use wakey.Models.{Fingerprint}

abbrev pub Files : Type 0
Files = List (String × String)

pub record TestOutcome : Type 0 where
  pub ok : Bool
  pub output : String

pub record Proposer : Type 0 where
  pub repro_test : Fingerprint → Files → String × String
  pub patch : Fingerprint → String → Files → String → Files

pub record FixResult : Type 0 where
  pub ok : Bool
  pub reason : String
  pub diff : String
  pub attempts : ℕ
  pub files : Files

abbrev pub failure : String → FixResult
failure reason = record { ok = false; reason = reason; diff = ""; attempts = 0; files = [] }

-- A result, or a `SandboxError`.
pub data Fixing : Type 0 where
  finished : FixResult → Fixing
  sandbox_error : String → Fixing

-- writing one file
unfoldable pub store : String → String → Files → Files
store path content ws = elim (lookup path ws) [
  | none ↦ ws ++ (path, content) ∷ []
  | some old ↦ replace path content ws
]

-- `a <= b` on sets
unfoldable pub is_subset : List String → List String → Bool
is_subset [] ys = true
is_subset (x ∷ xs) ys =
    let rest = is_subset xs ys in if any_where (λ y. y == x) ys then rest else false

abbrev pub is_empty : List String → Bool
is_empty [] = true
is_empty (x ∷ xs) = false

abbrev pub no_files : Files → Bool
no_files [] = true
no_files (file ∷ files) = false

abbrev pub is_content : String → Option String → Bool
is_content content none = false
is_content content (some old) = old == content

-- What the fixers stand on: `resolve` gives the place in the workspace, or none for an escape;
-- `is_supported` selects the files of a snapshot; `runs n` is the n-th run of the test command.
pub record Sandbox : Type 0 where
  pub resolve : String → Option String
  pub is_supported : String × String → Bool
  pub runs : ℕ → Files → TestOutcome
  pub signatures : String → List String
  pub diff : Files → Files → String

module _ (sandbox : Sandbox) where
  unfoldable pub snapshot_files : Files → Files
  snapshot_files = select_where sandbox.is_supported

  -- the comprehension of `write_proposed_files`, which stops at the first escape
  unfoldable pub targets_of : Files → Option Files
  targets_of [] = some []
  targets_of ((path, content) ∷ files) = elim (sandbox.resolve path) [
    | none ↦ none
    | some target ↦ elim (targets_of files) [
      | none ↦ none
      | some targets ↦ some ((target, content) ∷ targets)
    ]
  ]

  unfoldable pub write_all : Files → Files → Files
  unfolding store
  write_all [] ws = ws
  write_all ((target, content) ∷ targets) ws = write_all targets (store target content ws)

  -- none is the `SandboxError`, before anything is written
  unfoldable pub write_proposed_files : Files → Files → Option Files
  unfolding targets_of write_all
  write_proposed_files files ws = elim (targets_of files) [
    | none ↦ none
    | some targets ↦ some (write_all targets ws)
  ]

  -- `_validate_patch`: the text of the `SandboxError`, if any
  unfoldable pub validate_patch : String → Files → Option String
  validate_patch repro [] = none
  validate_patch repro ((path, content) ∷ patch) =
      let rest = validate_patch repro patch in
      elim (sandbox.resolve path) [
        | none ↦ some ("path escapes the workspace: " <> path)
        | some target ↦
            if target == repro
            then some "proposer may not modify its own reproduction test"
            else rest
      ]

  -- the comprehension `changed`
  unfoldable pub changed_files : Files → Files → Files
  changed_files original final =
      select_where (λ (e : String × String). not (is_content e.1 (lookup e.0 original))) final

  module _ (proposer : Proposer) (fp : Fingerprint) (rca_summary : String) where
    -- what the loop keeps from the first runs
    pub record Baseline : Type 0 where
      pub original : Files
      pub original_ok : Bool
      pub original_failures : List String
      pub repro : String

    abbrev pub is_no_worse : Baseline → TestOutcome → Bool
    is_no_worse base outcome =
        (not base.original_ok && not (is_empty base.original_failures))
        && is_subset (sandbox.signatures outcome.output) base.original_failures

    unfoldable pub success : Baseline → ℕ → TestOutcome → Files → FixResult
    unfolding snapshot_files changed_files
    success base attempt outcome ws =
        let green = "repro green after " <> (str attempt <> " patch attempt(s)") in
        record {
          ok = true;
          reason =
              if is_no_worse base outcome
              then green
                <> ("; "
                    <> (str (length base.original_failures)
                        <> " pre-existing failure(s) unchanged or reduced"))
              else green;
          diff = sandbox.diff base.original (snapshot_files ws);
          attempts = attempt;
          files = changed_files base.original (snapshot_files ws);
        }

    -- the `for` loop: `n` iterations are left, and this one is number `attempt`
    unfoldable pub attempts_from : ℕ → Baseline → ℕ → ℕ → String → Files → Fixing × Files
    unfolding snapshot_files validate_patch write_proposed_files is_subset success
    attempts_from max_iterations base zero attempt last_failure ws =
        (finished (failure ("no green patch after " <> (str max_iterations <> " iterations"))), ws)
    attempts_from max_iterations base (suc n) attempt last_failure ws =
        let patch = proposer.patch fp rca_summary (snapshot_files ws) last_failure in
        elim (validate_patch base.repro patch) [
          | some reason ↦ (sandbox_error reason, ws)
          | none ↦ elim (write_proposed_files patch ws) [
            | none ↦ (sandbox_error "path escapes the workspace", ws)
            | some ws' ↦
                let outcome = sandbox.runs (attempt + 1) ws' in
                let rest = attempts_from max_iterations base n (attempt + 1) outcome.output ws' in
                if outcome.ok || is_no_worse base outcome
                then (finished (success base attempt outcome ws'), ws')
                else rest
          ]
        ]

    -- behind the reproduction test
    abbrev pub from_baseline : ℕ → Files → TestOutcome → String → Files → Fixing × Files
    from_baseline max_iterations original original_outcome repro ws =
        let baseline = sandbox.runs 1 ws in
        let failures = sandbox.signatures original_outcome.output in
        if baseline.ok
        then (finished (failure "repro test passed before any patch — it does not reproduce"), ws)
        else if not original_outcome.ok && is_subset (sandbox.signatures baseline.output) failures
        then (
          finished
              (failure "reproduction did not add a distinct failure beyond the pre-existing suite"),
          ws,
        )
        else attempts_from max_iterations
            (record {
              original = original;
              original_ok = original_outcome.ok;
              original_failures = failures;
              repro = repro;
            })
            max_iterations 1 baseline.output ws

    -- the reproduction test is written where its path resolves to
    abbrev pub from_place : ℕ → Files → String × String → Option String → Fixing × Files
    from_place max_iterations ws repro none =
        (sandbox_error ("path escapes the workspace: " <> repro.0), ws)
    from_place max_iterations ws repro (some target) =
        from_baseline max_iterations (snapshot_files ws) (sandbox.runs 0 ws) target
          (store target repro.1 ws)

    -- `ReproFirstFixer.execute`
    unfoldable pub execute : ℕ → Files → Fixing × Files
    unfolding snapshot_files write_proposed_files is_subset attempts_from
    execute max_iterations ws =
        let repro = proposer.repro_test fp (snapshot_files ws) in
        from_place max_iterations ws repro (sandbox.resolve repro.0)

    -- `UntestedFixer.execute`
    unfoldable pub execute_untested : Files → Fixing × Files
    unfolding snapshot_files write_proposed_files changed_files
    execute_untested ws =
        let original = snapshot_files ws in
        let patch =
          proposer.patch fp rca_summary original
            "No test command is configured. Propose the smallest RCA-backed patch." in
        if no_files patch
        then (finished (failure "model proposed no changes for the untested fix"), ws)
        else elim (write_proposed_files patch ws) [
          | none ↦ (sandbox_error "path escapes the workspace", ws)
          | some ws' ↦
              let changed = changed_files original (snapshot_files ws') in
              if no_files changed
              then (finished (failure "model proposal produced no supported file changes"), ws')
              else (
                finished (record {
                  ok = true;
                  reason = "untested patch generated by explicit allow_without_tests policy";
                  diff = sandbox.diff original (snapshot_files ws');
                  attempts = 1;
                  files = changed;
                }),
                ws',
              )
        ]
