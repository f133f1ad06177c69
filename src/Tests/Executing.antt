-- ===== src/Tests/Executing.antt =====
-- agents/fix_executor.py at small inputs: the console and a verifier that lets every diff pass.
use wakey.Prelude.{String, Option, ℕ, some, none, true, false, str, ◌≡◌}
use wakey.Config.{ServiceYaml, default_config}
use wakey.Models.{Fingerprint}
use wakey.Commands.{FixExecutionOutcome}
use wakey.Forge.{Reply, returned}
use wakey.Forge.Console.{Console, console}
use wakey.Exec.{pure}
use wakey.Pipeline.State.{World}
use wakey.Fix.Loop.{FixResult}
use wakey.Fix.Attempt.{VerificationVerdict, run_attempt}
use wakey.Fix.Executor.{execute, latest}
use wakey.Fix.Guarded.{IsAnswered, execute-IsAnswered}
use wakey.Fix.Reported.{IsReported, attempt-IsReported}
use wakey.Tests.Data.{boom, start}
use wakey.Tests.Fixes.{drafts, fixed, texts}

abbrev passes : Option (String → FixResult → Reply VerificationVerdict)
passes = some (λ summary result. returned (record { passed = true; reason = "pass"; usage = "0" }))

attempt_example :
    (outcome : FixExecutionOutcome) × ((run_attempt console drafts
        (λ t. none)
        texts
        (λ exc. "")
        true
        passes
        (pure (fixed, "sha0"))
        boom
        default_config
        "rca"
        false
        start).0
      ≡ returned outcome)
    × IsReported console drafts
        (λ t. none)
        texts
        (λ exc. "")
        passes
        boom
        false
        outcome
        (run_attempt console drafts
          (λ t. none)
          texts
          (λ exc. "")
          true
          passes
          (pure (fixed, "sha0"))
          boom
          default_config
          "rca"
          false
          start).1.counts
attempt_example =
    attempt-IsReported console drafts (λ t. none) texts (λ exc. "") passes boom false
      (pure (fixed, "sha0")) default_config "rca" start

abbrev percent : ℕ → String
percent n = str n

abbrev float : String → Option ℕ
float text = none

abbrev lower : String → String
lower text = text

abbrev repairs :
    Fingerprint
    → ServiceYaml
    → String
    → Option String
    → World Console
    → Reply (FixResult × String) × World Console
repairs fp config summary ref = pure (fixed, "sha0")

execute-IsAnswered_example :
    IsAnswered console drafts
      (λ t. none)
      texts
      lower
      percent
      float
      (λ exc. "")
      none
      passes
      repairs
      (latest console drafts
        (λ t. none)
        texts
        lower
        percent
        float
        (λ exc. "")
        none
        true
        passes
        repairs
        boom
        start)
      default_config
      true
      start
      (execute console drafts
        (λ t. none)
        texts
        lower
        percent
        float
        (λ exc. "")
        none
        true
        passes
        repairs
        false
        boom
        default_config
        true
        start)
execute-IsAnswered_example =
    execute-IsAnswered console drafts (λ t. none) texts lower percent float (λ exc. "") none passes
      repairs false boom default_config true start
