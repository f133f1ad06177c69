-- ===== src/Tests/Fixes.antt =====
-- agents/fix.py and agents/fix_delivery.py at small inputs.
use wakey.Prelude.{
  String, [], any_where, eqb, false, if◌then◌else◌, none, refl, select_where, some, str, true, ◌+◌,
  ◌||◌, ◌↔◌, ◌∷◌, ◌≡◌, take_chars,
}
use wakey.Prelude.Assoc.{lookup, replace}
use wakey.Config.{fix}
use wakey.Forge.{returned}
use wakey.Forge.Console.{Console, console}
use wakey.Exec.{pure, try, ◌>>=◌}
use wakey.Pipeline.State.{World, save, on_forge, audit_event}
use wakey.Fix.{EligibilityInput, check_eligibility}
use wakey.Fix.Gate.{IsEligible, allowed_iff}
use wakey.Fix.Loop.{
  Files, FixResult, Proposer, Sandbox, execute, no_files, store, attempts_from, changed_files,
  is_content, is_subset, snapshot_files, success, targets_of, validate_patch, write_all,
  write_proposed_files,
}
use wakey.Fix.Proof.{IsVerified, baseline_of, execute_proven, repro_of}
use wakey.Fix.Delivery.{
  ProposalPort, Texts, deliver, bound_attempt, branch_from, ensure_branch, proposal_branch, publish,
}
use wakey.Fix.Delivered.{IsBound, deliver-IsBound}
use wakey.Tests.Data.{boom, start}

abbrev inputs : EligibilityInput
inputs = record {
  rca_class = "code-fix";
  confidence = 800000;
  autonomy = fix;
  confidence_floor = 750000;
  open_prs = 2;
  max_open_prs = 3;
  chronic = false;
  human_requested = false;
}

allowed_example : ((check_eligibility str inputs).allowed ≡ true) ↔ IsEligible inputs
allowed_example = allowed_iff str inputs

-- A program of one file is fixed by its second patch; the tests are red while it says "bug".
abbrev sandbox : Sandbox
sandbox = record {
  resolve = λ path. some path;
  is_supported = λ file. true;
  runs = λ n ws.
      if is_content "fixed" (lookup "a.py" ws) || eqb n 0
      then record { ok = true; output = "" }
      else record { ok = false; output = "FAILED t" };
  signatures = λ output. output ∷ [];
  diff = λ before after. "diff";
}

abbrev proposer : Proposer
proposer = record {
  repro_test = λ fp files. ("t.py", "assert");
  patch = λ fp rca files last. ("a.py", "fixed") ∷ [];
}

abbrev workspace : Files
workspace = ("a.py", "bug") ∷ []

abbrev pub fixed : FixResult
fixed = record {
  ok = true;
  reason = "repro green after 1 patch attempt(s)";
  diff = "diff";
  attempts = 1;
  files = ("a.py", "fixed") ∷ ("t.py", "assert") ∷ [];
}

abbrev repaired : Files
repaired = ("a.py", "fixed") ∷ ("t.py", "assert") ∷ []

execute_example :
    (target : String) × (sandbox.resolve (repro_of sandbox proposer boom "rca" workspace).0
      ≡ some target)
    × ((sandbox.runs 1
          (store target (repro_of sandbox proposer boom "rca" workspace).1 workspace)).ok
        ≡ false)
    × IsVerified sandbox proposer boom "rca"
        (baseline_of sandbox proposer boom "rca" target workspace)
        (some (repro_of sandbox proposer boom "rca" workspace).1)
        1
        (1 + 3)
        fixed
        repaired
execute_example =
    execute_proven sandbox proposer boom "rca" 3 workspace repaired fixed
      (unfold execute attempts_from success snapshot_files select_where validate_patch
          write_proposed_files targets_of write_all store lookup replace changed_files is_subset
          any_where str in
        refl)
      refl

abbrev pub drafts : ProposalPort Console
drafts = record {
  default_branch = λ c. (returned "main", c);
  create_branch = λ name base c. (returned tt, c);
  commit_files = λ branch message files c. (returned "sha1", c);
  open_draft_proposal =
      λ branch title body base c. (returned (record { issue_id = "9"; url = "pulls/9" }), c);
}

abbrev pub texts : Texts
texts = record { title = λ fp. "fix"; body = λ fp result rca verifier sha branch base. "body" }

abbrev delivered_world : World Console
delivered_world =
    (deliver console drafts (λ t. none) texts boom fixed "rca" none "pass" false start).1

deliver_example :
    (fixed.ok ≡ true)
    × (no_files fixed.files ≡ false)
    × IsBound console drafts (λ t. none) texts boom "wakey/fix-abc" "pulls/9" delivered_world
deliver_example =
    deliver-IsBound console drafts (λ t. none) texts boom fixed "rca" "pass" none false
      "wakey/fix-abc" "sha1" "pulls/9" start delivered_world
      (unfold deliver ensure_branch branch_from bound_attempt proposal_branch publish on_forge save
          audit_event pure ◌>>=◌ try take_chars in
        refl)
