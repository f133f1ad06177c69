-- ===== src/Fix/Proof.antt =====
-- What a successful fix has shown.
use wakey.Prelude.{
  Option-cases, String, [], arith, eq_iff, false, if◌then◌else◌, inl, inr, none, refl, some, ◌++◌,
  ◌==◌, ◌∷◌, ◌≡◌, any_where, Bool, Bool-cases, Option, suc, true, zero, ℕ, ◌+◌, ◌<◌, ◌||◌, ◌≤◌,
  eq_refl, not, ◌&&◌,
}
use wakey.Prelude.Assoc.{lookup, lookup-replace}
use wakey.Models.{Fingerprint}
use wakey.Fix.Loop.{
  Files, Sandbox, store, targets_of, validate_patch, write_all, Baseline, FixResult, Fixing,
  Proposer, TestOutcome, attempts_from, finished, is_no_worse, snapshot_files, write_proposed_files,
  success, execute, from_baseline, is_subset, from_place,
}

lookup-append :
    (k j : String) (v : String) (m : Files)
    → lookup j m ≡ none
    → lookup k (m ++ (j, v) ∷ []) ≡ (if j == k then some v else lookup k m)
unfolding lookup
lookup-append k j v [] e = ground arith
lookup-append k j v ((i, u) ∷ m) e =
    ground (arith, lookup-append k j v m, eq_iff i k, eq_iff i j, eq_iff j k)

lookup-store :
    (k j : String) (v : String) (m : Files)
    → lookup k (store j v m) ≡ (if j == k then some v else lookup k m)
unfolding store
lookup-store k j v m = elim (Option-cases (lookup j m)) [
  | inl absent ↦ let added = lookup-append k j v m absent in ground arith
  | inr (old, found) ↦ let replaced = lookup-replace j k v old m found in ground arith
]

module _ (sandbox : Sandbox) where
  -- no target is the reproduction test
  abbrev AreOther : String → Files → Type 0
  AreOther repro targets = any_where (λ (t : String × String). t.0 == repro) targets ≡ false

  targets-AreOther :
      (repro : String) (patch targets : Files)
      → validate_patch sandbox repro patch ≡ none
      → targets_of sandbox patch ≡ some targets
      → AreOther repro targets
  unfolding validate_patch targets_of any_where
  targets-AreOther repro [] targets e e' = ground arith
  targets-AreOther repro ((path, content) ∷ patch) targets e e' =
      elim (Option-cases (sandbox.resolve path)) [
        | inl escaped ↦ ground arith
        | inr (target, inside) ↦ elim (Option-cases (targets_of sandbox patch)) [
          | inl stopped ↦ ground arith
          | inr (rest, others) ↦ ground (arith, targets-AreOther repro patch rest)
        ]
      ]

  write-lookup :
      (repro : String) (targets ws : Files)
      → AreOther repro targets
      → lookup repro (write_all sandbox targets ws) ≡ lookup repro ws
  unfolding write_all any_where
  write-lookup repro [] ws all = refl
  write-lookup repro ((t, c) ∷ targets) ws all =
      ground (arith, write-lookup repro targets (store t c ws), lookup-store repro t c ws)

  written-lookup :
      (repro : String) (patch ws ws' : Files)
      → validate_patch sandbox repro patch ≡ none
      → write_proposed_files sandbox patch ws ≡ some ws'
      → lookup repro ws' ≡ lookup repro ws
  unfolding write_proposed_files
  written-lookup repro patch ws ws' valid e = elim (Option-cases (targets_of sandbox patch)) [
    | inl stopped ↦ ground arith
    | inr (targets, inside) ↦
        let others = targets-AreOther repro patch targets valid inside in
        let kept = write-lookup repro targets ws others in ground arith
  ]

  module _ (proposer : Proposer) (fp : Fingerprint) (rca_summary : String) where
    -- The tests are green, or no worse than before the reproduction.
    abbrev pub is_green : Baseline sandbox proposer fp rca_summary → TestOutcome → Bool
    is_green base outcome = outcome.ok || is_no_worse sandbox proposer fp rca_summary base outcome

    -- the result of an attempt between `lo` and `hi`, for a workspace
    abbrev pub IsVerified :
        Baseline sandbox proposer fp rca_summary
        → Option String
        → ℕ
        → ℕ
        → FixResult
        → Files
        → Type 0
    IsVerified base repro lo hi result ws =
        (lookup base.repro ws ≡ repro)
        × (lo ≤ result.attempts)
        × (result.attempts < hi)
        × (is_green base (sandbox.runs (result.attempts + 1) ws) ≡ true)

    abbrev loop :
        ℕ → Baseline sandbox proposer fp rca_summary → ℕ → ℕ → String → Files → Fixing × Files
    loop = attempts_from sandbox proposer fp rca_summary

    loop-IsVerified :
        (max_iterations : ℕ) (base : Baseline sandbox proposer fp rca_summary) (n attempt : ℕ)
        (last : String) (ws after : Files) (result : FixResult)
        → loop max_iterations base n attempt last ws ≡ (finished result, after)
        → result.ok ≡ true
        → IsVerified base (lookup base.repro ws) attempt (attempt + n) result after
    unfolding attempts_from success
    loop-IsVerified max_iterations base zero attempt last ws after result e ok = ground arith
    loop-IsVerified max_iterations base (suc n) attempt last ws after result e ok =
        let patch = proposer.patch fp rca_summary (snapshot_files sandbox ws) last in
        elim (Option-cases (validate_patch sandbox base.repro patch)) [
          | inr (reason, refused) ↦ ground arith
          | inl valid ↦ elim (Option-cases (write_proposed_files sandbox patch ws)) [
            | inl escaped ↦ ground arith
            | inr (ws', written) ↦
                let kept = written-lookup base.repro patch ws ws' valid written in
                let outcome = sandbox.runs (attempt + 1) ws' in
                let rest =
                  loop-IsVerified max_iterations base n (attempt + 1) outcome.output ws' after
                    result in
                elim (Bool-cases (is_green base outcome)) [
                  | inl green ↦ ground arith
                  | inr red ↦ ground arith
                ]
          ]
        ]

    -- what `execute` keeps from its first runs, for a reproduction at a place in the workspace
    abbrev pub baseline_of : String → Files → Baseline sandbox proposer fp rca_summary
    baseline_of target ws = record {
      original = snapshot_files sandbox ws;
      original_ok = (sandbox.runs 0 ws).ok;
      original_failures = sandbox.signatures (sandbox.runs 0 ws).output;
      repro = target;
    }

    abbrev pub repro_of : Files → String × String
    repro_of ws = proposer.repro_test fp (snapshot_files sandbox ws)

    from-IsVerified :
        (max_iterations : ℕ) (ws after : Files) (target : String) (result : FixResult)
        → from_baseline sandbox proposer fp rca_summary max_iterations
            (snapshot_files sandbox ws)
            (sandbox.runs 0 ws)
            target
            (store target (repro_of ws).1 ws)
          ≡ (finished result, after)
        → result.ok ≡ true
        → ((sandbox.runs 1 (store target (repro_of ws).1 ws)).ok ≡ false)
          × IsVerified
              (baseline_of target ws)
              (some (repro_of ws).1)
              1
              (1 + max_iterations)
              result
              after
    from-IsVerified max_iterations ws after target result e ok =
        let placed = store target (repro_of ws).1 ws in
        let own = lookup-store target target (repro_of ws).1 ws in
        let baseline = sandbox.runs 1 placed in
        let looped =
          loop-IsVerified max_iterations (baseline_of target ws) max_iterations 1 baseline.output
            placed after result in
        elim (Bool-cases baseline.ok) [
          | inl passed ↦ ground arith
          | inr red ↦
              elim (Bool-cases (
                not (sandbox.runs 0 ws).ok
                && is_subset (sandbox.signatures baseline.output)
                    (sandbox.signatures (sandbox.runs 0 ws).output))) [
                      | inl nothing_new ↦ ground arith
                      | inr distinct ↦ ground (arith, own, eq_refl target)
                    ]
        ]

    -- A fix is reported as done only if the reproduction test failed before any patch, stands in the
    -- workspace as the proposer wrote it, no patch having touched it, and the run after the last
    -- patch was green, or no worse than the suite was before; the attempts are within the bound.
    pub execute_proven :
        (max_iterations : ℕ) (ws after : Files) (result : FixResult)
        → execute sandbox proposer fp rca_summary max_iterations ws ≡ (finished result, after)
        → result.ok ≡ true
        → (target : String) × (sandbox.resolve (repro_of ws).0 ≡ some target)
          × ((sandbox.runs 1 (store target (repro_of ws).1 ws)).ok ≡ false)
          × IsVerified
              (baseline_of target ws)
              (some (repro_of ws).1)
              1
              (1 + max_iterations)
              result
              after
    unfolding execute
    execute_proven max_iterations ws after result e ok =
        by_place (sandbox.resolve (repro_of ws).0) refl e
      where
        by_place :
            (place : Option String)
            → sandbox.resolve (repro_of ws).0 ≡ place
            → from_place sandbox proposer fp rca_summary max_iterations ws (repro_of ws) place
              ≡ (finished result, after)
            → (target : String) × (sandbox.resolve (repro_of ws).0 ≡ some target)
              × ((sandbox.runs 1 (store target (repro_of ws).1 ws)).ok ≡ false)
              × IsVerified
                  (baseline_of target ws)
                  (some (repro_of ws).1)
                  1
                  (1 + max_iterations)
                  result
                  after
        by_place none inside e = ground arith
        by_place (some target) inside e =
            let (red, verified) = from-IsVerified max_iterations ws after target result e ok in
            (target, inside, red, verified)
