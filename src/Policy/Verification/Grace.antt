-- ===== src/Policy/Verification/Grace.antt =====
-- core/composition.py, `build_grace_inputs`: the watch window opens when the fix is deployed.
pub mod Window
pub mod Laws
use Prim.Native.String.{count}
use text.Mathlib.Text.{starts_with}
use wakey.Prelude.{
  Bool, List, Option, String, [], false, if◌then◌else◌, leb, max, none, select_where, some, true, ℕ,
  ◌&&◌, ◌*◌, ◌+◌, ◌==◌, ◌||◌, ◌∷◌,
}
use wakey.Models.{DeployEvent, Fingerprint, second}
use wakey.Config.{ServiceYaml}
use wakey.Storage.Events.{EventRow, count_fingerprint_events}
use wakey.Storage.Deploys.{list_recent_deploys}
use wakey.Policy.Verification.{WatchInputs}

-- `fingerprint.fix_commit_sha or ""`
abbrev pub fix_sha : Fingerprint → String
fix_sha fp = elim fp.fix_commit_sha [ none ↦ "" | some sha ↦ sha ]

-- a deploy of the environment, after the verification began, that carries the fix; short shas
-- compare by prefix
unfoldable pub carries_fix : Fingerprint → ℕ → DeployEvent → Bool
carries_fix fp started d =
    (d.environment == fp.environment && leb started d.deployed_at)
    && ((fix_sha fp == "" || starts_with d.sha (fix_sha fp))
        || (leb (count d.sha) (count (fix_sha fp)) && starts_with (fix_sha fp) d.sha))

-- `min(d.deployed_at for d in matching)`, of a list that is not empty
abbrev pub earliest : DeployEvent → List DeployEvent → ℕ
earliest d [] = d.deployed_at
earliest d (e ∷ es) =
    let rest = earliest e es in if leb d.deployed_at rest then d.deployed_at else rest

-- no deploy at all: the merge-time anchor; deploys, but none that carries the fix: no start yet
unfoldable pub effective_start : Fingerprint → ℕ → List DeployEvent → Option ℕ
unfolding carries_fix
effective_start fp started [] = some started
effective_start fp started (d ∷ ds) = elim (select_where (carries_fix fp started) (d ∷ ds)) [
  | [] ↦ none
  | m ∷ ms ↦ some (max started (earliest m ms))
]

abbrev pub not_yet : WatchInputs
not_yet = record {
  occurrences_after_fix = 0;
  grace_window_elapsed = false;
  fix_deployed_to_environment = false;
  reverted_by_human = false;
}

-- `max(3 * config.grace_minutes, 60)`, in microseconds
abbrev pub watch_window : ServiceYaml → ℕ
watch_window config = max (3 * config.grace_minutes) 60 * (60 * second)

-- the inputs once the window has opened at `start`
unfoldable pub window_inputs : Fingerprint → ServiceYaml → ℕ → List EventRow → ℕ → WatchInputs
window_inputs fp config now events start = elim (count_fingerprint_events fp start now events) [
  | none ↦ not_yet
  | some occurrences ↦ record {
    occurrences_after_fix = occurrences;
    grace_window_elapsed = leb (start + watch_window config) now;
    fix_deployed_to_environment = true;
    reverted_by_human = false;
  }
]

-- `grace_inputs`, with the stored configuration, the deploys table, the events table and the clock
unfoldable pub grace_inputs :
    ServiceYaml → List DeployEvent → List EventRow → ℕ → Fingerprint → WatchInputs
grace_inputs config deploys events now fp = elim fp.verification_started_at [
  | none ↦ not_yet
  | some started ↦ elim (effective_start fp started (list_recent_deploys fp.service 25 deploys)) [
    | none ↦ not_yet
    | some start ↦ window_inputs fp config now events start
  ]
]
