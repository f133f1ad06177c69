-- ===== src/Policy/Gate/Laws.antt =====
-- Exactly when the gate wakes, absorbs, suppresses and records.
use wakey.Prelude.{arith, false, ℕ, ◌↔◌, ◌≡◌, ◌≤◌, ◌⊎◌}
use wakey.Models.{Fingerprint, busy, critical, error, rank}
use wakey.Config.{ServiceYaml}
use wakey.Policy.Gate.{decide, quieted_by_human, wake}

-- Some threshold is met: critical severity, the occurrence count, or the rate in the window.
abbrev pub OverThreshold : Fingerprint → ServiceYaml → ℕ → Type 0
OverThreshold fp config rate =
    (fp.severity ≡ critical)
    ⊎ (config.immediate_count ≤ fp.occurrences)
    ⊎ (config.rate_per_min ≤ rate)

-- The gate wakes only an error or critical fingerprint that no work is busy on and no human has
-- quieted, and then exactly when a threshold is met.
pub decide-wake_iff :
    (fp : Fingerprint) (config : ServiceYaml) (rate : ℕ)
    → ((decide fp config rate).action ≡ wake) ↔ (
        (rank error ≤ rank fp.severity)
        × (busy fp.state ≡ false)
        × (quieted_by_human fp.state ≡ false)
        × OverThreshold fp config rate)
unfolding decide
decide-wake_iff fp config rate = ground arith
