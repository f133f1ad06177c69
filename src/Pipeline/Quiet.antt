-- ===== src/Pipeline/Quiet.antt =====
-- When the policy leaves the forge alone.
use wakey.Prelude.{
  Bool, Option, String, arith, ltb, lt→ltb, none, refl, some, true, ℕ, ◌+◌, ◌<◌, ◌||◌, ◌≡◌, ◌≢◌,
  ◌∙◌,
}
use wakey.Models.{Fingerprint, LogEvent, busy, error, rank}
use wakey.Config.{ServiceYaml}
use wakey.Forge.{ForgePort, returned, Reply}
use wakey.Exec.{gets, ◌>>=◌, bind-returned}
use wakey.Policy.Gate
use wakey.Policy.Gate.{Action, quieted_by_human}
use wakey.Windows.{count_in_window, record_time}
use wakey.Pipeline.State.{World, read_clock}
use wakey.Pipeline.{
  act, stale_after, take_back, Result, count_rate, policy, reservation, service_config,
}

-- No wake is due: the severity is below error, work is in flight, or a human has quieted it.
abbrev pub is_hushed : Fingerprint → Bool
is_hushed fp = (ltb (rank fp.severity) (rank error) || busy fp.state) || quieted_by_human fp.state

pub decide_hushed :
    (fp : Fingerprint) (config : ServiceYaml) (rate : ℕ)
    → is_hushed fp ≡ true
    → (Gate.decide fp config rate).action ≢ Action.wake
unfolding Gate.decide
decide_hushed fp config rate h = ground arith

module _ (port : ForgePort) (identify : LogEvent → Fingerprint)
    (parse_config : String → Option ServiceYaml) where
  abbrev W : Type 0
  W = World (port.Remote)

  act_quiet :
      (action : Action) (reason : String) (stored : Fingerprint) (config : ServiceYaml) (w : W)
      → action ≢ Action.wake
      → (act port identify parse_config action reason stored config w).1 ≡ w
  unfolding act
  act_quiet Action.wake reason stored config w ne = absurd (ne refl)
  act_quiet _ reason stored config w ne = refl

  -- No reservation is to be taken back at the next reading of the clock.
  abbrev pub IsCalm : Option ℕ → W → Type 0
  IsCalm none w = Unit {0}
  IsCalm (some at) w = w.clock w.reads < at + stale_after

  -- the world after at most one more reading of the clock
  abbrev Read : W → W → Type 0
  Read w w' = (w'.remote ≡ w.remote) × (w'.counts ≡ w.counts) × (w'.audit ≡ w.audit)

  take_back_calm :
      (r : Option ℕ) (fp : Fingerprint) (w : W)
      → IsCalm r w
      → ((take_back port identify parse_config r fp w).0 ≡ returned fp)
        × Read w (take_back port identify parse_config r fp w).1
  unfolding take_back
  take_back_calm none fp w calm = (refl, (refl, refl, refl))
  take_back_calm (some at) fp w calm =
      rw (lt→ltb (w.clock w.reads) (at + stale_after) calm) (refl, (refl, refl, refl))

  -- the policy behind the recovery of a reservation
  abbrev rest : LogEvent → Fingerprint → W → Reply Result × W
  rest event current = do
    config ← gets (service_config port identify parse_config event.service)
    now ← read_clock
    rate ← count_rate port identify parse_config current.fp_hash now
    let decision = Gate.decide current config rate
    act port identify parse_config decision.action decision.reason current config

  rest_hushed :
      (event : LogEvent) (fp : Fingerprint) (w : W)
      → is_hushed fp ≡ true
      → Read w (rest event fp w).1
  unfolding read_clock count_rate ◌>>=◌
  rest_hushed event fp w h =
      let config = service_config port identify parse_config event.service w in
      let counters = record_time w.counters fp.fp_hash (w.clock w.reads) in
      let (counters', rate) = count_in_window counters fp.fp_hash (w.clock w.reads) in
      let decision = Gate.decide fp config rate in
      let w' : W = record w { reads = w.reads + 1; counters = counters' } in
      rw (act_quiet decision.action decision.reason fp config w' (decide_hushed fp config rate h))
        (refl, refl, refl)

  -- An event of a hushed fingerprint, with no reservation to take back, changes nothing on the
  -- forge, in the fingerprints, in the events or in the audit log once it is counted, whatever the
  -- rate and the configuration.
  pub policy_hushed :
      (event : LogEvent) (stored : Fingerprint) (w : W)
      → is_hushed stored ≡ true
      → IsCalm (reservation stored) w
      → ((policy port identify parse_config event stored w).1.remote ≡ w.remote)
        × ((policy port identify parse_config event stored w).1.counts ≡ w.counts)
        × ((policy port identify parse_config event stored w).1.audit ≡ w.audit)
  unfolding policy
  policy_hushed event stored w h calm =
      let (same, (r, c, a)) = take_back_calm (reservation stored) stored w calm in
      let recovery = take_back port identify parse_config (reservation stored) stored in
      let w' : W = (recovery w).1 in
      let (r', c', a') = rest_hushed event stored w' h in
      rw (bind-returned recovery (rest event) w stored same) (r' ∙ r, c' ∙ c, a' ∙ a)
