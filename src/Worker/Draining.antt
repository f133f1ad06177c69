-- ===== src/Worker/Draining.antt =====
-- The loop of the worker pool: that the queue runs empty.
use wakey.Prelude.{
  All, Bool, Bool-cases, List, Option, Option-cases, String, [], any_where, ap, arith, false,
  find_where, if◌then◌else◌, inl, inr, max, none, refl, some, suc, true, update_where,
  update_where-none, zero, ℕ, ◌+◌, ◌-◌, ◌∙◌, ◌∷◌, ◌≡◌, ◌≤◌,
}
use wakey.Models.{Delivery, Fingerprint, LogEvent, processing}
use wakey.Config.{ServiceYaml}
use wakey.Forge.{ForgePort, Reply, raised, returned}
use wakey.Storage.Deliveries.{HasKeys, is_pending, is_row, oldest_pending, set_state}
use wakey.Storage.Deliveries.Saving.{update-HasKeys}
use wakey.Storage.Deliveries.Claiming.{oldest-Picked, row_same}
use wakey.Storage.Deliveries.Retrying.{find-update_row}
use wakey.Pipeline.{Step}
use wakey.Worker.Queue.{S, after_round, ending, processed, round, round_idle, round_taken}
use wakey.Worker.{EventContext}

-- The attempts that a pending delivery has left, one at least.
abbrev pub chances : ℕ → Delivery → ℕ
chances cap d = if is_pending d.state then max 1 (cap - d.attempts) else 0

unfoldable pub work : ℕ → List Delivery → ℕ
work cap [] = 0
work cap (d ∷ ds) = chances cap d + work cap ds

work-update_none :
    (cap : ℕ) (f : Delivery → Delivery) (p : Delivery → Bool) (rows : List Delivery)
    → any_where p rows ≡ false
    → work cap (update_where p f rows) ≡ work cap rows
work-update_none cap f p rows h = ap (work cap) (update_where-none p f rows h)

work-update :
    (cap : ℕ) (f : Delivery → Delivery) (s i : String) (rows : List Delivery) (d : Delivery)
    → HasKeys rows
    → find_where (is_row s i) rows ≡ some d
    → work cap (update_where (is_row s i) f rows) + chances cap d
      ≡ work cap rows + chances cap (f d)
unfolding work update_where find_where
work-update cap f s i [] d k h = ground arith
work-update cap f s i (x ∷ xs) d k h = elim (Bool-cases (is_row s i x)) [
  | inl hit ↦
      let same : x ≡ d = ground arith in
      let rest = work-update_none cap f (is_row s i) xs (row_same s i x xs hit ∙ k.0) in
      rw (hit, ← same) (omega (arith, rest))
  | inr miss ↦ rw miss (omega (arith, work-update cap f s i xs d k.1 (ground arith)))
]

-- the end of a delivery takes one chance at least
ending_less :
    (now later cap : ℕ) (reply : Reply (Unit {0})) (d : Delivery)
    → is_pending d.state ≡ true
    → chances cap
          (ending later cap reply (record d { state = processing }) (set_state processing now d))
        + 1
      ≤ chances cap d
ending_less now later cap (returned _) d h = ground arith
ending_less now later cap (raised exc) d h = ground arith

work-none : (cap : ℕ) (rows : List Delivery) → oldest_pending rows ≡ none → work cap rows ≡ 0
unfolding work oldest_pending
work-none cap [] e = refl
work-none cap (d ∷ ds) e = ground (arith, work-none cap ds)

work_done :
    (cap : ℕ) (rows : List Delivery)
    → work cap rows ≤ 0
    → All (λ d. is_pending d.state ≡ false) rows
unfolding work
work_done cap [] h = tt
work_done cap (d ∷ ds) h = (ground arith, work_done cap ds (omega arith))

module _ (port : ForgePort) (identify : LogEvent → Fingerprint)
    (parse_config : String → Option ServiceYaml)
    (parse_events : String → EventContext → List LogEvent) (redact : String → String)
    (handlers : String → Option (Delivery → Step port identify parse_config (Unit {0}))) where
  abbrev St : Type 0
  St = S port identify parse_config parse_events redact handlers

  abbrev turn : ℕ → ℕ → St → Reply Bool × St
  turn now cap = round port identify parse_config parse_events redact handlers now now cap

  abbrev answer_of : Delivery → St → Reply (Unit {0})
  answer_of d site = (processed port identify parse_config parse_events redact handlers d site).0

  abbrev after_turn : ℕ → ℕ → Delivery → St → St
  after_turn now cap d site =
      after_round port identify parse_config parse_events redact handlers now now cap d site

  -- the rounds of one worker of the pool, one after another
  unfoldable pub drain : ℕ → ℕ → ℕ → St → St
  drain zero now cap site = site
  drain (suc rounds) now cap site = drain rounds (now + 1) cap (turn now cap site).1

  round-HasKeys :
      (now cap : ℕ) (site : St) (d : Delivery)
      → HasKeys site.deliveries
      → HasKeys (after_turn now cap d site).deliveries
  round-HasKeys now cap site d k =
      let row = is_row d.service d.delivery_id in
      let f = ending now cap (answer_of d site) (record d { state = processing }) in
      update-HasKeys row f (λ x. ending_service now cap _ _ x) (λ x. ending_id now cap _ _ x) _
        (update-HasKeys row (set_state processing now) (λ x. refl) (λ x. refl) site.deliveries k)
    where
      ending_service :
          (now cap : ℕ) (reply : Reply (Unit {0})) (d x : Delivery)
          → (ending now cap reply d x).service ≡ x.service
      ending_service now cap (returned _) d x = refl
      ending_service now cap (raised exc) d x = refl

      ending_id :
          (now cap : ℕ) (reply : Reply (Unit {0})) (d x : Delivery)
          → (ending now cap reply d x).delivery_id ≡ x.delivery_id
      ending_id now cap (returned _) d x = refl
      ending_id now cap (raised exc) d x = refl

  round_less :
      (now cap : ℕ) (site : St) (d : Delivery)
      → HasKeys site.deliveries
      → oldest_pending site.deliveries ≡ some d
      → work cap (after_turn now cap d site).deliveries + 1 ≤ work cap site.deliveries
  round_less now cap site d k e =
      let row = is_row d.service d.delivery_id in
      let f = ending now cap (answer_of d site) (record d { state = processing }) in
      let (found, pending_now) = oldest-Picked site.deliveries d k e in
      let marked = update_where row (set_state processing now) site.deliveries in
      omega (
        arith,
        work-update cap (set_state processing now) d.service d.delivery_id site.deliveries d k
            found,
        work-update cap f d.service d.delivery_id marked (set_state processing now d)
            (update-HasKeys row (set_state processing now) (λ x. refl) (λ x. refl) site.deliveries
              k)
            (find-update_row (set_state processing now) d.service d.delivery_id site.deliveries d
              (λ x. refl) found),
        ending_less now now cap (answer_of d site) d pending_now,
      )

  abbrev Emptied : St → Type 0
  Emptied site = All (λ e. is_pending e.state ≡ false) site.deliveries

  Emptied-round :
      (rounds now cap : ℕ) (site : St) (out : Reply Bool × St)
      → turn now cap site ≡ out
      → Emptied (drain rounds (now + 1) cap out.1)
      → Emptied (drain (suc rounds) now cap site)
  unfolding drain
  Emptied-round rounds now cap site out e h =
      coe 1 0 (i. Emptied (drain rounds (now + 1) cap (e i).1)) h

  -- The worker empties the queue, even if every delivery fails every time: with as many rounds as
  -- the pending deliveries have attempts left, one at least each, none of them is pending any more.
  -- The table has its primary key, and nothing is accepted in the meantime.
  pub drain_empties :
      (rounds now cap : ℕ) (site : St)
      → HasKeys site.deliveries
      → work cap site.deliveries ≤ rounds
      → All (λ e. is_pending e.state ≡ false) (drain rounds now cap site).deliveries
  unfolding drain
  drain_empties zero now cap site k le = work_done cap site.deliveries le
  drain_empties (suc rounds) now cap site k le =
      elim (Option-cases (oldest_pending site.deliveries)) [
        | inl e ↦
            Emptied-round rounds now cap site _
              (round_idle port identify parse_config parse_events redact handlers now now cap site
                e)
              (drain_empties rounds (now + 1) cap site k
                (omega (arith, work-none cap site.deliveries e)))
        | inr (d, e) ↦
            Emptied-round rounds now cap site _
              (round_taken port identify parse_config parse_events redact handlers now now cap site
                d k e)
              (drain_empties rounds (now + 1) cap (after_turn now cap d site)
                (round-HasKeys now cap site d k) (omega (arith, round_less now cap site d k e)))
      ]
