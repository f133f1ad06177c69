-- ===== src/Worker/Queue.antt =====
-- The queue under the worker: how one round of it ends.
use wakey.Prelude.{
  Bool, Bool-cases, List, String, ap, arith, false, find_where, if◌then◌else◌, inl, inr, some, true,
  update_where, ℕ, ◌+◌, ◌∙◌, ◌≡◌, Option, none, refl, eq_iff, Option-cases, ◌⊎◌, leb,
}
use wakey.Models.{Delivery, failed, pending, completed, processing, Fingerprint, LogEvent}
use wakey.Config.{ServiceYaml}
use wakey.Forge.{Reply, raised, returned, ForgePort}
use wakey.Storage.Deliveries.{
  HasKeys, is_row, set_state, claim_next_delivery, complete_delivery, fail_delivery, oldest_pending,
}
use wakey.Storage.Deliveries.Claiming.{
  HasNoPending, IsOldest, NoOlder-IsOldest, none-HasNoPending, only_pending, oldest-Picked,
  oldest-NoOlder,
}
use wakey.Storage.Deliveries.Retrying.{find-update_row, find-update_other, rows_apart}
use wakey.Pipeline.{Step}
use wakey.Pipeline.State.{World}
use wakey.Worker.{EventContext, Site, finish, process, process_next, after_claim}

-- What the end of a delivery writes into its row: completed, or one more attempt, and then failed at
-- the cap and pending below it.
abbrev pub ending : ℕ → ℕ → Reply (Unit {0}) → Delivery → Delivery → Delivery
ending now cap (returned _) d x = record x { state = completed; updated_at = now }
ending now cap (raised exc) d x = record x {
  attempts = d.attempts + 1;
  state = if leb cap (d.attempts + 1) then failed else pending;
  updated_at = now;
}

claim_some :
    (now : ℕ) (rows : List Delivery) (d : Delivery)
    → oldest_pending rows ≡ some d
    → claim_next_delivery now rows ≡ (
      update_where (is_row d.service d.delivery_id) (set_state processing now) rows,
      some (record d { state = processing }),
    )
unfolding claim_next_delivery
claim_some now rows d e = rw (e, claim_next_delivery)

claim_none :
    (now : ℕ) (rows : List Delivery)
    → oldest_pending rows ≡ none
    → claim_next_delivery now rows ≡ (rows, none)
unfolding claim_next_delivery
claim_none now rows e = rw (e, claim_next_delivery)

ending_row :
    (now cap : ℕ) (reply : Reply (Unit {0})) (d x : Delivery) (s i : String)
    → is_row s i (ending now cap reply d x) ≡ is_row s i x
ending_row now cap (returned _) d x s i = refl
ending_row now cap (raised exc) d x s i = refl

module _ (port : ForgePort) (identify : LogEvent → Fingerprint)
    (parse_config : String → Option ServiceYaml)
    (parse_events : String → EventContext → List LogEvent) (redact : String → String)
    (handlers : String → Option (Delivery → Step port identify parse_config (Unit {0}))) where
  abbrev pub S : Type 0
  S = Site (port.Remote)

  abbrev pub round : ℕ → ℕ → ℕ → S → Reply Bool × S
  round = process_next port identify parse_config parse_events redact handlers

  abbrev pub processed : Delivery → S → Reply (Unit {0}) × World (port.Remote)
  processed d site =
      process port identify parse_config parse_events redact handlers
        (record d { state = processing }) site.world

  -- the site after a round that took the delivery
  abbrev pub after_round : ℕ → ℕ → ℕ → Delivery → S → S
  after_round now later cap d site = record {
    world = (processed d site).1;
    deliveries =
        update_where (is_row d.service d.delivery_id)
          (ending later cap (processed d site).0 (record d { state = processing }))
          (update_where (is_row d.service d.delivery_id) (set_state processing now)
            site.deliveries);
  }

  finish_lem :
      (now cap : ℕ) (d x : Delivery) (reply : Reply (Unit {0})) (w : World (port.Remote))
      (rows : List Delivery)
      → find_where (is_row d.service d.delivery_id) rows ≡ some x
      → x.attempts ≡ d.attempts
      → finish port identify parse_config parse_events redact handlers now cap d reply w rows ≡ (
        returned true,
        record {
          world = w;
          deliveries = update_where (is_row d.service d.delivery_id) (ending now cap reply d) rows;
        },
      )
  unfolding finish complete_delivery fail_delivery
  finish_lem now cap d x (returned _) w rows e same = refl
  finish_lem now cap d x (raised exc) w rows e same = rw (e, finish, fail_delivery, same)

  pub round_taken :
      (now later cap : ℕ) (site : S) (d : Delivery)
      → HasKeys site.deliveries
      → oldest_pending site.deliveries ≡ some d
      → round now later cap site ≡ (returned true, after_round now later cap d site)
  unfolding process_next
  round_taken now later cap site d k e =
      let found = (oldest-Picked site.deliveries d k e).0 in
      ap (after_claim port identify parse_config parse_events redact handlers later cap site.world)
        (claim_some now site.deliveries d e)
      ∙ (finish_lem later cap (record d { state = processing }) (set_state processing now d) _ _ _
          (find-update_row (set_state processing now) d.service d.delivery_id site.deliveries d
            (λ x. refl) found)
          refl)

  pub round_idle :
      (now later cap : ℕ) (site : S)
      → oldest_pending site.deliveries ≡ none
      → round now later cap site ≡ (returned false, site)
  unfolding process_next
  round_idle now later cap site e =
      ap (after_claim port identify parse_config parse_events redact handlers later cap site.world)
        (claim_none now site.deliveries e)

  -- the row of any key after a round
  row_after_round :
      (now later cap : ℕ) (site : S) (d : Delivery) (s i : String)
      → HasKeys site.deliveries
      → oldest_pending site.deliveries ≡ some d
      → find_where (is_row s i) (after_round now later cap d site).deliveries ≡ (
          if is_row s i d
          then some (
              ending later cap
                (processed d site).0
                (record d { state = processing })
                (set_state processing now d))
          else find_where (is_row s i) site.deliveries)
  row_after_round now later cap site d s i k e =
      let f = ending later cap (processed d site).0 (record d { state = processing }) in
      let found = (oldest-Picked site.deliveries d k e).0 in
      let marked =
        find-update_row (set_state processing now) d.service d.delivery_id site.deliveries d
          (λ x. refl) found in
      elim (Bool-cases (is_row s i d)) [
        | inl hit ↦
            let same_service : d.service ≡ s = ground (arith, eq_iff d.service s) in
            let same_id : d.delivery_id ≡ i = ground (arith, eq_iff d.delivery_id i) in
            rw (hit, ← same_service, ← same_id)
              (find-update_row f d.service d.delivery_id _ _
                (λ x.
                  ending_row later cap (processed d site).0 (record d { state = processing }) x
                    d.service d.delivery_id)
                marked)
        | inr miss ↦ rw miss (
            find-update_other f (is_row d.service d.delivery_id) s i _
              (λ x.
                ending_row later cap (processed d site).0 (record d { state = processing }) x s i)
              (λ x. rows_apart s i d x miss)
            ∙ find-update_other (set_state processing now) (is_row d.service d.delivery_id) s i
                site.deliveries (λ x. refl) (λ x. rows_apart s i d x miss))
      ]

  -- A round either finds no pending delivery and changes nothing, or takes a row of the table that is
  -- pending, with no pending row older: it says that it handled one, the world is the one that
  -- processing left, the delivery's row is completed if processing returned, or has one more attempt
  -- and is failed if that reaches the cap and pending if not when it raised, and the row of every
  -- other key is as it was. The table has its primary key.
  pub process_next_lem :
      (now later cap : ℕ) (site : S) (s i : String)
      → HasKeys site.deliveries
      → ((round now later cap site ≡ (returned false, site)) × HasNoPending site.deliveries)
        ⊎ ((d : Delivery) × (find_where (is_row d.service d.delivery_id) site.deliveries ≡ some d)
            × (d.state ≡ pending)
            × IsOldest d site.deliveries
            × ((round now later cap site).0 ≡ returned true)
            × ((round now later cap site).1.world ≡ (processed d site).1)
            × (find_where (is_row s i) (round now later cap site).1.deliveries ≡ (
                if is_row s i d
                then some (
                    ending later cap
                      (processed d site).0
                      (record d { state = processing })
                      (set_state processing now d))
                else find_where (is_row s i) site.deliveries)))
  process_next_lem now later cap site s i k = elim (Option-cases (oldest_pending site.deliveries)) [
    | inl e ↦ inl (round_idle now later cap site e, none-HasNoPending site.deliveries e)
    | inr (d, e) ↦
        let taken = round_taken now later cap site d k e in
        let picked = oldest-Picked site.deliveries d k e in
        inr (
          d,
          picked.0,
          only_pending d.state picked.1,
          NoOlder-IsOldest d site.deliveries (oldest-NoOlder site.deliveries d e),
          ap (λ p. p.0) taken,
          ap (λ p. p.1.world) taken,
          ap (λ p. find_where (is_row s i) p.1.deliveries) taken
              ∙ row_after_round now later cap site d s i k e,
        )
  ]
