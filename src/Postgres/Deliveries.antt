-- ===== src/Postgres/Deliveries.antt =====
-- storage/postgres.py, the `deliveries` table. `locked` tells the rows that other transactions hold;
-- one connection behind one lock, as the class has it, leaves none.
use wakey.Prelude.{
  Bool, List, Option, String, [], any_where, count_where, delete_where, false, find_where,
  if◌then◌else◌, none, not, select_where, some, true, update_where, ℕ, ◌++◌, ◌+◌, ◌∷◌,
}
use wakey.Models.{Delivery, DeliveryState, Fingerprint, completed, new, pending, processing}
use wakey.Storage.Deliveries.{
  is_row, is_processing, is_waiting, is_prunable, is_claimable, set_state, failed_state,
  oldest_pending,
}
use wakey.Storage.Fingerprints.{is_interrupted}

-- `INSERT … ON CONFLICT (service, delivery_id) DO NOTHING`, and `rowcount == 1`
unfoldable pub insert_delivery : Delivery → List Delivery → List Delivery × Bool
insert_delivery row rows =
    if any_where (is_row row.service row.delivery_id) rows
    then (rows, false)
    else (rows ++ row ∷ [], true)

unfoldable pub save_delivery : ℕ → Delivery → List Delivery → List Delivery × Bool
unfolding insert_delivery
save_delivery now delivery =
    insert_delivery (record delivery { state = pending; created_at = now; updated_at = now })

-- `SELECT … WHERE state = 'pending' ORDER BY created_at LIMIT 1 FOR UPDATE SKIP LOCKED`
unfoldable pub next_unlocked : (Delivery → Bool) → List Delivery → Option Delivery
next_unlocked locked rows = oldest_pending (select_where (λ d. not (locked d)) rows)

-- The row comes back as the update left it, with its new `updated_at`.
unfoldable pub take_row : ℕ → List Delivery → Option Delivery → List Delivery × Option Delivery
take_row now rows none = (rows, none)
take_row now rows (some d) = (
  update_where (is_row d.service d.delivery_id) (set_state processing now) rows,
  some (set_state processing now d),
)

unfoldable pub claim_next_delivery :
    ℕ → (Delivery → Bool) → List Delivery → List Delivery × Option Delivery
unfolding next_unlocked take_row
claim_next_delivery now locked rows = take_row now rows (next_unlocked locked rows)

unfoldable pub complete_delivery : ℕ → String → String → List Delivery → List Delivery
complete_delivery now service delivery_id =
    update_where (is_row service delivery_id) (set_state completed now)

unfoldable pub claim_delivery :
    ℕ → String → String → List Delivery → List Delivery × Option Delivery
claim_delivery now service delivery_id rows =
    elim (find_where (is_claimable service delivery_id) rows) [
      | none ↦ (rows, none)
      | some d ↦ (
        update_where (is_claimable service delivery_id) (set_state processing now) rows,
        some (set_state processing now d),
      )
    ]

-- `none` is the `KeyError`
unfoldable pub fail_delivery :
    ℕ → String → String → ℕ → List Delivery → Option (List Delivery × DeliveryState)
fail_delivery now service delivery_id max_attempts rows =
    elim (find_where (is_row service delivery_id) rows) [
      | none ↦ none
      | some row ↦
          let attempts = row.attempts + 1 in
          let state = failed_state attempts max_attempts in
          some (
            update_where (is_row service delivery_id)
                (λ d. record d { attempts = attempts; state = state; updated_at = now }) rows,
            state,
          )
    ]

-- both statements of `recover_stale_deliveries`
unfoldable pub recover_stale_deliveries :
    ℕ → List Fingerprint → List Delivery → List Fingerprint × List Delivery × ℕ
recover_stale_deliveries now fingerprints rows = (
  update_where is_interrupted (λ fp. record fp { state = new; reserved_at = none }) fingerprints,
  update_where (λ d. is_processing d.state) (set_state pending now) rows,
  count_where (λ d. is_processing d.state) rows,
)

unfoldable pub pending_delivery_count : List Delivery → ℕ
pending_delivery_count = count_where (λ d. is_waiting d.state)

unfoldable pub prune_deliveries : ℕ → List Delivery → List Delivery × ℕ
prune_deliveries older_than rows =
    (delete_where (is_prunable older_than) rows, count_where (is_prunable older_than) rows)
