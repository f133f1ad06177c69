-- ===== src/Storage/Deliveries.antt =====
-- core/storage.py, the `deliveries` table: the durable queue of accepted payloads. `now` is the
-- clock reading that a method takes.
pub mod Saving
pub mod Claiming
pub mod Retrying
use wakey.Prelude.{
  Bool, List, Option, String, [], any_where, count_where, delete_where, false, find_where,
  if◌then◌else◌, leb, ltb, none, some, true, update_where, ℕ, ◌&&◌, ◌++◌, ◌+◌, ◌==◌, ◌∷◌, ◌≡◌,
}
use wakey.Models.{Delivery, DeliveryState, completed, failed, pending, processing}

abbrev pub is_pending : DeliveryState → Bool
is_pending pending = true
is_pending _ = false

abbrev pub is_processing : DeliveryState → Bool
is_processing processing = true
is_processing _ = false

-- `state IN ('pending', 'processing')`
abbrev pub is_waiting : DeliveryState → Bool
is_waiting pending = true
is_waiting processing = true
is_waiting _ = false

-- `state IN ('completed', 'failed')`
abbrev pub is_finished : DeliveryState → Bool
is_finished completed = true
is_finished failed = true
is_finished _ = false

-- `service = ? AND delivery_id = ?`, the primary key
abbrev pub is_row : String → String → Delivery → Bool
is_row service delivery_id d = d.service == service && d.delivery_id == delivery_id

abbrev pub set_state : DeliveryState → ℕ → Delivery → Delivery
set_state state now d = record d { state = state; updated_at = now }

unfoldable pub save_delivery : ℕ → Delivery → List Delivery → List Delivery × Bool
save_delivery now delivery rows =
    if any_where (is_row delivery.service delivery.delivery_id) rows then (rows, false) else (
      rows ++ record delivery { state = pending; created_at = now; updated_at = now } ∷ [],
      true,
    )

abbrev pub older : Delivery → Option Delivery → Delivery
older d none = d
older d (some e) = if leb d.created_at e.created_at then d else e

-- `WHERE state = 'pending' ORDER BY created_at LIMIT 1`; of rows with one creation time, the first
unfoldable pub oldest_pending : List Delivery → Option Delivery
oldest_pending [] = none
oldest_pending (d ∷ ds) =
    let rest = oldest_pending ds in if is_pending d.state then some (older d rest) else rest

-- The row was read before the update, so the value returned has its old `updated_at`.
unfoldable pub claim_next_delivery : ℕ → List Delivery → List Delivery × Option Delivery
claim_next_delivery now rows = elim (oldest_pending rows) [
  | none ↦ (rows, none)
  | some d ↦ (
    update_where (is_row d.service d.delivery_id) (set_state processing now) rows,
    some (record d { state = processing }),
  )
]

unfoldable pub complete_delivery : ℕ → String → String → List Delivery → List Delivery
complete_delivery now service delivery_id =
    update_where (is_row service delivery_id) (set_state completed now)

-- `WHERE service = ? AND delivery_id = ? AND state = 'pending' RETURNING *`
abbrev pub is_claimable : String → String → Delivery → Bool
is_claimable service delivery_id d = is_row service delivery_id d && is_pending d.state

unfoldable pub claim_delivery :
    ℕ → String → String → List Delivery → List Delivery × Option Delivery
claim_delivery now service delivery_id rows =
    elim (find_where (is_claimable service delivery_id) rows) [
      | none ↦ (rows, none)
      | some d ↦ (
        update_where (is_claimable service delivery_id) (set_state processing now) rows,
        some (set_state processing now d),
      )
    ]

abbrev pub failed_state : ℕ → ℕ → DeliveryState
failed_state attempts max_attempts = if leb max_attempts attempts then failed else pending

-- `none` is the `KeyError` of a delivery that is not there
unfoldable pub fail_delivery :
    ℕ → String → String → ℕ → List Delivery → Option (List Delivery × DeliveryState)
fail_delivery now service delivery_id max_attempts rows =
    elim (find_where (is_row service delivery_id) rows) [
      | none ↦ none
      | some row ↦
          let attempts = row.attempts + 1 in
          let state = failed_state attempts max_attempts in
          some (
            update_where (is_row service delivery_id)
                (λ d. record d { attempts = attempts; state = state; updated_at = now }) rows,
            state,
          )
    ]

-- the second statement of `recover_stale_deliveries`
unfoldable pub recover_processing : ℕ → List Delivery → List Delivery × ℕ
recover_processing now rows = (
  update_where (λ d. is_processing d.state) (set_state pending now) rows,
  count_where (λ d. is_processing d.state) rows,
)

unfoldable pub pending_delivery_count : List Delivery → ℕ
pending_delivery_count = count_where (λ d. is_waiting d.state)

-- `WHERE state IN ('completed', 'failed') AND updated_at < ?`
abbrev pub is_prunable : ℕ → Delivery → Bool
is_prunable older_than d = is_finished d.state && ltb d.updated_at older_than

unfoldable pub prune_deliveries : ℕ → List Delivery → List Delivery × ℕ
prune_deliveries older_than rows =
    (delete_where (is_prunable older_than) rows, count_where (is_prunable older_than) rows)

-- The primary key: no two rows have one service and delivery id.
abbrev pub HasKeys : List Delivery → Type 0
HasKeys [] = Unit {0}
HasKeys (d ∷ ds) = (any_where (is_row d.service d.delivery_id) ds ≡ false) × HasKeys ds
