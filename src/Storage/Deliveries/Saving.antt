-- ===== src/Storage/Deliveries/Saving.antt =====
-- Accepting a payload: once for a key, whatever happens to the delivery later.
use wakey.Prelude.{
  Bool, List, String, [], any_where, any_where-delete, any_where-update, arith, delete_where,
  eq_iff, false, refl, true, update_where, ℕ, ◌++◌, ◌||◌, ◌∷◌, ◌≡◌,
}
use wakey.Models.{Delivery, pending}
use wakey.Storage.Deliveries.{HasKeys, is_row, save_delivery}

any_row-append :
    (s i : String) (rows : List Delivery) (d : Delivery)
    → any_where (is_row s i) (rows ++ d ∷ []) ≡ (any_where (is_row s i) rows || is_row s i d)
unfolding any_where
any_row-append s i [] d = ground arith
any_row-append s i (r ∷ rows) d = ground (arith, any_row-append s i rows d)

-- The rows that a key selects after a save: those from before, and the new one if it has the key.
pub any_row-save :
    (s i : String) (now : ℕ) (d : Delivery) (rows : List Delivery)
    → any_where (is_row s i) (save_delivery now d rows).0
      ≡ (any_where (is_row s i) rows || is_row s i d)
unfolding save_delivery
any_row-save s i now d rows = ground (
  arith,
  any_row-append s i rows (record d { state = pending; created_at = now; updated_at = now }),
  eq_iff d.service s,
  eq_iff d.delivery_id i,
)

save_seen :
    (now : ℕ) (d : Delivery) (rows : List Delivery)
    → any_where (is_row d.service d.delivery_id) rows ≡ true
    → save_delivery now d rows ≡ (rows, false)
unfolding save_delivery
save_seen now d rows h = ground arith

-- After a delivery is saved, saving any payload under its key, at any time, changes nothing and
-- says that the delivery is a replay.
pub save_replay :
    (now later : ℕ) (d again : Delivery) (rows : List Delivery)
    → again.service ≡ d.service
    → again.delivery_id ≡ d.delivery_id
    → save_delivery later again (save_delivery now d rows).0 ≡ ((save_delivery now d rows).0, false)
save_replay now later d again rows hs hi = save_seen later again (save_delivery now d rows).0 (
    ground (
      arith,
      any_row-save again.service again.delivery_id now d rows,
      eq_iff d.service again.service,
      eq_iff d.delivery_id again.delivery_id,
    ))

module _ (p : Delivery → Bool) (f : Delivery → Delivery) where
  -- An update that leaves the key alone keeps the primary key.
  pub update-HasKeys :
      ((d : Delivery) → (f d).service ≡ d.service)
      → ((d : Delivery) → (f d).delivery_id ≡ d.delivery_id)
      → (rows : List Delivery) → HasKeys rows
      → HasKeys (update_where p f rows)
  unfolding update_where
  update-HasKeys hs hi [] k = tt
  update-HasKeys hs hi (d ∷ ds) k = ground (
    arith,
    hs d,
    hi d,
    any_where-update (is_row d.service d.delivery_id) p f ds (λ x. rw (hs x, hi x)),
    update-HasKeys hs hi ds k.1,
  )

pub delete-HasKeys :
    (p : Delivery → Bool) (rows : List Delivery) → HasKeys rows → HasKeys (delete_where p rows)
unfolding delete_where
delete-HasKeys p [] k = tt
delete-HasKeys p (d ∷ ds) k =
    ground (arith, any_where-delete (is_row d.service d.delivery_id) p ds, delete-HasKeys p ds k.1)

append-HasKeys :
    (rows : List Delivery) (d : Delivery)
    → any_where (is_row d.service d.delivery_id) rows ≡ false
    → HasKeys rows
    → HasKeys (rows ++ d ∷ [])
unfolding any_where
append-HasKeys [] d h k = (refl, tt)
append-HasKeys (r ∷ rows) d h k = ground (
  arith,
  any_row-append r.service r.delivery_id rows d,
  eq_iff r.service d.service,
  eq_iff d.service r.service,
  eq_iff r.delivery_id d.delivery_id,
  eq_iff d.delivery_id r.delivery_id,
  append-HasKeys rows d,
)

pub save-HasKeys :
    (now : ℕ) (d : Delivery) (rows : List Delivery)
    → HasKeys rows
    → HasKeys (save_delivery now d rows).0
unfolding save_delivery
save-HasKeys now d rows k =
    ground (
      arith,
      append-HasKeys rows (record d { state = pending; created_at = now; updated_at = now }),
    )
