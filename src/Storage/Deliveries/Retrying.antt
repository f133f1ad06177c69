-- ===== src/Storage/Deliveries/Retrying.antt =====
-- Failures, retries, dead letters and crash recovery.
use wakey.Prelude.{
  if◌then◌else◌, leb, List, Option, String, [], arith, find_where, none, some, suc, update_where,
  zero, ℕ, ◌+◌, ◌∷◌, ◌≡◌, refl, ap, count_where, delete_where, ◌∙◌, Bool, eq_iff, false, true,
}
use wakey.Models.{Delivery, failed, pending}
use wakey.Storage.Deliveries.{
  fail_delivery, failed_state, is_row, is_pending, is_processing, is_waiting,
  pending_delivery_count, prune_deliveries, recover_processing, set_state,
}

pub find-update_row :
    (f : Delivery → Delivery) (s i : String) (rows : List Delivery) (d : Delivery)
    → ((x : Delivery) → is_row s i (f x) ≡ is_row s i x)
    → find_where (is_row s i) rows ≡ some d
    → find_where (is_row s i) (update_where (is_row s i) f rows) ≡ some (f d)
unfolding find_where update_where
find-update_row f s i [] d h e = ground arith
find-update_row f s i (x ∷ xs) d h e = ground (arith, h x, find-update_row f s i xs d h)

-- An update of one key leaves the rows of another as they were.
pub find-update_other :
    (f : Delivery → Delivery) (p : Delivery → Bool) (s i : String) (rows : List Delivery)
    → ((x : Delivery) → is_row s i (f x) ≡ is_row s i x)
    → ((x : Delivery) → is_row s i x ≡ true → p x ≡ false)
    → find_where (is_row s i) (update_where p f rows) ≡ find_where (is_row s i) rows
unfolding find_where update_where
find-update_other f p s i [] same apart = refl
find-update_other f p s i (x ∷ xs) same apart =
    ground (arith, same x, apart x, find-update_other f p s i xs same apart)

pub rows_apart :
    (s i : String) (d x : Delivery)
    → is_row s i d ≡ false
    → is_row s i x ≡ true
    → is_row d.service d.delivery_id x ≡ false
rows_apart s i d x h e = ground (
  arith,
  eq_iff d.service s,
  eq_iff d.delivery_id i,
  eq_iff x.service s,
  eq_iff x.delivery_id i,
  eq_iff x.service d.service,
  eq_iff x.delivery_id d.delivery_id,
)

-- `n` failures of one delivery in a row, at clock readings `now`, `now + 1`, …
abbrev pub fail_times : ℕ → ℕ → String → String → ℕ → List Delivery → Option (List Delivery)
fail_times zero now s i cap rows = some rows
fail_times (suc n) now s i cap rows = elim (fail_delivery now s i cap rows) [
  | none ↦ none
  | some (rows', state) ↦ fail_times n (now + 1) s i cap rows'
]

abbrev failed_row : ℕ → ℕ → Delivery → Delivery
failed_row now cap d = record d {
  attempts = d.attempts + 1;
  state = failed_state (d.attempts + 1) cap;
  updated_at = now;
}

fail_hit :
    (now : ℕ) (s i : String) (cap : ℕ) (rows : List Delivery) (d : Delivery)
    → find_where (is_row s i) rows ≡ some d
    → (rows' : List Delivery) × (fail_delivery now s i cap rows
        ≡ some (rows', failed_state (d.attempts + 1) cap))
      × (find_where (is_row s i) rows' ≡ some (failed_row now cap d))
unfolding fail_delivery
fail_hit now s i cap rows d e =
    let write : Delivery → Delivery = λ x. record x {
      attempts = d.attempts + 1;
      state = failed_state (d.attempts + 1) cap;
      updated_at = now;
    } in
    (
      update_where (is_row s i) write rows,
      rw (e, fail_delivery),
      find-update_row write s i rows d (λ x. refl) e,
    )

-- A delivery that is in the table and fails `n + 1` times has `n + 1` more attempts, and is `failed`
-- (dead-lettered) if that reaches the cap and `pending` again if not; its payload is untouched.
pub fail_bounded :
    (n now : ℕ) (s i : String) (cap : ℕ) (rows : List Delivery) (d : Delivery)
    → find_where (is_row s i) rows ≡ some d
    → (rows' : List Delivery) × (d' : Delivery) × (fail_times (suc n) now s i cap rows ≡ some rows')
      × (find_where (is_row s i) rows' ≡ some d')
      × (d'.attempts ≡ d.attempts + suc n)
      × (d'.state ≡ (if leb cap (d.attempts + suc n) then failed else pending))
      × (d'.payload ≡ d.payload)
fail_bounded zero now s i cap rows d e =
    let (rows', hit, found) = fail_hit now s i cap rows d e in
    (
      rows',
      failed_row now cap d,
      rw (hit, fail_times),
      found,
      omega arith,
      ap (λ k. failed_state k cap) (omega arith),
      refl,
    )
fail_bounded (suc n) now s i cap rows d e =
    let (rows', hit, found) = fail_hit now s i cap rows d e in
    let (after, d', run, found', more, state, same) =
      fail_bounded n (now + 1) s i cap rows' (failed_row now cap d) found in
    (
      after,
      d',
      rw (hit, fail_times) run,
      found',
      omega (arith, more),
      state ∙ ap (λ k. failed_state k cap) (omega arith),
      same,
    )

all_moved :
    (now : ℕ) (rows : List Delivery)
    → (count_where
          (λ d. is_processing d.state)
          (update_where (λ d. is_processing d.state) (set_state pending now) rows)
        ≡ 0)
      × (count_where
            (λ d. is_waiting d.state)
            (update_where (λ d. is_processing d.state) (set_state pending now) rows)
          ≡ count_where (λ d. is_waiting d.state) rows)
      × (count_where
            (λ d. is_pending d.state)
            (update_where (λ d. is_processing d.state) (set_state pending now) rows)
          ≡ count_where (λ d. is_pending d.state) rows
            + count_where (λ d. is_processing d.state) rows)
unfolding count_where update_where
all_moved now [] = (refl, refl, omega arith)
all_moved now (d ∷ ds) = ground (arith, all_moved now ds)

-- Recovery at startup leaves no delivery in processing and loses none: as many wait as before, and
-- the number that it returns is the number of rows that went back to pending.
pub recover_lem :
    (now : ℕ) (rows : List Delivery)
    → (count_where (λ d. is_processing d.state) (recover_processing now rows).0 ≡ 0)
      × (pending_delivery_count (recover_processing now rows).0 ≡ pending_delivery_count rows)
      × (count_where (λ d. is_pending d.state) (recover_processing now rows).0
          ≡ count_where (λ d. is_pending d.state) rows + (recover_processing now rows).1)
unfolding recover_processing pending_delivery_count
recover_lem now rows = all_moved now rows

-- Pruning never drops a delivery that waits or is in flight.
pub prune_keeps_waiting :
    (cutoff : ℕ) (rows : List Delivery)
    → pending_delivery_count (prune_deliveries cutoff rows).0 ≡ pending_delivery_count rows
unfolding prune_deliveries pending_delivery_count count_where delete_where
prune_keeps_waiting cutoff [] = refl
prune_keeps_waiting cutoff (d ∷ ds) = ground (arith, prune_keeps_waiting cutoff ds)
