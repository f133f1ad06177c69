-- ===== src/Postgres/Agreement.antt =====
-- The two backends as delivery queues: one script of requests, two runs.
use wakey.Prelude.{
  Bool, List, Option, Option-cases, String, [], ap, arith, false, inl, inr, none, not, refl,
  select_where, some, sym, update_where, ℕ, ◌∙◌, ◌∷◌, ◌≡◌,
}
use wakey.Models.{Delivery, DeliveryState, processing}
use wakey.Storage.Deliveries
use wakey.Storage.Deliveries.{oldest_pending, set_state}
use wakey.Postgres.Deliveries as Pg

-- What a client may ask of the queue, at a time of the clock.
pub data Request : Type 0 where
  save : Delivery → Request
  claim_next : Request
  claim complete : String → String → Request
  fail : String → String → ℕ → Request
  recover count : Request
  prune : ℕ → Request

-- What it is told. The `updated_at` of a claimed delivery is left out: SQLite gives the old one.
pub data Answer : Type 0 where
  saved : Bool → Answer
  claimed : Option Delivery → Answer
  done missing : Answer
  failed_as : DeliveryState → Answer
  number : ℕ → Answer

abbrev pub untimed : Option Delivery → Option Delivery
untimed none = none
untimed (some d) = some (record d { updated_at = 0 })

abbrev pub failure : List Delivery → Option (List Delivery × DeliveryState) → List Delivery × Answer
failure rows none = (rows, missing)
failure rows (some (rows', state)) = (rows', failed_as state)

unfoldable pub sqlite : ℕ → Request → List Delivery → List Delivery × Answer
sqlite now (save d) rows =
    let (rows', new_row) = Deliveries.save_delivery now d rows in (rows', saved new_row)
sqlite now claim_next rows =
    let (rows', d) = Deliveries.claim_next_delivery now rows in (rows', claimed (untimed d))
sqlite now (claim s i) rows =
    let (rows', d) = Deliveries.claim_delivery now s i rows in (rows', claimed (untimed d))
sqlite now (complete s i) rows = (Deliveries.complete_delivery now s i rows, done)
sqlite now (fail s i cap) rows = failure rows (Deliveries.fail_delivery now s i cap rows)
sqlite now recover rows =
    let (rows', n) = Deliveries.recover_processing now rows in (rows', number n)
sqlite now count rows = (rows, number (Deliveries.pending_delivery_count rows))
sqlite now (prune cutoff) rows =
    let (rows', n) = Deliveries.prune_deliveries cutoff rows in (rows', number n)

-- no row is locked by another transaction
abbrev pub unlocked : Delivery → Bool
unlocked d = false

unfoldable pub postgres : ℕ → Request → List Delivery → List Delivery × Answer
postgres now (save d) rows =
    let (rows', new_row) = Pg.save_delivery now d rows in (rows', saved new_row)
postgres now claim_next rows =
    let (rows', d) = Pg.claim_next_delivery now unlocked rows in (rows', claimed (untimed d))
postgres now (claim s i) rows =
    let (rows', d) = Pg.claim_delivery now s i rows in (rows', claimed (untimed d))
postgres now (complete s i) rows = (Pg.complete_delivery now s i rows, done)
postgres now (fail s i cap) rows = failure rows (Pg.fail_delivery now s i cap rows)
postgres now recover rows =
    let (fingerprints, rows', n) = Pg.recover_stale_deliveries now [] rows in (rows', number n)
postgres now count rows = (rows, number (Pg.pending_delivery_count rows))
postgres now (prune cutoff) rows =
    let (rows', n) = Pg.prune_deliveries cutoff rows in (rows', number n)

-- A run of a script: the table after it, and the answers in order.
unfoldable pub run :
    (ℕ → Request → List Delivery → List Delivery × Answer)
    → List (ℕ × Request)
    → List Delivery
    → List Delivery × List Answer
run backend [] rows = (rows, [])
run backend ((now, request) ∷ script) rows =
    let (rows', answer) = backend now request rows in
    let (final, answers) = run backend script rows' in (final, answer ∷ answers)

select_all : (rows : List Delivery) → select_where (λ d. not (unlocked d)) rows ≡ rows
unfolding select_where
select_all [] = refl
select_all (d ∷ rows) = ap (◌∷◌ d) (select_all rows)

-- what each backend makes of the row that it picked
abbrev picked : ℕ → List Delivery → Option Delivery → List Delivery × Answer
picked now rows none = (rows, claimed none)
picked now rows (some d) = (
  update_where (Deliveries.is_row d.service d.delivery_id) (set_state processing now) rows,
  claimed (some (record d { state = processing; updated_at = 0 })),
)

sqlite-picked :
    (now : ℕ) (rows : List Delivery)
    → sqlite now claim_next rows ≡ picked now rows (oldest_pending rows)
unfolding sqlite Deliveries.claim_next_delivery
sqlite-picked now rows = elim (Option-cases (oldest_pending rows)) [
  | inl e ↦ ground arith
  | inr (d, e) ↦ ground arith
]

postgres-picked :
    (now : ℕ) (rows : List Delivery)
    → postgres now claim_next rows ≡ picked now rows (oldest_pending rows)
unfolding postgres Pg.claim_next_delivery Pg.next_unlocked Pg.take_row
postgres-picked now rows =
    ap
      (λ (o : Option Delivery).
        let (rows', d) = Pg.take_row now rows o in (rows', claimed (untimed d)))
      (ap oldest_pending (select_all rows))
    ∙ told (oldest_pending rows)
  where
    told :
        (o : Option Delivery)
        → ((Pg.take_row now rows o).0, claimed (untimed (Pg.take_row now rows o).1))
          ≡ picked now rows o
    told none = refl
    told (some d) = refl

same_step :
    (now : ℕ) (request : Request) (rows : List Delivery)
    → sqlite now request rows ≡ postgres now request rows
unfolding sqlite postgres Deliveries.save_delivery Pg.save_delivery Deliveries.claim_delivery
    Pg.claim_delivery Deliveries.complete_delivery Pg.complete_delivery Deliveries.fail_delivery
    Pg.fail_delivery Deliveries.recover_processing Pg.recover_stale_deliveries
    Deliveries.pending_delivery_count Pg.pending_delivery_count Deliveries.prune_deliveries
    Pg.prune_deliveries
same_step now claim_next rows = sqlite-picked now rows ∙ sym (postgres-picked now rows)
same_step now (save d) rows = refl
same_step now (claim s i) rows = refl
same_step now (complete s i) rows = refl
same_step now (fail s i cap) rows = refl
same_step now recover rows = refl
same_step now count rows = refl
same_step now (prune cutoff) rows = refl

-- Whatever clients ask of the queue, in whatever order and at whatever times, the two backends give
-- the same answers and end with the same table, but for the `updated_at` of a delivery that is
-- claimed: SQLite answers with the row as it was read, Postgres with the row as it is written. No row is
-- locked by another transaction.
pub run-same :
    (script : List (ℕ × Request)) (rows : List Delivery)
    → run sqlite script rows ≡ run postgres script rows
unfolding run
run-same [] rows = refl
run-same ((now, request) ∷ script) rows =
    ap
      (λ (p : List Delivery × Answer).
        let (final, answers) = run sqlite script p.0 in (final, p.1 ∷ answers))
      (same_step now request rows)
    ∙ ap (λ (q : List Delivery × List Answer). (q.0, (postgres now request rows).1 ∷ q.1))
        (run-same script (postgres now request rows).0)
