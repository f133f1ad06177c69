-- ===== src/Storage/Deliveries/Claiming.antt =====
-- Claiming: the oldest pending row, by one worker only.
use wakey.Prelude.{
  ap, ◌≢◌, All, Bool, Bool-cases, List, Option, Option-cases, String, [], any_where,
  any_where-found, arith, count_where, eq_iff, eq_refl, false, find_where, if◌then◌else◌, inl, inr,
  none, refl, some, true, update_where, update_where-none, ◌+◌, ◌∙◌, ◌∷◌, ◌≡◌, ◌≤◌, ◌⊎◌, ℕ,
}
use wakey.Models.{Delivery, DeliveryState, completed, failed, pending, processing}
use wakey.Storage.Deliveries.Retrying.{find-update_row, find-update_other, rows_apart}
use wakey.Storage.Deliveries.{
  HasKeys, is_pending, is_row, older, oldest_pending, claim_delivery, claim_next_delivery,
  is_claimable, is_processing, is_waiting, pending_delivery_count, set_state,
}

row_self : (d : Delivery) → is_row d.service d.delivery_id d ≡ true
row_self d = ground (arith, eq_refl d.service, eq_refl d.delivery_id)

-- rows of one key are selected alike
pub row_same :
    (s i : String) (d : Delivery) (rows : List Delivery)
    → is_row s i d ≡ true
    → any_where (is_row s i) rows ≡ any_where (is_row d.service d.delivery_id) rows
row_same s i d rows h = ground (arith, eq_iff d.service s, eq_iff d.delivery_id i)

older-cases : (d : Delivery) (o : Option Delivery) → (older d o ≡ d) ⊎ (o ≡ some (older d o))
older-cases d none = inl refl
older-cases d (some e) = ground arith

abbrev Picked : List Delivery → Delivery → Type 0
Picked rows d =
    (find_where (is_row d.service d.delivery_id) rows ≡ some d) × (is_pending d.state ≡ true)

Picked-head : (x : Delivery) (xs : List Delivery) → is_pending x.state ≡ true → Picked (x ∷ xs) x
unfolding find_where
Picked-head x xs h = ground (arith, row_self x)

Picked-tail :
    (x d : Delivery) (xs : List Delivery)
    → any_where (is_row x.service x.delivery_id) xs ≡ false
    → Picked xs d
    → Picked (x ∷ xs) d
unfolding find_where
Picked-tail x d xs fresh h = ground (
  arith,
  row_same d.service d.delivery_id x xs,
  any_where-found (is_row d.service d.delivery_id) xs d h.0,
)

pub oldest-Picked :
    (rows : List Delivery) (d : Delivery)
    → HasKeys rows
    → oldest_pending rows ≡ some d
    → Picked rows d
unfolding oldest_pending
oldest-Picked [] d k h = ground arith
oldest-Picked (x ∷ xs) d k h = elim (Bool-cases (is_pending x.state)) [
  | inl p ↦ elim (older-cases x (oldest_pending xs)) [
    | inl e ↦ let same : x ≡ d = ground arith in rw (← same) (Picked-head x xs p)
    | inr e ↦ Picked-tail x d xs k.0 (oldest-Picked xs d k.1 (ground arith))
  ]
  | inr p ↦ Picked-tail x d xs k.0 (oldest-Picked xs d k.1 (ground arith))
]

-- Under the primary key, an update of one row moves each count by that row alone.
pub count-update_row :
    (q : Delivery → Bool) (f : Delivery → Delivery) (s i : String) (rows : List Delivery)
    (d : Delivery)
    → HasKeys rows
    → find_where (is_row s i) rows ≡ some d
    → count_where q (update_where (is_row s i) f rows) + (if q d then 1 else 0)
      ≡ count_where q rows + (if q (f d) then 1 else 0)
unfolding count_where update_where find_where
count-update_row q f s i [] d k h = ground arith
count-update_row q f s i (x ∷ xs) d k h = elim (Bool-cases (is_row s i x)) [
  | inl hit ↦ ground (arith, update_where-none (is_row s i) f xs (row_same s i x xs hit ∙ k.0))
  | inr miss ↦ ground (arith, count-update_row q f s i xs d k.1)
]

abbrev pub NoOlder : Delivery → List Delivery → Type 0
NoOlder d = All (λ e. is_pending e.state ≡ true → d.created_at ≤ e.created_at)

NoOlder-mono :
    (d e : Delivery) (rows : List Delivery)
    → d.created_at ≤ e.created_at
    → NoOlder e rows
    → NoOlder d rows
NoOlder-mono d e [] le h = tt
NoOlder-mono d e (x ∷ xs) le h = (λ p. omega (arith, h.0 p), NoOlder-mono d e xs le h.1)

-- no pending row at all
pub none_pending :
    (rows : List Delivery) → oldest_pending rows ≡ none → All (λ e. is_pending e.state ≡ false) rows
unfolding oldest_pending
none_pending [] h = tt
none_pending (x ∷ xs) h = (ground arith, none_pending xs (ground arith))

NoOlder-none : (d : Delivery) (rows : List Delivery) → oldest_pending rows ≡ none → NoOlder d rows
unfolding oldest_pending
NoOlder-none d [] h = tt
NoOlder-none d (x ∷ xs) h = (λ p. ground arith, NoOlder-none d xs (ground arith))

pub oldest-NoOlder :
    (rows : List Delivery) (d : Delivery) → oldest_pending rows ≡ some d → NoOlder d rows
unfolding oldest_pending
oldest-NoOlder [] d h = tt
oldest-NoOlder (x ∷ xs) d h = elim (Option-cases (oldest_pending xs)) [
  | inl e ↦ (λ p. ground arith, NoOlder-none d xs e)
  | inr (r, e) ↦ (λ p. ground arith, NoOlder-mono d r xs (ground arith) (oldest-NoOlder xs r e))
]

abbrev count_pending : List Delivery → ℕ
count_pending = count_where (λ d. is_pending d.state)

abbrev count_processing : List Delivery → ℕ
count_processing = count_where (λ d. is_processing d.state)

pub only_pending : (state : DeliveryState) → is_pending state ≡ true → state ≡ pending
only_pending pending e = refl
only_pending processing e = ground arith
only_pending completed e = ground arith
only_pending failed e = ground arith

pending_is : (e : Delivery) → e.state ≡ pending → is_pending e.state ≡ true
pending_is e h = ap is_pending h

-- No pending row is older.
abbrev pub IsOldest : Delivery → List Delivery → Type 0
IsOldest d = All (λ e. e.state ≡ pending → d.created_at ≤ e.created_at)

-- No row is pending.
abbrev pub HasNoPending : List Delivery → Type 0
HasNoPending = All (λ e. e.state ≢ pending)

pub NoOlder-IsOldest : (d : Delivery) (rows : List Delivery) → NoOlder d rows → IsOldest d rows
NoOlder-IsOldest d [] h = tt
NoOlder-IsOldest d (e ∷ es) h = (λ p. h.0 (pending_is e p), NoOlder-IsOldest d es h.1)

pub none-HasNoPending : (rows : List Delivery) → oldest_pending rows ≡ none → HasNoPending rows
none-HasNoPending rows h = by_rows rows (none_pending rows h)
  where
    by_rows :
        (rows : List Delivery) → All (λ e. is_pending e.state ≡ false) rows → HasNoPending rows
    by_rows [] all = tt
    by_rows (e ∷ es) all = (λ p. let is = pending_is e p in ground arith, by_rows es all.1)

-- What a claim at `now` that returns `d` has done: `d` is a row of the table that was pending, with no
-- pending row older, handed out as processing; that row is marked, the row of every other key is as
-- it was; one row fewer is pending, one more is processing, and as many wait in all.
pub record IsClaim (now : ℕ) (rows after : List Delivery) (d : Delivery) : Type 0 where
  pub old : Delivery
  pub found : find_where (is_row d.service d.delivery_id) rows ≡ some old
  pub was_pending : old.state ≡ pending
  pub handed_out : d ≡ record old { state = processing }
  pub oldest : IsOldest d rows
  pub marked :
      find_where (is_row d.service d.delivery_id) after
      ≡ some (record old { state = processing; updated_at = now })
  pub others :
      (s i : String)
      → is_row s i d ≡ false
      → find_where (is_row s i) after ≡ find_where (is_row s i) rows
  pub one_less_pending : count_pending after + 1 ≡ count_pending rows
  pub one_more_processing : count_processing after ≡ count_processing rows + 1
  pub same_waiting : pending_delivery_count after ≡ pending_delivery_count rows

IsClaim-Picked :
    (now : ℕ) (rows : List Delivery) (d : Delivery)
    → HasKeys rows
    → oldest_pending rows ≡ some d
    → IsClaim now rows
        (update_where (is_row d.service d.delivery_id) (set_state processing now) rows)
        (record d { state = processing })
unfolding pending_delivery_count
IsClaim-Picked now rows d k e =
    let picked = oldest-Picked rows d k e in
    let moved = λ (q : Delivery → Bool).
      count-update_row q (set_state processing now) d.service d.delivery_id rows d k picked.0 in
    record {
      old = d;
      found = picked.0;
      was_pending = only_pending d.state picked.1;
      handed_out = refl;
      oldest = NoOlder-IsOldest d rows (oldest-NoOlder rows d e);
      marked =
          find-update_row (set_state processing now) d.service d.delivery_id rows d (λ x. refl)
            picked.0;
      others = λ s i apart.
          find-update_other (set_state processing now) (is_row d.service d.delivery_id) s i rows
            (λ x. refl) (λ x. rows_apart s i d x apart);
      one_less_pending = ground (arith, picked.1, moved (λ x. is_pending x.state));
      one_more_processing = ground (arith, picked.1, moved (λ x. is_processing x.state));
      same_waiting = ground (arith, picked.1, moved (λ x. is_waiting x.state));
    }

-- In a table with its primary key, a claim that returns a delivery returns a pending row of the table
-- with no pending row older, and marks exactly that row as processing; a claim that returns nothing
-- leaves the table as it was, and no row of it is pending.
pub claim_next_lem :
    (now : ℕ) (rows : List Delivery)
    → HasKeys rows
    → ((claim_next_delivery now rows ≡ (rows, none)) × HasNoPending rows)
      ⊎ ((after : List Delivery) × (d : Delivery) × (claim_next_delivery now rows ≡ (after, some d))
          × IsClaim now rows after d)
unfolding claim_next_delivery
claim_next_lem now rows k = elim (Option-cases (oldest_pending rows)) [
  | inl e ↦ inl (rw (e, claim_next_delivery), none-HasNoPending rows e)
  | inr (d, e) ↦ inr (
    update_where (is_row d.service d.delivery_id) (set_state processing now) rows,
    record d { state = processing },
    rw (e, claim_next_delivery),
    IsClaim-Picked now rows d k e,
  )
]

claimed_none :
    (now : ℕ) (s i : String) (rows : List Delivery)
    → find_where
        (is_claimable s i)
        (update_where (is_claimable s i) (set_state processing now) rows)
      ≡ none
unfolding find_where update_where
claimed_none now s i [] = refl
claimed_none now s i (x ∷ xs) = ground (arith, claimed_none now s i xs)

claim_missed :
    (now : ℕ) (s i : String) (rows : List Delivery)
    → find_where (is_claimable s i) rows ≡ none
    → claim_delivery now s i rows ≡ (rows, none)
unfolding claim_delivery
claim_missed now s i rows e = rw (e, claim_delivery)

claim_hit :
    (now : ℕ) (s i : String) (rows : List Delivery) (d : Delivery)
    → find_where (is_claimable s i) rows ≡ some d
    → (claim_delivery now s i rows).0
      ≡ update_where (is_claimable s i) (set_state processing now) rows
unfolding claim_delivery
claim_hit now s i rows d e = rw (e, claim_delivery)

-- Whatever the first claim of a key returned, a second claim of the same key returns nothing and
-- changes nothing.
pub claim_once :
    (now later : ℕ) (s i : String) (rows : List Delivery)
    → claim_delivery later s i (claim_delivery now s i rows).0
      ≡ ((claim_delivery now s i rows).0, none)
claim_once now later s i rows =
    claim_missed later s i (claim_delivery now s i rows).0
      (elim (Option-cases (find_where (is_claimable s i) rows)) [
        | inl e ↦ rw (claim_missed now s i rows e) e
        | inr (d, e) ↦ rw (claim_hit now s i rows d e) (claimed_none now s i rows)
      ])
