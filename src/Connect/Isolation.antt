-- ===== src/Connect/Isolation.antt =====
-- Whom a webhook event reaches.
use wakey.Prelude.{
  Bool, List, String, [], any_where, any_where-delete, arith, delete_where, false, not, ℕ, ◌&&◌,
  ◌++◌, ◌+◌, ◌==◌, ◌∷◌, ◌≡◌,
}
use wakey.Connect.{
  Broker, Connection, PairData, RelayRow, binding, choices, device_flow, erased, Told, broken,
  denied, told, unavailable,
}
use wakey.Connect.Store.{audit, enqueue, is_identity, is_relay, is_stale, revoke_id, connected_rows}
use wakey.Connect.Relay.{HookEvent, is_for, is_revocation, relay_bound, relay_rows, relay_event}

-- The connection is bound to the repository of the event, which does not revoke it.
abbrev is_bound_to : String → HookEvent → PairData → Bool
is_bound_to kind event (binding owner repo) =
    not (is_revocation kind event owner repo) && is_for event repo
is_bound_to kind event _ = false

abbrev pub is_receiver : String → HookEvent → String → Connection → Bool
is_receiver kind event identity row = is_identity identity row && is_bound_to kind event row.content

has_relay-append :
    (identity delivery : String) (row : RelayRow) (rows : List RelayRow)
    → any_where (is_relay identity delivery) rows ≡ false
    → is_relay identity delivery row ≡ false
    → any_where (is_relay identity delivery) (rows ++ row ∷ []) ≡ false
unfolding any_where
has_relay-append identity delivery row [] e e' = ground arith
has_relay-append identity delivery row (r ∷ rows) e e' =
    ground (arith, has_relay-append identity delivery row rows)

enqueue-other :
    (identity delivery : String) (i d envelope : String) (now later : ℕ) (s : Broker)
    → (i == identity && d == delivery) ≡ false
    → any_where (is_relay identity delivery) s.relay ≡ false
    → any_where (is_relay identity delivery) (enqueue i d envelope now later s).1.relay ≡ false
unfolding enqueue
enqueue-other identity delivery i d envelope now later s e absent =
    let kept = any_where-delete (is_relay identity delivery) (is_stale now) s.relay absent in
    let row : RelayRow = record {
      connection = i;
      delivery = d;
      payload = envelope;
      created = later;
      acknowledged = false;
    } in
    let grown =
      has_relay-append identity delivery row (delete_where (is_stale now) s.relay) kept e in
    ground arith

module _ (kind : String) (event : HookEvent) (envelope d : String) (clock : ℕ → ℕ)
    (identity delivery : String) where
  bound-absent :
      (n : ℕ) (row : Connection) (content : PairData) (s : Broker)
      → (is_identity identity row && is_bound_to kind event content && d == delivery) ≡ false
      → any_where (is_relay identity delivery) s.relay ≡ false
      → any_where
          (is_relay identity delivery)
          (relay_bound kind event envelope d clock n row content s).1.relay
        ≡ false
  unfolding revoke_id audit
  bound-absent n row (binding owner repo) s e absent =
      let other = enqueue-other identity delivery row.id d envelope (clock n) (clock (n + 1)) s in
      let gone =
        any_where-delete (is_relay identity delivery) (λ (r : RelayRow). r.connection == row.id)
          s.relay absent in
      ground (arith, other, gone, absent)
  bound-absent n row (device_flow code interval) s e absent = absent
  bound-absent n row (choices owner repos) s e absent = absent
  bound-absent n row erased s e absent = absent

  rows-absent :
      (n : ℕ) (rows : List Connection) (s : Broker)
      → (any_where (is_receiver kind event identity) rows && d == delivery) ≡ false
      → any_where (is_relay identity delivery) s.relay ≡ false
      → any_where
          (is_relay identity delivery)
          (relay_rows kind event envelope d clock n rows s).1.relay
        ≡ false
  unfolding relay_rows any_where
  rows-absent n [] s e absent = absent
  rows-absent n (row ∷ rows) s e absent =
      let e' = not_first e in
      let after = bound-absent n row row.content s e'.0 absent in
      gone_on (relay_bound kind event envelope d clock n row row.content s).0
        (relay_bound kind event envelope d clock n row row.content s).1 after
        (rows-absent (n + 2) rows (relay_bound kind event envelope d clock n row row.content s).1
          e'.1 after)
    where
      not_first :
          (any_where (is_receiver kind event identity) (row ∷ rows) && d == delivery) ≡ false
          → ((is_identity identity row && is_bound_to kind event row.content && d == delivery)
              ≡ false)
            × ((any_where (is_receiver kind event identity) rows && d == delivery) ≡ false)
      not_first h = ground arith

      gone_on :
          (r : Told (Unit {0})) (s' : Broker)
          → any_where (is_relay identity delivery) s'.relay ≡ false
          → any_where
              (is_relay identity delivery)
              (relay_rows kind event envelope d clock (n + 2) rows s').1.relay
            ≡ false
          → any_where
              (is_relay identity delivery)
              (elim r as (λ x. Told (Unit {0}) × Broker) [
                | told x ↦ relay_rows kind event envelope d clock (n + 2) rows s'
                | denied reason ↦ (denied reason, s')
                | unavailable ↦ (unavailable, s')
                | broken ↦ (broken, s')
              ]).1.relay
            ≡ false
      gone_on (told x) s' here on = on
      gone_on (denied reason) s' here on = here
      gone_on unavailable s' here on = here
      gone_on broken s' here on = here

-- A webhook event reaches only connections that are bound to its repository and that it does not
-- revoke: of every other connection, and for every other delivery, the relay holds nothing that
-- it did not hold before, also when the relaying is cut short by an exception.
pub relay_isolated :
    (kind : String) (event : HookEvent) (envelope d : String) (clock : ℕ → ℕ)
    (identity delivery : String) (s : Broker)
    → (any_where (is_receiver kind event identity) (connected_rows s) && d == delivery) ≡ false
    → any_where (is_relay identity delivery) s.relay ≡ false
    → any_where (is_relay identity delivery) (relay_event kind event envelope d clock s).1.relay
      ≡ false
unfolding relay_event
relay_isolated kind event envelope d clock identity delivery s e absent =
    rows-absent kind event envelope d clock identity delivery 0 (connected_rows s) s e absent
