-- ===== src/Connect/Store.antt =====
-- forge/connect_store.py: the broker's store. Each operation is one transaction, which an exception
-- inside it rolls back. `hash_token` is the one-way hash of security/secretbox.py.
use wakey.Prelude.{
  Bool, List, Option, String, [], any_where, count_where, delete_where, false, find_where,
  if◌then◌else◌, leb, ltb, none, not, select_where, some, take, true, update_where, ℕ, ◌&&◌, ◌*◌,
  ◌++◌, ◌+◌, ◌==◌, ◌||◌, ◌∷◌,
}
use wakey.Models.{second}
use wakey.Connect.{
  pending, revoked, Admission, Broker, Connection, PairData, PairState, RelayRow, Told, broken,
  denied, device_flow, erased, interval_of, is_connected, is_pending, is_revoked, revoked,
  same_state, state_name, told, unavailable,
}

-- one admission, counted in the window of a minute or in the next one
abbrev pub admitted : ℕ → Option Admission → Admission
admitted now none = record { started = now; count = 1 }
admitted now (some row) =
    if ltb (row.started + 60 * second) now
    then record { started = now; count = 1 }
    else record row { count = row.count + 1 }

-- The count is committed before the cap is looked at.
unfoldable pub admit_pairing : ℕ → Broker → Told (Unit {0}) × Broker
admit_pairing now s =
    let row = admitted now s.admission in
    (
      if ltb 60 row.count
          then denied "pairing rate limit reached; retry in one minute"
          else told tt,
      record s { admission = some row },
    )

unfoldable pub audit : ℕ → String → String → Broker → Broker
audit now identity action s = record s {
  actions = s.actions ++ record { at = now; connection = identity; action = action } ∷ [];
}

abbrev pub is_expired : ℕ → Connection → Bool
is_expired now row = not (is_connected row.state) && ltb row.expires now

abbrev pub is_identity : String → Connection → Bool
is_identity identity row = row.id == identity

abbrev pub is_relay : String → String → RelayRow → Bool
is_relay identity delivery row = row.connection == identity && row.delivery == delivery

abbrev pub is_waiting : String → RelayRow → Bool
is_waiting identity row = row.connection == identity && not row.acknowledged

-- `created < time.time() - 86400`
abbrev pub is_stale : ℕ → RelayRow → Bool
is_stale now row = ltb (row.created + 86400 * second) now

module _ (hash_token : String → String) where
  abbrev pub has_credential : String → Connection → Bool
  has_credential credential row = row.credential == hash_token credential

  -- `identity` is the new `token_hex`, and `credential` the new `token_urlsafe`; a value that a row
  -- has already breaks its constraint.
  unfoldable pub create : String → String → String → ℕ → ℕ → ℕ → Broker → Told String × Broker
  create identity credential device_code interval ttl now s =
      let rows = delete_where (is_expired now) s.connections in
      if leb 1000 (count_where (λ row. not (is_connected row.state)) rows)
      then (denied "pairing capacity reached; retry later", s)
      else (if any_where (λ row. is_identity identity row || has_credential credential row) rows
          then (broken, s)
          else let row : Connection = record {
            id = identity;
            credential = hash_token credential;
            state = pending;
            expires = now + ttl * second;
            next_poll = now + interval * second;
            content = device_flow device_code interval;
          } in
            (told credential, record s { connections = rows ++ row ∷ [] }))

  abbrev pub readable : ℕ → Option Connection → Told Connection
  readable now none = denied "connection not authorized"
  readable now (some row) =
      if is_revoked row.state
      then denied "connection not authorized"
      else (if is_expired now row then denied "pairing expired; start again" else told row)

  unfoldable pub read : String → ℕ → Broker → Told Connection
  read credential now s = readable now (find_where (has_credential credential) s.connections)

-- the condition of the compare-and-set: the row is as the caller has read it
abbrev pub is_unchanged : Connection → Connection → Bool
is_unchanged connection row = is_identity connection.id row && same_state row.state connection.state

unfoldable pub write : Connection → PairState → PairData → ℕ → ℕ → Broker → Told (Unit {0}) × Broker
unfolding audit
write connection state content now later s =
    if any_where (is_unchanged connection) s.connections
    then (
      told tt,
      audit later connection.id (state_name state) (record s {
        connections =
            update_where (is_unchanged connection)
              (λ row. record row {
                state = state;
                content = content;
                next_poll = now + interval_of content * second;
              })
              s.connections;
      }),
    )
    else (denied "connection changed; retry", s)

abbrev pub is_due : Connection → ℕ → Connection → Bool
is_due connection now row =
    (is_identity connection.id row && is_pending row.state) && leb row.next_poll now

unfoldable pub claim_poll : Connection → ℕ → Broker → Bool × Broker
claim_poll connection now s = (
  any_where (is_due connection now) s.connections,
  record s {
    connections =
        update_where (is_due connection now)
          (λ row. record row { next_poll = now + interval_of connection.content * second })
          s.connections;
  },
)

unfoldable pub revoke_id : String → ℕ → Broker → Broker
unfolding audit
revoke_id identity now s = audit now identity "revoked" (record s {
  connections =
      update_where (is_identity identity) (λ row. record row { state = revoked; content = erased })
        s.connections;
  relay = delete_where (λ row. row.connection == identity) s.relay;
})

-- `SELECT * FROM connections WHERE state = 'connected'`
unfoldable pub connected_rows : Broker → List Connection
connected_rows s = select_where (λ row. is_connected row.state) s.connections

unfoldable pub enqueue : String → String → String → ℕ → ℕ → Broker → Told (Unit {0}) × Broker
enqueue identity delivery envelope now later s =
    let rows = delete_where (is_stale now) s.relay in
    if any_where (is_relay identity delivery) rows
    then (told tt, record s { relay = rows })
    else (if leb 1000 (count_where (is_waiting identity) rows)
        then (denied "relay queue full; retry delivery", s)
        else let row : RelayRow = record {
          connection = identity;
          delivery = delivery;
          payload = envelope;
          created = later;
          acknowledged = false;
        } in
          (told tt, record s { relay = rows ++ row ∷ [] }))

-- `ORDER BY created`
unfoldable pub insert_created : RelayRow → List RelayRow → List RelayRow
insert_created x [] = x ∷ []
insert_created x (y ∷ ys) =
    let rest = insert_created x ys in if leb x.created y.created then x ∷ y ∷ ys else y ∷ rest

unfoldable pub by_created : List RelayRow → List RelayRow
unfolding insert_created
by_created [] = []
by_created (x ∷ xs) = insert_created x (by_created xs)

abbrev pub is_offered : String → ℕ → RelayRow → Bool
is_offered identity now row = is_waiting identity row && not (is_stale now row)

unfoldable pub acknowledge_row : String → String → Broker → Broker
acknowledge_row identity delivery s = record s {
  relay =
      update_where (is_relay identity delivery) (λ row. record row { acknowledged = true }) s.relay;
}

module _ (hash_token : String → String) where
  abbrev pub on_row : {A : Type 0} → (Connection → Told A) → Told Connection → Told A
  on_row next (told row) = next row
  on_row next (denied reason) = denied reason
  on_row next unavailable = unavailable
  on_row next broken = broken

  unfoldable pub revoke : String → ℕ → ℕ → Broker → Told (Unit {0}) × Broker
  unfolding read revoke_id
  revoke credential now later s = elim (read hash_token credential now s) [
    | told row ↦ (told tt, revoke_id row.id later s)
    | denied reason ↦ (denied reason, s)
    | unavailable ↦ (unavailable, s)
    | broken ↦ (broken, s)
  ]

  abbrev pub offer : ℕ → Broker → Connection → Told (List RelayRow)
  offer later s row =
      if is_connected row.state
      then told (take 25 (by_created (select_where (is_offered row.id later) s.relay)))
      else denied "select a repository first"

  -- The rows stand for their payloads under the ids of the deliveries.
  unfoldable pub events : String → ℕ → ℕ → Broker → Told (List RelayRow)
  unfolding read by_created
  events credential now later s = on_row (offer later s) (read hash_token credential now s)

  unfoldable pub acknowledge : String → String → ℕ → Broker → Told (Unit {0}) × Broker
  unfolding read acknowledge_row
  acknowledge credential delivery now s = elim (read hash_token credential now s) [
    | told row ↦ (told tt, acknowledge_row row.id delivery s)
    | denied reason ↦ (denied reason, s)
    | unavailable ↦ (unavailable, s)
    | broken ↦ (broken, s)
  ]
