-- ===== src/Connect/Bounds.antt =====
-- The invariants of the broker's tables under every interleaving of calls.
use wakey.Prelude.{
  String, [], arith, count_where, count_where-append, delete_where, eq_iff, false, refl, ℕ, ◌*◌,
  ◌+◌, ◌∷◌, ◌≤◌, true, ◌==◌, ◌≡◌,
}
use wakey.Models.{second}
use wakey.Connect.{
  pending, Broker, Connection, RelayRow, device_flow, interval_of, PairData, PairState, erased,
  revoked,
}
use wakey.Connect.Store.{
  acknowledge_row, admit_pairing, audit, claim_poll, create, enqueue, has_credential, is_due,
  is_expired, is_identity, is_stale, is_waiting, revoke_id, write, is_relay, is_unchanged,
}
use wakey.Connect.Steps.{
  Step, acknowledge_to, admit, claim, note, pair_with, relay_to, revoke_by, write_as, Reach, here,
  next,
}
use wakey.Connect.Keys.{
  Distinct-append, Distinct-delete, Distinct-update, IsKeyed, Keyed-append, Keyed-delete,
  any-either, count-delete, Keyed-acknowledge, count-update,
}
use wakey.Connect.Revoked.{IsDistinct}

-- At most 1000 deliveries wait for a connection, and the keys of both tables are keys.
pub record IsSound (s : Broker) : Type 0 where
  pub credentials : IsDistinct s.connections
  pub keys : IsKeyed s.relay
  pub waiting : (identity : String) → count_where (is_waiting identity) s.relay ≤ 1000

create-IsDistinct :
    (hash_token : String → String) (identity credential code : String) (interval ttl now : ℕ)
    (s : Broker)
    → IsDistinct s.connections
    → IsDistinct (create hash_token identity credential code interval ttl now s).1.connections
unfolding create
create-IsDistinct hash_token identity credential code interval ttl now s d =
    let rest = Distinct-delete (is_expired now) s.connections d in
    let row : Connection = record {
      id = identity;
      credential = hash_token credential;
      state = pending;
      expires = now + ttl * second;
      next_poll = now + interval * second;
      content = device_flow code interval;
    } in
    let split =
      any-either (is_identity identity) (has_credential hash_token credential)
        (delete_where (is_expired now) s.connections) in
    let grown = Distinct-append row (delete_where (is_expired now) s.connections) in
    ground (arith, split, grown, rest)

create-relay :
    (hash_token : String → String) (identity credential code : String) (interval ttl now : ℕ)
    (s : Broker)
    → (create hash_token identity credential code interval ttl now s).1.relay ≡ s.relay
unfolding create
create-relay hash_token identity credential code interval ttl now s = ground arith

write-IsDistinct :
    (row : Connection) (state : PairState) (content : PairData) (now later : ℕ) (s : Broker)
    → IsDistinct s.connections
    → IsDistinct (write row state content now later s).1.connections
unfolding write audit
write-IsDistinct row state content now later s d =
    let changed =
      Distinct-update (is_unchanged row)
        (λ r. record r {
          state = state;
          content = content;
          next_poll = now + interval_of content * second;
        })
        s.connections (λ r. refl) d in
    ground (arith, changed)

write-relay :
    (row : Connection) (state : PairState) (content : PairData) (now later : ℕ) (s : Broker)
    → (write row state content now later s).1.relay ≡ s.relay
unfolding write audit
write-relay row state content now later s = ground arith

enqueue-connections :
    (identity delivery envelope : String) (now later : ℕ) (s : Broker)
    → (enqueue identity delivery envelope now later s).1.connections ≡ s.connections
unfolding enqueue
enqueue-connections identity delivery envelope now later s = ground arith

-- an unchanged relay and distinct credentials
same_relay : (s t : Broker) → IsSound s → t.relay ≡ s.relay → IsDistinct t.connections → IsSound t
same_relay s t sound e d = record {
  credentials = d;
  keys = coe 1 0 (i. IsKeyed (e i)) sound.keys;
  waiting = λ other. coe 1 0 (i. count_where (is_waiting other) (e i) ≤ 1000) (sound.waiting other);
}

enqueue-Sound :
    (identity delivery envelope : String) (now later : ℕ) (s : Broker)
    → IsSound s
    → IsKeyed (enqueue identity delivery envelope now later s).1.relay
      × ((other : String)
          → count_where (is_waiting other) (enqueue identity delivery envelope now later s).1.relay
            ≤ 1000)
unfolding enqueue
enqueue-Sound identity delivery envelope now later s sound =
    let rows = delete_where (is_stale now) s.relay in
    let row : RelayRow = record {
      connection = identity;
      delivery = delivery;
      payload = envelope;
      created = later;
      acknowledged = false;
    } in
    let kept = Keyed-delete (is_stale now) s.relay sound.keys in
    let grown = Keyed-append row rows in
    (
      ground (arith, kept, grown),
      λ other.
          let fewer = count-delete (is_waiting other) (is_stale now) s.relay in
          let before = sound.waiting other in
          let more = count_where-append (is_waiting other) rows (row ∷ []) in
          unfold count_where in ground (arith, fewer, before, more, eq_iff identity other),
    )

Step-IsSound :
    {hash_token : String → String} {h : String} {s t : Broker}
    → Step hash_token h s t
    → IsSound s
    → IsSound t
unfolding admit_pairing write audit claim_poll revoke_id acknowledge_row
Step-IsSound (admit now e) sound =
    rw e (record { credentials = sound.credentials; keys = sound.keys; waiting = sound.waiting })
Step-IsSound (note now identity action e) sound =
    rw e (record { credentials = sound.credentials; keys = sound.keys; waiting = sound.waiting })
Step-IsSound {hash_token} {s = s} (pair_with identity credential code interval ttl now fresh e)
      sound =
    rw e (
      same_relay s (create hash_token identity credential code interval ttl now s).1 sound
        (create-relay hash_token identity credential code interval ttl now s)
        (create-IsDistinct hash_token identity credential code interval ttl now s
          sound.credentials))
Step-IsSound {s = s} (write_as row state content now later w e) sound = rw e (
    same_relay s (write row state content now later s).1 sound
      (write-relay row state content now later s)
      (write-IsDistinct row state content now later s sound.credentials))
Step-IsSound {s = s} (claim row now e) sound = rw e (
    same_relay s (claim_poll row now s).1 sound refl (
      Distinct-update (is_due row now)
        (λ r. record r { next_poll = now + interval_of row.content * second }) s.connections
        (λ r. refl) sound.credentials))
Step-IsSound {s = s} (revoke_by identity now e) sound = rw e (record {
  credentials =
      Distinct-update (is_identity identity) (λ r. record r { state = revoked; content = erased })
        s.connections (λ r. refl) sound.credentials;
  keys = Keyed-delete (λ row. row.connection == identity) s.relay sound.keys;
  waiting = λ other.
      let fewer = count-delete (is_waiting other) (λ row. row.connection == identity) s.relay in
      let before = sound.waiting other in omega (arith, fewer, before);
})
Step-IsSound {s = s} (relay_to identity delivery envelope now later e) sound =
    let after = enqueue-Sound identity delivery envelope now later s sound in
    rw e (record {
      credentials =
          coe 1 0 (i. IsDistinct (enqueue-connections identity delivery envelope now later s i))
            sound.credentials;
      keys = after.0;
      waiting = after.1;
    })
Step-IsSound {s = s} (acknowledge_to identity delivery e) sound = rw e (record {
  credentials = sound.credentials;
  keys = Keyed-acknowledge identity delivery s.relay sound.keys;
  waiting = λ other.
      let fewer =
        count-update (is_waiting other) (is_relay identity delivery)
          (λ row. record row { acknowledged = true }) s.relay (λ r. λ e. ground arith) in
      let before = sound.waiting other in omega (arith, fewer, before);
})

-- Whatever calls of the store follow each other, in whatever order: the credentials stay distinct, the
-- relay holds a delivery once for each connection, and at most 1000 wait for any connection, if
-- it was so at first.
pub Reach-IsSound :
    {hash_token : String → String} {h : String} {s t : Broker}
    → Reach hash_token h s t
    → IsSound s
    → IsSound t
Reach-IsSound here sound = sound
Reach-IsSound (next r step) sound = Step-IsSound step (Reach-IsSound r sound)
