-- ===== src/Connect/Receiving.antt =====
-- What the broker is told, and what the deployment keeps.
use wakey.Prelude.{
  All, Bool, List, String, [], any_where, arith, false, if◌then◌else◌, none, true, ℕ, ◌++◌, ◌+◌,
  ◌<>◌, ◌∷◌, ◌≡◌, Option, eq_refl, not, some,
}
use wakey.Models
use wakey.Models.{Delivery}
use wakey.Storage.Deliveries.{save_delivery, is_row}
use wakey.Connect.Client.{
  Inbox, RelayedEvent, delivery_of, receive_events, replied, Binding, Outcome, done, forge_error,
  is_state, receive, request, AckFate, answered, crashed, unheard, unreached,
}

-- a delivery for the id is in the table
abbrev IsKept : List Delivery → String → Type 0
IsKept rows id = any_where (is_row "__webhook__" ("connect:" <> id)) rows ≡ true

-- Everything that the broker was told of is a delivery of the deployment.
abbrev pub IsPersisted : Inbox → Type 0
IsPersisted inbox = All (IsKept inbox.deliveries) inbox.acknowledged

any-append :
    (p : Delivery → Bool) (rows : List Delivery) (d : Delivery)
    → any_where p rows ≡ true
    → any_where p (rows ++ d ∷ []) ≡ true
unfolding any_where
any-append p [] d e = ground arith
any-append p (r ∷ rows) d e = ground (arith, any-append p rows d)

any-last :
    (p : Delivery → Bool) (rows : List Delivery) (d : Delivery)
    → p d ≡ true
    → any_where p (rows ++ d ∷ []) ≡ true
unfolding any_where
any-last p [] d e = ground arith
any-last p (r ∷ rows) d e = ground (arith, any-last p rows d e)

save-keeps :
    (now : ℕ) (d : Delivery) (rows : List Delivery) (id : String)
    → IsKept rows id
    → IsKept (save_delivery now d rows).0 id
unfolding save_delivery
save-keeps now d rows id e =
    let grown =
      any-append (is_row "__webhook__" ("connect:" <> id)) rows
        (record d { state = Models.pending; created_at = now; updated_at = now }) e in
    ground arith

saved-IsKept :
    (now : ℕ) (event : RelayedEvent) (rows : List Delivery)
    → IsKept (save_delivery now (delivery_of event) rows).0 event.id
unfolding save_delivery
saved-IsKept now event rows =
    let grown =
      any-last (is_row "__webhook__" ("connect:" <> event.id)) rows
        (record (delivery_of event) { state = Models.pending; created_at = now; updated_at = now })
        (eq_refl ("connect:" <> event.id)) in
    ground arith

All-IsKept :
    (now : ℕ) (d : Delivery) (rows : List Delivery) (ids : List String)
    → All (IsKept rows) ids
    → All (IsKept (save_delivery now d rows).0) ids
All-IsKept now d rows [] all = tt
All-IsKept now d rows (id ∷ ids) all =
    (save-keeps now d rows id all.0, All-IsKept now d rows ids all.1)

events-IsPersisted :
    (fate : ℕ → AckFate) (clock : ℕ → ℕ) (n : ℕ) (events : List RelayedEvent) (inbox : Inbox)
    → IsPersisted inbox
    → IsPersisted (receive_events fate clock n events inbox).1
unfolding receive_events
events-IsPersisted fate clock n [] inbox all = all
events-IsPersisted fate clock n (event ∷ events) inbox all =
    by_fate (fate n) (events-IsPersisted fate clock (n + 1) events acked (last, kept_all))
  where
    kept : Inbox
    kept = record inbox {
      deliveries = (save_delivery (clock n) (delivery_of event) inbox.deliveries).0;
    }

    acked : Inbox
    acked = record kept { acknowledged = event.id ∷ inbox.acknowledged }

    kept_all : IsPersisted kept
    kept_all = All-IsKept (clock n) (delivery_of event) inbox.deliveries inbox.acknowledged all

    last : IsKept kept.deliveries event.id
    last = saved-IsKept (clock n) event inbox.deliveries

    by_fate :
        (f : AckFate)
        → IsPersisted (receive_events fate clock (n + 1) events acked).1
        → IsPersisted
            (elim f as (λ x. Option (Outcome (Unit {0})) × Inbox) [
              | answered ↦ receive_events fate clock (n + 1) events acked
              | unheard ↦ (some (replied none), acked)
              | unreached ↦ (some (replied none), kept)
              | crashed ↦ (none, kept)
            ]).1
    by_fate answered on = on
    by_fate unheard on = (last, kept_all)
    by_fate unreached on = kept_all
    by_fate crashed on = kept_all

-- A deployment acknowledges a webhook to the broker only when the delivery is in its own table: if
-- this holds before it asks for events, it holds after, whether each acknowledgement was answered,
-- reached the broker unanswered, did not reach it, or was cut off by the end of the process between
-- the saving of the delivery and its acknowledgement.
pub receive-IsPersisted :
    (fate : ℕ → AckFate) (clock : ℕ → ℕ) (answer : Option (List RelayedEvent)) (local : Binding)
    (inbox : Inbox)
    → IsPersisted inbox
    → IsPersisted (receive fate clock answer local inbox).1
unfolding receive
receive-IsPersisted fate clock answer local inbox all =
    by_state (is_state "connected" local.state) (by_reply (request local answer))
  where
    gone_on : Outcome (List RelayedEvent) → Option (Outcome (Unit {0})) × Inbox
    gone_on o = elim o [
      | done events ↦ receive_events fate clock 0 events inbox
      | forge_error reason ↦ (some (forge_error reason), inbox)
    ]

    by_reply : (o : Outcome (List RelayedEvent)) → IsPersisted (gone_on o).1
    by_reply (done events) = events-IsPersisted fate clock 0 events inbox all
    by_reply (forge_error reason) = all

    by_state :
        (b : Bool)
        → IsPersisted (gone_on (request local answer)).1
        → IsPersisted (if not b then (some (done tt), inbox) else gone_on (request local answer)).1
    by_state true on = on
    by_state false on = all
