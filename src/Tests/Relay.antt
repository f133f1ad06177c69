-- ===== src/Tests/Relay.antt =====
-- Wakey Connect at small stores: one deployment paired with one repository.
use wakey.Prelude.{
  All, String, [], any_where, arith, count_where, eqb, false, find_where, length, none, refl,
  select_where, some, take, true, ℕ, ◌+◌, ◌<>◌, ◌∷◌, ◌≡◌, ◌≤◌, if◌then◌else◌,
}
use wakey.Connect.{
  Broker, Connection, RelayRow, Repository, binding, connected, denied, told, unavailable,
}
use wakey.Connect.Store.{
  acknowledge, revoke, audit, by_created, connected_rows, events, insert_created, is_offered,
  is_relay, read, revoke, revoke_id,
}
use wakey.Connect.Server.{Github, pair, poll, select, token}
use wakey.Connect.Steps.{Reach, here, next, revoke_by}
use wakey.Connect.Relay.{HookEvent, is_revocation, relay_event}
use wakey.Connect.Revoked.{revoked_for_good}
use wakey.Connect.Bounds.{IsSound, Reach-IsSound}
use wakey.Connect.Isolation.{relay_isolated}
use wakey.Connect.Offers.{IsOldestFirst, events_lem}
use wakey.Connect.Routes.{routes-Reach}
use wakey.Connect.Tokens.{IsBoundToken, StillOpen, token_fails_closed}
use wakey.Connect.Client.{answered, crashed, Binding, receive}
use wakey.Connect.Receiving.{IsPersisted, receive-IsPersisted}

abbrev plain_hash : String → String
plain_hash token = "#" <> token

abbrev repo : Repository
repo = record { id = 7; name = "acme/shop"; installation = 3 }

abbrev linked : Connection
linked = record {
  id = "c1";
  credential = "#key";
  state = connected;
  expires = 5;
  next_poll = 5;
  content = binding 1 repo;
}

abbrev offered : RelayRow
offered = record {
  connection = "c1";
  delivery = "w1";
  payload = "{}";
  created = 40;
  acknowledged = false;
}

abbrev broker : Broker
broker = record { connections = linked ∷ []; relay = offered ∷ []; admission = none; actions = [] }

abbrev issuing : Github
issuing = record {
  device = unavailable;
  poll = λ code. unavailable;
  repositories = λ token. unavailable;
  token = λ r. told (record { token = "t"; expires_at = "noon" });
}

abbrev ticks : ℕ → ℕ
ticks n = 50 + n

revoked_for_good_example :
    read plain_hash "key" 90 (revoke_id "c9" 60 (revoke plain_hash "key" 50 51 broker).1)
    ≡ denied "connection not authorized"
revoked_for_good_example =
    revoked_for_good plain_hash "key" 50 51 90 broker
      (revoke_id "c9" 60 (revoke plain_hash "key" 50 51 broker).1) (unfold any_where in (refl, tt))
      (unfold revoke read find_where in refl) (next here (revoke_by "c9" 60 refl))

broker-IsSound : IsSound broker
unfolding any_where count_where
broker-IsSound = record {
  credentials = (refl, tt);
  keys = (refl, tt);
  waiting = λ identity. ground arith;
}

Reach-IsSound_example : IsSound (revoke_id "c9" 60 broker)
Reach-IsSound_example =
    Reach-IsSound {hash_token = plain_hash} {h = "#key"} {s = broker}
      (next here (revoke_by "c9" 60 refl)) broker-IsSound

abbrev pushed : HookEvent
pushed = record {
  action = none;
  sender = none;
  installation = some 3;
  repository = some 8;
  repositories_removed = [];
}

relay_isolated_example :
    any_where (is_relay "c1" "w2") (relay_event "push" pushed "{}" "w2" ticks broker).1.relay
    ≡ false
relay_isolated_example =
    relay_isolated "push" pushed "{}" "w2" ticks "c1" "w2" broker
      (unfold any_where connected_rows select_where is_revocation in refl)
      (unfold any_where in refl)

events_example :
    All (λ r. is_offered "c1" 51 r ≡ true) (offered ∷ [])
    × IsOldestFirst (offered ∷ [])
    × (length (offered ∷ []) ≤ 25)
events_example =
    events_lem plain_hash "key" 50 51 broker linked (offered ∷ []) (unfold read find_where in refl)
      (unfold events read find_where select_where by_created insert_created take in refl)

routes_example :
    Reach plain_hash "#old" broker (pair plain_hash issuing ticks "c2" "k2" broker).1
    × Reach plain_hash "#old" broker (poll plain_hash issuing ticks "old" broker).1
    × Reach plain_hash "#old" broker (select plain_hash issuing ticks "old" 7 broker).1
    × Reach plain_hash "#old" broker (token plain_hash issuing ticks (λ s. s) "old" broker).1
    × Reach plain_hash "#old" broker (acknowledge plain_hash "old" "w2" (ticks 0) broker).1
    × Reach plain_hash "#old" broker (revoke plain_hash "old" (ticks 0) (ticks 1) broker).1
    × Reach plain_hash "#old" broker (relay_event "push" pushed "{}" "w2" ticks broker).1
routes_example =
    routes-Reach plain_hash "#old" issuing ticks "c2" "k2" "old" "push" "{}" "w2" pushed 7 (λ s. s)
      broker refl (λ t. here)

token_example :
    ((row : Connection) × (read plain_hash "key" 50 broker ≡ told row)
      × IsBoundToken plain_hash issuing ticks row (record { token = "t"; expires_at = "noon" }))
    × StillOpen plain_hash issuing ticks (λ s. s) "key" broker
token_example =
    token_fails_closed plain_hash issuing ticks (λ s. s) "key"
      (record { token = "t"; expires_at = "noon" }) broker
      (unfold token read find_where audit in refl)

abbrev local_state : Binding
local_state = record {
  credential = some "key";
  state = some "connected";
  repositories = [];
  repository = some repo;
}

receive_example :
    IsPersisted
      (receive
        (λ n. if eqb n 0 then answered else crashed)
        ticks
        (some (record { id = "w1"; payload = "{}" } ∷ record { id = "w2"; payload = "{}" } ∷ []))
        local_state
        (record { deliveries = []; acknowledged = [] })).1
receive_example =
    receive-IsPersisted (λ n. if eqb n 0 then answered else crashed) ticks
      (some (record { id = "w1"; payload = "{}" } ∷ record { id = "w2"; payload = "{}" } ∷ []))
      local_state (record { deliveries = []; acknowledged = [] }) tt
