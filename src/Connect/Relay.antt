-- ===== src/Connect/Relay.antt =====
-- forge/connect_server.py: `_relay`, which hands a webhook event to the connections that it is for.
use wakey.Prelude.{
  Bool, List, Option, String, [], any_where, eqb, false, if◌then◌else◌, none, some, ℕ, ◌&&◌, ◌+◌,
  ◌==◌, ◌||◌, ◌∷◌,
}
use wakey.Connect.{
  Broker, Connection, PairData, Repository, Told, binding, broken, denied, told, unavailable,
}
use wakey.Connect.Store.{connected_rows, enqueue, revoke_id}

-- The fields of a webhook that the relay looks at.
pub record HookEvent : Type 0 where
  pub action : Option String
  pub sender : Option ℕ
  pub installation : Option ℕ
  pub repository : Option ℕ
  pub repositories_removed : List ℕ

abbrev pub is_number : ℕ → Option ℕ → Bool
is_number n none = false
is_number n (some m) = eqb m n

abbrev pub is_text : String → Option String → Bool
is_text t none = false
is_text t (some u) = u == t

-- the value of `revoke` for one connection
unfoldable pub is_revocation : String → HookEvent → ℕ → Repository → Bool
is_revocation kind event owner repo =
    ((kind == "github_app_authorization" && is_text "revoked" event.action)
      && is_number owner event.sender)
    || (is_number repo.installation event.installation
        && ((kind == "installation"
              && (is_text "deleted" event.action || is_text "suspend" event.action))
            || any_where (λ n. eqb n repo.id) event.repositories_removed))

abbrev pub is_for : HookEvent → Repository → Bool
is_for event repo =
    is_number repo.installation event.installation && is_number repo.id event.repository

module _ (kind : String) (event : HookEvent) (envelope : String) (delivery : String)
    (clock : ℕ → ℕ) where
  -- the body of the loop
  abbrev pub relay_bound : ℕ → Connection → PairData → Broker → Told (Unit {0}) × Broker
  relay_bound n row (binding owner repo) s =
      if is_revocation kind event owner repo
      then (told tt, revoke_id row.id (clock n) s)
      else (if is_for event repo
          then enqueue row.id delivery envelope (clock n) (clock (n + 1)) s
          else (told tt, s))
  relay_bound n row _ s = (broken, s)

  unfoldable pub relay_rows : ℕ → List Connection → Broker → Told (Unit {0}) × Broker
  unfolding is_revocation revoke_id enqueue
  relay_rows n [] s = (told tt, s)
  relay_rows n (row ∷ rows) s =
      let (r, s') = relay_bound n row row.content s in
      elim r [
        | told x ↦ relay_rows (n + 2) rows s'
        | denied reason ↦ (denied reason, s')
        | unavailable ↦ (unavailable, s')
        | broken ↦ (broken, s')
      ]

  unfoldable pub relay_event : Broker → Told (Unit {0}) × Broker
  unfolding connected_rows relay_rows
  relay_event s = relay_rows 0 (connected_rows s) s
