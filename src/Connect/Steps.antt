-- ===== src/Connect/Steps.antt =====
-- The calls of the broker's store as steps, in whatever order concurrent requests make them. `h` is
-- the hash of one credential, which no new pairing draws again.
use wakey.Prelude.{List, String, false, ℕ, ◌==◌, ◌≡◌}
use wakey.Connect.{
  pending, Broker, Connection, PairData, PairState, Repository, binding, choices, connected,
  device_flow, selecting,
}
use wakey.Connect.Store.{
  acknowledge_row, admit_pairing, audit, claim_poll, create, enqueue, revoke_id, write,
}

-- The writes of the routes: the state read, the state written, and what is written with it.
pub data Write : PairState → PairState → PairData → Type 0 where
  slower : (code : String) (interval : ℕ) → Write pending pending (device_flow code interval)
  listed : (owner : ℕ) (repos : List Repository) → Write pending selecting (choices owner repos)
  bound : (owner : ℕ) (repo : Repository) → Write selecting connected (binding owner repo)

module _ (hash_token : String → String) (h : String) where
  pub data Step (s : Broker) (t : Broker) : Type 0 where
    admit : (now : ℕ) → t ≡ (admit_pairing now s).1 → Step s t
    pair_with :
        (identity credential code : String) (interval ttl now : ℕ)
        → (hash_token credential == h) ≡ false
        → t ≡ (create hash_token identity credential code interval ttl now s).1
        → Step s t
    write_as :
        (row : Connection) (state : PairState) (content : PairData) (now later : ℕ)
        → Write row.state state content
        → t ≡ (write row state content now later s).1
        → Step s t
    claim : (row : Connection) (now : ℕ) → t ≡ (claim_poll row now s).1 → Step s t
    revoke_by : (identity : String) (now : ℕ) → t ≡ revoke_id identity now s → Step s t
    relay_to :
        (identity delivery envelope : String) (now later : ℕ)
        → t ≡ (enqueue identity delivery envelope now later s).1
        → Step s t
    acknowledge_to :
        (identity delivery : String) → t ≡ acknowledge_row identity delivery s → Step s t
    note : (now : ℕ) (identity action : String) → t ≡ audit now identity action s → Step s t

  pub data Reach (s : Broker) : Broker → Type 0 where
    here : Reach s s
    next : {t u : Broker} → Reach s t → Step t u → Reach s u

  pub trans : {s t u : Broker} → Reach s t → Reach t u → Reach s u
  trans r here = r
  trans r (next r' step) = next (trans r r') step
