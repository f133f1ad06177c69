-- ===== src/Connect.antt =====
-- Wakey Connect: the broker's store (forge/connect_store.py), its routes (forge/connect_server.py) and
-- the client of a deployment (forge/connect_client.py). A row is kept here as what it encrypts.
pub mod Store
pub mod Server
pub mod Relay
pub mod Steps
pub mod Revoked
pub mod Keys
pub mod Bounds
pub mod Isolation
pub mod Offers
pub mod Routes
pub mod Client
pub mod Receiving
pub mod Tokens
use wakey.Prelude.{Bool, List, Option, String, false, true, ℕ}

-- `{"id": …, "name": …, "installation": …}`
pub record Repository : Type 0 where
  pub id : ℕ
  pub name : String
  pub installation : ℕ

-- The column `state`.
pub data PairState : Type 0 where
  pending selecting connected revoked : PairState

-- The column `data`, one constructor for each shape of dictionary that the routes write.
pub data PairData : Type 0 where
  device_flow : String → ℕ → PairData
  choices : ℕ → List Repository → PairData
  binding : ℕ → Repository → PairData
  erased : PairData

-- `data.get("interval", 5)`
abbrev pub interval_of : PairData → ℕ
interval_of (device_flow code interval) = interval
interval_of _ = 5

pub record Connection : Type 0 where
  pub id : String
  pub credential : String
  pub state : PairState
  pub expires : ℕ
  pub next_poll : ℕ
  pub content : PairData

pub record RelayRow : Type 0 where
  pub connection : String
  pub delivery : String
  pub payload : String
  pub created : ℕ
  pub acknowledged : Bool

pub record Admission : Type 0 where
  pub started : ℕ
  pub count : ℕ

pub record ActionRow : Type 0 where
  pub at : ℕ
  pub connection : String
  pub action : String

-- The four tables.
pub record Broker : Type 0 where
  pub connections : List Connection
  pub relay : List RelayRow
  pub admission : Option Admission
  pub actions : List ActionRow

-- What a call gives: a value, `ConnectDenied`, an `httpx.HTTPError`, or another exception.
pub data Told {ℓ} (A : Type ℓ) : Type ℓ where
  told : A → Told A
  denied : String → Told A
  unavailable broken : Told A

abbrev pub is_pending : PairState → Bool
is_pending pending = true
is_pending _ = false

abbrev pub is_selecting : PairState → Bool
is_selecting selecting = true
is_selecting _ = false

abbrev pub is_connected : PairState → Bool
is_connected connected = true
is_connected _ = false

abbrev pub is_revoked : PairState → Bool
is_revoked revoked = true
is_revoked _ = false

-- the test `state = ?` of the compare-and-set
abbrev pub same_state : PairState → PairState → Bool
same_state pending pending = true
same_state selecting selecting = true
same_state connected connected = true
same_state revoked revoked = true
same_state _ _ = false

abbrev pub state_name : PairState → String
state_name pending = "pending"
state_name selecting = "selecting"
state_name connected = "connected"
state_name revoked = "revoked"
