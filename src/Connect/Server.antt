-- ===== src/Connect/Server.antt =====
-- forge/connect_server.py: the routes of a deployment. `clock n` is the n-th reading of the clock in a
-- request; ConnectGitHub answers through a record of calls.
use wakey.Prelude.{
  List, Option, String, [], eqb, find_where, if◌then◌else◌, leb, none, not, some, ℕ, ◌+◌, Bool,
}
use wakey.Connect.{
  pending, Broker, Connection, PairData, PairState, Repository, Told, binding, broken, choices,
  connected, denied, interval_of, is_connected, is_pending, is_selecting, selecting, told,
  unavailable, device_flow,
}
use wakey.Connect.Store.{admit_pairing, audit, claim_poll, create, read, revoke_id, write}

-- `reply` of `/login/oauth/access_token`, as the branches tell it apart
pub data PollReply : Type 0 where
  slow_down authorization_pending refused : PollReply
  access_token : String → PollReply

pub record Device : Type 0 where
  pub device_code : String
  pub user_code : String
  pub interval : Option ℕ
  pub expires_in : Option ℕ

pub record Minted : Type 0 where
  pub token : String
  pub expires_at : String

-- What GitHub answers to the calls of one request.
pub record Github : Type 0 where
  pub device : Told Device
  pub poll : String → Told PollReply
  pub repositories : String → Told (ℕ × List Repository)
  pub token : Repository → Told Minted

abbrev pub Call : Type 0 → Type 0
Call A = Broker → Told A × Broker

module _ {A B : Type 0} where
  abbrev pub go_on : Told A → (A → Call B) → Call B
  go_on (told a) f s = f a s
  go_on (denied reason) f s = (denied reason, s)
  go_on unavailable f s = (unavailable, s)
  go_on broken f s = (broken, s)

  infixl 10 ◌>>=◌ ◌>>◌
  abbrev pub ◌>>=◌ : Call A → (A → Call B) → Call B
  ◌>>=◌ m f s = let (r, s') = m s in go_on r f s'

  abbrev pub ◌>>◌ : Call A → Call B → Call B
  m >> n = m >>= λ _. n

module _ {A : Type 0} where
  abbrev pub answer : Told A → Call A
  answer r s = (r, s)

  -- a call of the store that reads
  abbrev pub ask : (Broker → Told A) → Call A
  ask f s = (f s, s)

-- a call of the store that writes
abbrev pub change : (Broker → Broker) → Call (Unit {0})
change f s = (told tt, f s)

pub record PairView : Type 0 where
  pub state : PairState
  pub repositories : List Repository
  pub repository : Option Repository
  pub interval : ℕ

abbrev pub repositories_of : PairData → List Repository
repositories_of (choices owner repositories) = repositories
repositories_of _ = []

abbrev pub repository_of : PairData → Option Repository
repository_of (binding owner repository) = some repository
repository_of _ = none

abbrev pub view : Connection → PairView
view row = record {
  state = row.state;
  repositories = repositories_of row.content;
  repository = repository_of row.content;
  interval = interval_of row.content;
}

abbrev pub or_default : ℕ → Option ℕ → ℕ
or_default n none = n
or_default n (some m) = m

abbrev pub smaller : ℕ → ℕ → ℕ
smaller a b = if leb a b then a else b

abbrev pub larger : ℕ → ℕ → ℕ
larger a b = if leb a b then b else a

module _ (hash_token : String → String) (github : Github) (clock : ℕ → ℕ) where
  -- the credential, for the reply
  unfoldable pub pair : String → String → Call String
  unfolding admit_pairing create
  pair identity credential = do
    admit_pairing (clock 0)
    reply ← answer github.device
    create hash_token identity credential reply.device_code (larger 5 (or_default 5 reply.interval))
        (smaller 900 (or_default 900 reply.expires_in)) (clock 1)

  -- the branches on GitHub's reply; a row that is pending has a device code
  abbrev pub on_reply : Connection → String → ℕ → PollReply → Call (Unit {0})
  on_reply row code interval slow_down =
      write row pending (device_flow code (interval + 5)) (clock 2) (clock 3)
  on_reply row code interval authorization_pending = answer (told tt)
  on_reply row code interval (access_token secret) = do
    choice ← answer (github.repositories secret)
    write row selecting (choices choice.0 choice.1) (clock 2) (clock 3)
  on_reply row code interval refused = do
    change (revoke_id row.id (clock 2))
    answer (denied "GitHub authorization expired or denied; start again")

  abbrev pub poll_device : Connection → PairData → Call (Unit {0})
  poll_device row (device_flow code interval) = do
    reply ← answer (github.poll code)
    on_reply row code interval reply
  poll_device row _ = answer broken

  -- the atomic claim of a poll
  abbrev pub claimed_poll : Connection → Call Bool
  claimed_poll row s = let (due, s') = claim_poll row (clock 1) s in (told due, s')

  abbrev pub poll_due : String → Connection → Bool → Call PairView
  poll_due credential row due = if not due then answer (told (view row)) else (do
    poll_device row row.content
    again ← ask (read hash_token credential (clock 4))
    answer (told (view again)))

  abbrev pub poll_row : String → Connection → Call PairView
  poll_row credential row =
      if not (is_pending row.state)
      then answer (told (view row))
      else (do due ← claimed_poll row; poll_due credential row due)

  unfoldable pub poll : String → Call PairView
  unfolding read claim_poll write revoke_id
  poll credential = do row ← ask (read hash_token credential (clock 0)); poll_row credential row

  abbrev pub choose : Connection → ℕ → Option Repository → Call Repository
  choose row owner none = answer (denied "repository was not authorized by this GitHub user")
  choose row owner (some repo) = do
    answer (github.token repo)
    write row connected (binding owner repo) (clock 1) (clock 2)
    answer (told repo)

  abbrev pub select_from : Connection → ℕ → PairData → Call Repository
  select_from row repository_id (choices owner repositories) =
      choose row owner (find_where (λ (r : Repository). eqb r.id repository_id) repositories)
  select_from row repository_id _ = answer broken

  abbrev pub select_row : ℕ → Connection → Call Repository
  select_row repository_id row =
      if not (is_selecting row.state)
      then answer (denied "pairing is not ready for repository selection")
      else select_from row repository_id row.content

  unfoldable pub select : String → ℕ → Call Repository
  unfolding read write
  select credential repository_id = do
    row ← ask (read hash_token credential (clock 0))
    select_row repository_id row

  abbrev pub mint : PairData → Call Minted
  mint (binding owner repository) = answer (github.token repository)
  mint _ = answer broken

  -- `meanwhile` is what other requests do to the store while GitHub is issuing.
  abbrev pub issue : (Broker → Broker) → String → Connection → Minted → Call Minted
  issue meanwhile credential row minted = do
    change meanwhile
    ask (read hash_token credential (clock 1))
    change (audit (clock 2) row.id "token.issued")
    answer (told minted)

  abbrev pub token_row : (Broker → Broker) → String → Connection → Call Minted
  token_row meanwhile credential row =
      if not (is_connected row.state)
      then answer (denied "deployment is not connected")
      else (do minted ← mint row.content; issue meanwhile credential row minted)

  unfoldable pub token : (Broker → Broker) → String → Call Minted
  unfolding read audit
  token meanwhile credential = do
    row ← ask (read hash_token credential (clock 0))
    token_row meanwhile credential row
