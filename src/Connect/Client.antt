-- ===== src/Connect/Client.antt =====
-- forge/connect_client.py: the deployment's side. Its state is kept as a secret; the broker answers
-- the requests of a call, the n-th by `answers n`.
use wakey.Prelude.{
  Bool, List, Option, String, [], any_where, eqb, false, find_where, if◌then◌else◌, none, not, some,
  ℕ, ◌+◌, ◌<>◌, ◌==◌, ◌∷◌,
}
use wakey.Connect.{Repository}
use wakey.Models.{Delivery, Service}
use wakey.Models
use wakey.Storage.Deliveries.{save_delivery}

-- What the deployment remembers of its pairing, `{}` at first.
pub record Binding : Type 0 where
  pub credential : Option String
  pub state : Option String
  pub repositories : List Repository
  pub repository : Option Repository

-- A local failure is a `ForgeError`, with its text.
pub data Outcome (A : Type 0) : Type 0 where
  done : A → Outcome A
  forge_error : String → Outcome A

-- What a request gives: a dictionary, or an `httpx.HTTPError`.
abbrev pub replied : {A : Type 0} → Option A → Outcome A
replied none = forge_error "Connect unavailable or permission revoked; check the connection"
replied (some a) = done a

-- An authenticated request wants a credential.
abbrev pub request : {A : Type 0} → Binding → Option A → Outcome A
request local answer = elim local.credential [
  | none ↦ forge_error "Connect is not paired; open Setup → Connect GitHub"
  | some credential ↦
      if credential == ""
      then forge_error "Connect is not paired; open Setup → Connect GitHub"
      else replied answer
]

abbrev pub is_state : String → Option String → Bool
is_state name none = false
is_state name (some state) = state == name

pub record Pairing : Type 0 where
  pub credential : String
  pub user_code : String

-- The reply of `/v1/pair` has no state and no repositories, and replaces what was kept.
unfoldable pub begin : Option Pairing → Binding → Outcome Pairing × Binding
begin answer local =
    if is_state "connected" local.state
    then (forge_error "disconnect before pairing again", local)
    else elim answer [
      | none ↦ (replied none, local)
      | some data_of ↦ (
        done data_of,
        record {
          credential = some data_of.credential;
          state = some "pending";
          repositories = [];
          repository = none;
        },
      )
    ]

-- `any(s.repo != choice["name"] for s in …)`
abbrev pub is_foreign : Repository → Service → Bool
is_foreign choice service = not (service.repo == choice.name)

unfoldable pub select_repository :
    ℕ → List Service → Option (String × Repository) → Binding → Outcome Repository × Binding
select_repository repository_id services answer local =
    elim (find_where (λ (r : Repository). eqb r.id repository_id) local.repositories) [
      | none ↦ (forge_error "select an authorized repository", local)
      | some choice ↦
          if any_where (is_foreign choice) services
          then (
            forge_error "existing services belong to a different repo; use a separate deployment",
            local,
          )
          else elim (request local answer) [
            | done (state, repo) ↦
                (done repo, record local { state = some state; repository = some repo })
            | forge_error reason ↦ (forge_error reason, local)
          ]
    ]

pub record RelayedEvent : Type 0 where
  pub id : String
  pub payload : String

-- Deliveries kept here, and the ids that the broker was told of.
pub record Inbox : Type 0 where
  pub deliveries : List Delivery
  pub acknowledged : List String

abbrev pub delivery_of : RelayedEvent → Delivery
delivery_of event = record {
  service = "__webhook__";
  delivery_id = "connect:" <> event.id;
  state = Models.pending;
  payload = event.payload;
  attempts = 0;
  created_at = 0;
  updated_at = 0;
}

-- How far an acknowledgement got: it was answered, it reached the broker and the answer did not come
-- back, it did not reach the broker, or the process ended between the saving and the acknowledgement.
pub data AckFate : Type 0 where
  answered unheard unreached crashed : AckFate

-- the loop: each event is saved, and then acknowledged; `fate n` is the fate of the n-th acknowledgement.
-- A process that ended has no outcome.
unfoldable pub receive_events :
    (ℕ → AckFate) → (ℕ → ℕ) → ℕ → List RelayedEvent → Inbox → Option (Outcome (Unit {0})) × Inbox
receive_events fate clock n [] inbox = (some (done tt), inbox)
receive_events fate clock n (event ∷ events) inbox =
    let deliveries = (save_delivery (clock n) (delivery_of event) inbox.deliveries).0 in
    let kept : Inbox = record { deliveries = deliveries; acknowledged = inbox.acknowledged } in
    let acked : Inbox = record kept { acknowledged = event.id ∷ inbox.acknowledged } in
    let rest = receive_events fate clock (n + 1) events acked in
    elim (fate n) [
      | answered ↦ rest
      | unheard ↦ (some (replied none), acked)
      | unreached ↦ (some (replied none), kept)
      | crashed ↦ (none, kept)
    ]

unfoldable pub receive :
    (ℕ → AckFate)
    → (ℕ → ℕ)
    → Option (List RelayedEvent)
    → Binding
    → Inbox
    → Option (Outcome (Unit {0})) × Inbox
unfolding receive_events
receive fate clock answer local inbox =
    if not (is_state "connected" local.state)
    then (some (done tt), inbox)
    else elim (request local answer) [
      | done events ↦ receive_events fate clock 0 events inbox
      | forge_error reason ↦ (some (forge_error reason), inbox)
    ]
