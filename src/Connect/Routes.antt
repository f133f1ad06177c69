-- ===== src/Connect/Routes.antt =====
-- The routes as sequences of calls of the store.
use wakey.Prelude.{
  Bool, String, false, if◌then◌else◌, true, ℕ, ◌≡◌, Bool-cases, List, arith, inl, inr, not, refl,
  ◌+◌, [], eqb, find_where, none, some, ◌∷◌, Option, ◌==◌,
}
use wakey.Connect.{
  pending, Broker, Connection, Told, broken, denied, told, unavailable, PairData, PairState,
  Repository, binding, choices, connected, device_flow, erased, is_pending, is_selecting, revoked,
  selecting, is_connected,
}
use wakey.Connect.Server.{
  Call, Github, PollReply, access_token, answer, ask, authorization_pending, go_on, on_reply,
  refused, slow_down, ◌>>=◌, poll, poll_device, claimed_poll, poll_due, poll_row, select,
  select_from, select_row, view, change, choose, Device, Minted, larger, mint, or_default, pair,
  smaller, token, token_row, ◌>>◌, issue,
}
use wakey.Connect.Store.{
  revoke, revoke_id, acknowledge, acknowledge_row, write, read, admit_pairing, audit, create,
  connected_rows,
}
use wakey.Connect.Relay.{HookEvent, relay_rows, is_for, is_revocation, relay_bound, relay_event}
use wakey.Connect.Steps.{
  Step, Reach, Write, slower, listed, bound, here, next, trans, admit, write_as, pair_with, claim,
  revoke_by, relay_to, note, acknowledge_to,
}

module _ (hash_token : String → String) (h : String) (github : Github) (clock : ℕ → ℕ) where
  -- From every store the call gets to a store that steps lead to.
  abbrev Steps : {A : Type 0} → Call A → Type 0
  Steps m = (s : Broker) → Reach hash_token h s (m s).1

  Steps-go_on :
      {A B : Type 0} (r : Told A) (f : A → Call B) (s : Broker)
      → ((a : A) → Steps (f a))
      → Reach hash_token h s (go_on r f s).1
  Steps-go_on (told a) f s on = on a s
  Steps-go_on (denied reason) f s on = here
  Steps-go_on unavailable f s on = here
  Steps-go_on broken f s on = here

  Steps-bind :
      {A B : Type 0} (m : Call A) (f : A → Call B)
      → Steps m
      → ((a : A) → Steps (f a))
      → Steps (m >>= f)
  Steps-bind m f first on s = trans hash_token h (first s) (Steps-go_on (m s).0 f (m s).1 on)

  Steps-answer : {A : Type 0} (r : Told A) → Steps (answer r)
  Steps-answer r s = here

  Steps-ask : {A : Type 0} (f : Broker → Told A) → Steps (ask f)
  Steps-ask f s = here

  Steps-if : {A : Type 0} (b : Bool) (m n : Call A) → Steps m → Steps n → Steps (if b then m else n)
  Steps-if true m n left right = left
  Steps-if false m n left right = right

  -- a branch on the state that was read
  Steps-unless :
      {A : Type 0} (test : PairState → Bool) (at : PairState) (m n : Call A)
      → ((p : PairState) → test p ≡ true → p ≡ at)
      → (p : PairState) → Steps m
      → (p ≡ at → Steps n)
      → Steps (if not (test p) then m else n)
  Steps-unless test at m n only p left right = elim (Bool-cases (test p)) [
    | inl at_it ↦ rw at_it (right (only p at_it))
    | inr other ↦ rw other left
  ]

  only_pending : (p : PairState) → is_pending p ≡ true → p ≡ pending
  only_pending pending e = refl
  only_pending selecting e = ground arith
  only_pending connected e = ground arith
  only_pending revoked e = ground arith

  only_selecting : (p : PairState) → is_selecting p ≡ true → p ≡ selecting
  only_selecting selecting e = refl
  only_selecting pending e = ground arith
  only_selecting connected e = ground arith
  only_selecting revoked e = ground arith

  Steps-write :
      (row : Connection) (at state : PairState) (content : PairData) (now later : ℕ)
      → row.state ≡ at
      → Write at state content
      → Steps (write row state content now later)
  Steps-write row at state content now later e w s =
      next here
        (write_as row state content now later (coe 1 0 (i. Write (e i) state content) w) refl)

  reply-Steps :
      (row : Connection) (code : String) (interval : ℕ) (reply : PollReply)
      → row.state ≡ pending
      → Steps (on_reply hash_token github clock row code interval reply)
  reply-Steps row code interval slow_down e =
      Steps-write row pending pending (device_flow code (interval + 5)) (clock 2) (clock 3) e
        (slower code (interval + 5))
  reply-Steps row code interval authorization_pending e = Steps-answer (told tt)
  reply-Steps row code interval (access_token secret) e =
      Steps-bind (answer (github.repositories secret))
        (λ (choice : ℕ × List Repository).
          write row selecting (choices choice.0 choice.1) (clock 2) (clock 3))
        (Steps-answer (github.repositories secret))
        (λ choice.
          Steps-write row pending selecting (choices choice.0 choice.1) (clock 2) (clock 3) e
            (listed choice.0 choice.1))
  reply-Steps row code interval refused e = λ s. next here (revoke_by row.id (clock 2) refl)

  device-Steps :
      (row : Connection) (content : PairData)
      → row.state ≡ pending
      → Steps (poll_device hash_token github clock row content)
  device-Steps row (device_flow code interval) e =
      Steps-bind (answer (github.poll code)) (on_reply hash_token github clock row code interval)
        (Steps-answer (github.poll code)) (λ reply. reply-Steps row code interval reply e)
  device-Steps row (choices owner repos) e = Steps-answer {A = Unit {0}} broken
  device-Steps row (binding owner repo) e = Steps-answer {A = Unit {0}} broken
  device-Steps row erased e = Steps-answer {A = Unit {0}} broken

  poll-Steps : (credential : String) → Steps (poll hash_token github clock credential)
  unfolding poll
  poll-Steps credential =
      Steps-bind (ask (read hash_token credential (clock 0)))
        (poll_row hash_token github clock credential)
        (Steps-ask (read hash_token credential (clock 0)))
        (λ row.
          Steps-unless is_pending pending (answer (told (view row)))
            (claimed_poll hash_token github clock row
              >>= poll_due hash_token github clock credential row)
            only_pending row.state (Steps-answer (told (view row)))
            (λ e.
              Steps-bind (claimed_poll hash_token github clock row)
                (poll_due hash_token github clock credential row)
                (λ s. next here (claim row (clock 1) refl)) (λ due. due-Steps row due e)))
    where
      due-Steps :
          (row : Connection) (due : Bool)
          → row.state ≡ pending
          → Steps (poll_due hash_token github clock credential row due)
      due-Steps row false e = Steps-answer (told (view row))
      due-Steps row true e =
          Steps-bind (poll_device hash_token github clock row row.content)
            (λ x.
              ask (read hash_token credential (clock 4)) >>= λ again. answer (told (view again)))
            (device-Steps row row.content e)
            (λ x.
              Steps-bind (ask (read hash_token credential (clock 4)))
                (λ again. answer (told (view again)))
                (Steps-ask (read hash_token credential (clock 4)))
                (λ again. Steps-answer (told (view again))))

  choose-Steps :
      (row : Connection) (owner : ℕ) (choice : Option Repository)
      → row.state ≡ selecting
      → Steps (choose hash_token github clock row owner choice)
  choose-Steps row owner none e =
      Steps-answer {A = Repository} (denied "repository was not authorized by this GitHub user")
  choose-Steps row owner (some repo) e =
      Steps-bind (answer (github.token repo))
        (λ x.
          write row connected (binding owner repo) (clock 1) (clock 2) >>= λ x. answer (told repo))
        (Steps-answer (github.token repo))
        (λ x.
          Steps-bind (write row connected (binding owner repo) (clock 1) (clock 2))
            (λ x. answer (told repo))
            (Steps-write row selecting connected (binding owner repo) (clock 1) (clock 2) e
              (bound owner repo))
            (λ x. Steps-answer (told repo)))

  from-Steps :
      (row : Connection) (repository_id : ℕ) (content : PairData)
      → row.state ≡ selecting
      → Steps (select_from hash_token github clock row repository_id content)
  from-Steps row repository_id (choices owner repositories) e =
      choose-Steps row owner (find_where (λ (r : Repository). eqb r.id repository_id) repositories)
        e
  from-Steps row repository_id (device_flow code interval) e = Steps-answer {A = Repository} broken
  from-Steps row repository_id (binding owner repo) e = Steps-answer {A = Repository} broken
  from-Steps row repository_id erased e = Steps-answer {A = Repository} broken

  select-Steps :
      (credential : String) (repository_id : ℕ)
      → Steps (select hash_token github clock credential repository_id)
  unfolding select
  select-Steps credential repository_id =
      Steps-bind (ask (read hash_token credential (clock 0)))
        (select_row hash_token github clock repository_id)
        (Steps-ask (read hash_token credential (clock 0)))
        (λ row.
          Steps-unless is_selecting selecting
            (answer (denied "pairing is not ready for repository selection"))
            (select_from hash_token github clock row repository_id row.content) only_selecting
            row.state
            (Steps-answer {A = Repository} (denied "pairing is not ready for repository selection"))
            (from-Steps row repository_id row.content))

  bound-Steps :
      (kind : String) (event : HookEvent) (envelope delivery : String) (n : ℕ) (row : Connection)
      (content : PairData)
      → Steps (relay_bound kind event envelope delivery clock n row content)
  bound-Steps kind event envelope delivery n row (binding owner repo) s =
      elim (Bool-cases (is_revocation kind event owner repo)) [
        | inl gone ↦ rw gone (next here (revoke_by row.id (clock n) refl))
        | inr kept ↦ rw kept (elim (Bool-cases (is_for event repo)) [
          | inl meant ↦
              rw meant
                (next here (relay_to row.id delivery envelope (clock n) (clock (n + 1)) refl))
          | inr other ↦ rw other here
        ])
      ]
  bound-Steps kind event envelope delivery n row (device_flow code interval) s = here
  bound-Steps kind event envelope delivery n row (choices owner repos) s = here
  bound-Steps kind event envelope delivery n row erased s = here

  relay-Steps :
      (kind : String) (event : HookEvent) (envelope delivery : String) (n : ℕ)
      (rows : List Connection)
      → Steps (relay_rows kind event envelope delivery clock n rows)
  unfolding relay_rows
  relay-Steps kind event envelope delivery n [] s = here
  relay-Steps kind event envelope delivery n (row ∷ rows) s =
      trans hash_token h (bound-Steps kind event envelope delivery n row row.content s) (
        gone_on (relay_bound kind event envelope delivery clock n row row.content s).0
          (relay_bound kind event envelope delivery clock n row row.content s).1
          (relay-Steps kind event envelope delivery (n + 2) rows
            (relay_bound kind event envelope delivery clock n row row.content s).1))
    where
      gone_on :
          (r : Told (Unit {0})) (s' : Broker)
          → Reach hash_token h s' (relay_rows kind event envelope delivery clock (n + 2) rows s').1
          → Reach hash_token h s'
              (elim r as (λ x. Told (Unit {0}) × Broker) [
                | told x ↦ relay_rows kind event envelope delivery clock (n + 2) rows s'
                | denied reason ↦ (denied reason, s')
                | unavailable ↦ (unavailable, s')
                | broken ↦ (broken, s')
              ]).1
      gone_on (told x) s' on = on
      gone_on (denied reason) s' on = here
      gone_on unavailable s' on = here
      gone_on broken s' on = here

  pair-Steps :
      (identity credential : String)
      → (hash_token credential == h) ≡ false
      → Steps (pair hash_token github clock identity credential)
  unfolding pair
  pair-Steps identity credential fresh =
      Steps-bind (admit_pairing (clock 0)) (λ x. answer github.device >>= paired)
        (λ s. next here (admit (clock 0) refl))
        (λ x.
          Steps-bind (answer github.device) paired (Steps-answer github.device)
            (λ reply s. next here (pair_of reply s)))
    where
      paired : Device → Call String
      paired reply =
          create hash_token identity credential reply.device_code
            (larger 5 (or_default 5 reply.interval)) (smaller 900 (or_default 900 reply.expires_in))
            (clock 1)

      pair_of : (reply : Device) (s : Broker) → Step hash_token h s (paired reply s).1
      pair_of reply s =
          pair_with identity credential reply.device_code (larger 5 (or_default 5 reply.interval))
            (smaller 900 (or_default 900 reply.expires_in)) (clock 1) fresh refl

  token-Steps :
      (meanwhile : Broker → Broker) (credential : String)
      → ((s : Broker) → Reach hash_token h s (meanwhile s))
      → Steps (token hash_token github clock meanwhile credential)
  unfolding token
  token-Steps meanwhile credential others =
      Steps-bind (ask (read hash_token credential (clock 0)))
        (token_row hash_token github clock meanwhile credential)
        (Steps-ask (read hash_token credential (clock 0)))
        (λ row.
          Steps-if (not (is_connected row.state)) (answer (denied "deployment is not connected"))
            (mint hash_token github clock row.content
              >>= issue hash_token github clock meanwhile credential row)
            (Steps-answer {A = Minted} (denied "deployment is not connected"))
            (Steps-bind (mint hash_token github clock row.content)
              (issue hash_token github clock meanwhile credential row) (mint-Steps row.content)
              (λ minted. issued row minted)))
    where
      mint-Steps : (content : PairData) → Steps (mint hash_token github clock content)
      mint-Steps (binding owner repo) = Steps-answer (github.token repo)
      mint-Steps (device_flow code interval) = Steps-answer {A = Minted} broken
      mint-Steps (choices owner repos) = Steps-answer {A = Minted} broken
      mint-Steps erased = Steps-answer {A = Minted} broken

      written : Connection → Minted → Connection → Call Minted
      written row minted again = do
        change (audit (clock 2) row.id "token.issued")
        answer (told minted)

      issued :
          (row : Connection) (minted : Minted)
          → Steps (issue hash_token github clock meanwhile credential row minted)
      issued row minted =
          Steps-bind (change meanwhile)
            (λ x. ask (read hash_token credential (clock 1)) >>= written row minted) others
            (λ x.
              Steps-bind (ask (read hash_token credential (clock 1))) (written row minted)
                (Steps-ask (read hash_token credential (clock 1)))
                (λ again s. next here (note (clock 2) row.id "token.issued" refl)))

  reading-Reach :
      (reply : Told Connection) (next_of : Connection → Broker) (s : Broker)
      → ((row : Connection) → Step hash_token h s (next_of row))
      → Reach hash_token h s
          (elim reply as (λ x. Told (Unit {0}) × Broker) [
            | told row ↦ (told tt, next_of row)
            | denied reason ↦ (denied reason, s)
            | unavailable ↦ (unavailable, s)
            | broken ↦ (broken, s)
          ]).1
  reading-Reach (told row) next_of s on = next here (on row)
  reading-Reach (denied reason) next_of s on = here
  reading-Reach unavailable next_of s on = here
  reading-Reach broken next_of s on = here

  revoke-Steps :
      (credential : String) (now later : ℕ) → Steps (revoke hash_token credential now later)
  unfolding revoke
  revoke-Steps credential now later s =
      reading-Reach (read hash_token credential now s) (λ row. revoke_id row.id later s) s
        (λ row. revoke_by row.id later refl)

  acknowledge-Steps :
      (credential delivery : String) (now : ℕ)
      → Steps (acknowledge hash_token credential delivery now)
  unfolding acknowledge
  acknowledge-Steps credential delivery now s =
      reading-Reach (read hash_token credential now s) (λ row. acknowledge_row row.id delivery s) s
        (λ row. acknowledge_to row.id delivery refl)

-- From any store, each route that writes and the relaying of a webhook leads to a store that steps of
-- the store's calls reach, also when the request is cut short. The routes other than pairing get any
-- credential; a new pairing is taken to draw one that does not have the hash `h`. Nothing else runs
-- during a request, but while GitHub is issuing a token, when any steps may be taken.
pub routes-Reach :
    (hash_token : String → String) (h : String) (github : Github) (clock : ℕ → ℕ)
    (identity drawn credential kind envelope delivery : String) (event : HookEvent)
    (repository_id : ℕ) (meanwhile : Broker → Broker) (s : Broker)
    → (hash_token drawn == h) ≡ false
    → ((t : Broker) → Reach hash_token h t (meanwhile t))
    → Reach hash_token h s (pair hash_token github clock identity drawn s).1
      × Reach hash_token h s (poll hash_token github clock credential s).1
      × Reach hash_token h s (select hash_token github clock credential repository_id s).1
      × Reach hash_token h s (token hash_token github clock meanwhile credential s).1
      × Reach hash_token h s (acknowledge hash_token credential delivery (clock 0) s).1
      × Reach hash_token h s (revoke hash_token credential (clock 0) (clock 1) s).1
      × Reach hash_token h s (relay_event kind event envelope delivery clock s).1
unfolding relay_event
routes-Reach hash_token h github clock identity drawn credential kind envelope delivery event
      repository_id meanwhile s fresh others =
    (
      pair-Steps hash_token h github clock identity drawn fresh s,
      poll-Steps hash_token h github clock credential s,
      select-Steps hash_token h github clock credential repository_id s,
      token-Steps hash_token h github clock meanwhile credential others s,
      acknowledge-Steps hash_token h github clock credential delivery (clock 0) s,
      revoke-Steps hash_token h github clock credential (clock 0) (clock 1) s,
      relay-Steps hash_token h github clock kind event envelope delivery 0 (connected_rows s) s,
    )
