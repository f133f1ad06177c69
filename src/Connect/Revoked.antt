-- ===== src/Connect/Revoked.antt =====
-- A revoked credential opens nothing any more.
use wakey.Prelude.{
  Bool, List, String, [], any_where, any_where-delete, arith, delete_where, false, not, refl, true,
  update_where, ◌&&◌, ◌++◌, ◌==◌, ◌∷◌, ◌≡◌, ◌*◌, ◌+◌, Bool-cases, find_where, inl, inr, some, ℕ,
  Option-cases, eq_iff, eq_refl,
}
use wakey.Connect.{
  pending, revoked, Connection, PairData, PairState, connected, is_revoked, same_state, selecting,
  Broker, device_flow, erased, interval_of, denied, told,
}
use wakey.Connect.Store.{
  is_unchanged, acknowledge_row, admit_pairing, audit, claim_poll, create, enqueue, is_due,
  is_expired, is_identity, revoke_id, write, has_credential, read, readable, revoke,
}
use wakey.Models.{second}
use wakey.Connect.Steps.{
  Step, Write, acknowledge_to, admit, bound, claim, listed, note, pair_with, relay_to, revoke_by,
  slower, write_as, Reach, here, next,
}

-- a row that lets the holder of the credential in
abbrev is_alive : String → Connection → Bool
is_alive h row = row.credential == h && not (is_revoked row.state)

abbrev is_held : String → Connection → Bool
is_held h row = row.credential == h

-- No two rows have one credential, as the constraint of the table says.
abbrev pub IsDistinct : List Connection → Type 0
IsDistinct [] = Unit
IsDistinct (row ∷ rows) =
    (any_where (λ (r : Connection). r.credential == row.credential) rows ≡ false) × IsDistinct rows

any-delete :
    (q p : Connection → Bool) (rows : List Connection)
    → any_where q rows ≡ false
    → any_where q (delete_where p rows) ≡ false
any-delete q p rows = any_where-delete q p rows

any-update :
    (q p : Connection → Bool) (f : Connection → Connection) (rows : List Connection)
    → ((r : Connection) → p r ≡ true → q r ≡ false → q (f r) ≡ false)
    → any_where q rows ≡ false
    → any_where q (update_where p f rows) ≡ false
unfolding any_where update_where
any-update q p f [] keep e = refl
any-update q p f (r ∷ rows) keep e = ground (arith, keep r, any-update q p f rows keep)

any-append :
    (q : Connection → Bool) (rows : List Connection) (r : Connection)
    → any_where q rows ≡ false
    → q r ≡ false
    → any_where q (rows ++ r ∷ []) ≡ false
unfolding any_where
any-append q [] r e e' = ground arith
any-append q (x ∷ rows) r e e' = ground (arith, any-append q rows r)

-- a write sets out from a state that is not revoked, and goes to one
Write-revoked : {a b : PairState} {content : PairData} → Write a b content → is_revoked a ≡ false
Write-revoked (slower code interval) = refl
Write-revoked (listed owner repos) = refl
Write-revoked (bound owner repo) = refl

same_revoked : (a b : PairState) → same_state b a ≡ true → is_revoked b ≡ is_revoked a
same_revoked pending b e = ground arith
same_revoked selecting b e = ground arith
same_revoked connected b e = ground arith
same_revoked revoked b e = ground arith

module _ (hash_token : String → String) (h : String) where
  -- what a step makes of the rows
  rows-Step :
      {s t : Broker}
      → Step hash_token h s t
      → any_where (is_alive h) s.connections ≡ false
      → any_where (is_alive h) t.connections ≡ false
  unfolding admit_pairing create write audit claim_poll revoke_id enqueue acknowledge_row
  rows-Step {s} (admit now e) dead = rw e dead
  rows-Step {s} (pair_with identity credential code interval ttl now fresh e) dead = rw e (
      let kept = any-delete (is_alive h) (is_expired now) s.connections dead in
      let row : Connection = record {
        id = identity;
        credential = hash_token credential;
        state = pending;
        expires = now + ttl * second;
        next_poll = now + interval * second;
        content = device_flow code interval;
      } in
      let grown = any-append (is_alive h) (delete_where (is_expired now) s.connections) row kept in
      ground (arith, grown))
  rows-Step {s} (write_as row state content now later w e) dead = rw e (
      ground (
        arith,
        any-update (is_alive h) (is_unchanged row)
            (λ r. record r {
              state = state;
              content = content;
              next_poll = now + interval_of content * second;
            })
            s.connections
            (λ r changed alive.
              let from = Write-revoked w in
              let same = same_revoked row.state r.state in ground arith)
            dead,
      ))
  rows-Step {s} (claim row now e) dead = rw e (
      any-update (is_alive h) (is_due row now)
        (λ r. record r { next_poll = now + interval_of row.content * second }) s.connections
        (λ r due alive. alive) dead)
  rows-Step {s} (revoke_by identity now e) dead = rw e (
      any-update (is_alive h) (is_identity identity)
        (λ r. record r { state = revoked; content = erased }) s.connections
        (λ r due alive. ground arith) dead)
  rows-Step {s} (relay_to identity delivery envelope now later e) dead = rw e (ground arith)
  rows-Step {s} (acknowledge_to identity delivery e) dead = rw e dead
  rows-Step {s} (note now identity action e) dead = rw e dead

  rows-Reach :
      {s t : Broker}
      → Reach hash_token h s t
      → any_where (is_alive h) s.connections ≡ false
      → any_where (is_alive h) t.connections ≡ false
  rows-Reach here dead = dead
  rows-Reach (next r step) dead = rows-Step step (rows-Reach r dead)

-- without a row that is alive nothing can be read
read_dead :
    (hash_token : String → String) (credential : String) (now : ℕ) (rows : List Connection)
    → any_where (is_alive (hash_token credential)) rows ≡ false
    → readable hash_token now (find_where (has_credential hash_token credential) rows)
      ≡ denied "connection not authorized"
unfolding any_where find_where
read_dead hash_token credential now [] dead = refl
read_dead hash_token credential now (row ∷ rows) dead =
    ground (arith, read_dead hash_token credential now rows)

not_held :
    (h : String) (row : Connection) (rows : List Connection)
    → any_where (is_held h) rows ≡ false
    → any_where (is_alive h) (
        update_where
          (is_identity row.id)
          (λ r. record r { state = revoked; content = erased })
          rows)
      ≡ false
unfolding any_where update_where
not_held h row [] e = refl
not_held h row (r ∷ rows) e = ground (arith, not_held h row rows)

-- the rows after the revocation of the one that holds a credential
revoked_rows :
    (h : String) (row : Connection) (rows : List Connection)
    → IsDistinct rows
    → find_where (is_held h) rows ≡ some row
    → any_where (is_alive h) (
        update_where
          (is_identity row.id)
          (λ r. record r { state = revoked; content = erased })
          rows)
      ≡ false
unfolding any_where find_where update_where
revoked_rows h row [] distinct e = refl
revoked_rows h row (r ∷ rows) distinct e = elim (Bool-cases (r.credential == h)) [
  | inl same ↦
      let equal : r.credential ≡ h = (eq_iff r.credential h).0 same in
      let rest = not_held h row rows (
        coe 0 1 (i. any_where (λ (x : Connection). x.credential == equal i) rows ≡ false)
          distinct.0) in
      ground (arith, eq_refl r.id, rest)
  | inr other ↦ ground (arith, revoked_rows h row rows)
]

revoke_dead :
    (hash_token : String → String) (credential : String) (now later : ℕ) (s : Broker)
    → IsDistinct s.connections
    → (revoke hash_token credential now later s).0 ≡ told tt
    → any_where
        (is_alive (hash_token credential))
        (revoke hash_token credential now later s).1.connections
      ≡ false
unfolding revoke read revoke_id audit
revoke_dead hash_token credential now later s distinct e =
    elim (Option-cases (find_where (has_credential hash_token credential) s.connections)) [
      | inl none_held ↦ ground arith
      | inr (row, found) ↦
          let after = revoked_rows (hash_token credential) row s.connections distinct found in
          ground arith
    ]

-- Once a deployment's credential is revoked, every later request with it is refused, whatever
-- calls of the store come in between, in whatever order; no new pairing draws the credential again.
pub revoked_for_good :
    (hash_token : String → String) (credential : String) (now later ever : ℕ) (s t : Broker)
    → IsDistinct s.connections
    → (revoke hash_token credential now later s).0 ≡ told tt
    → Reach hash_token (hash_token credential) (revoke hash_token credential now later s).1 t
    → read hash_token credential ever t ≡ denied "connection not authorized"
unfolding read
revoked_for_good hash_token credential now later ever s t distinct e reach =
    read_dead hash_token credential ever t.connections (
      rows-Reach hash_token (hash_token credential) reach
        (revoke_dead hash_token credential now later s distinct e))
