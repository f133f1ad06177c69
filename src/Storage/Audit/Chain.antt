-- ===== src/Storage/Audit/Chain.antt =====
-- What the hash chain of the audit log shows, and what it does not.
use wakey.Prelude.{
  Bool, List, Option, String, [], arith, eq_iff, none, refl, some, true, ℕ, ◌+◌, ◌↔◌, ◌∷◌, ◌≡◌, ap,
  length, sym, ◌++◌, ◌∙◌,
}
use wakey.Models.{AuditEvent}
use wakey.Storage.Audit.{
  AuditRow, entry_hash, last_hash, same_hash, verify_from, chained, record_audit,
  verify_audit_chain,
}

-- the hash that the next row is chained behind
unfoldable pub hash_after : Option String → List AuditRow → Option String
hash_after prev [] = prev
hash_after prev (row ∷ rows) = hash_after row.entry_hash rows

last-hash_after :
    (row : AuditRow) (rows : List AuditRow)
    → last_hash (row ∷ rows) ≡ hash_after row.entry_hash rows
unfolding last_hash hash_after
last-hash_after row [] = refl
last-hash_after row (next ∷ rows) = last-hash_after next rows

pub last_hash_lem : (rows : List AuditRow) → last_hash rows ≡ hash_after none rows
unfolding hash_after
last_hash_lem [] = unfold last_hash in refl
last_hash_lem (row ∷ rows) = last-hash_after row rows

pub same_hash_iff : (a b : Option String) → (same_hash a b ≡ true) ↔ (a ≡ b)
same_hash_iff none none = (λ _. refl, λ _. refl)
same_hash_iff none (some b) = (λ h. cc, λ h. cc)
same_hash_iff (some a) none = (λ h. cc, λ h. cc)
same_hash_iff (some a) (some b) = ground (arith, eq_iff a b)

module _ (sha256 : String → String) (dumps : List (String × String) → String)
    (iso : ℕ → String) where
  abbrev pub verify : ℕ → Option String → List AuditRow → Bool × ℕ
  verify = verify_from sha256 dumps iso

  -- A row that is linked to the one before it.
  abbrev pub IsLinked : Option String → AuditRow → Type 0
  IsLinked prev row =
      (row.entry_hash ≡ some (entry_hash sha256 dumps iso prev row)) × (row.prev_hash ≡ prev)

  pub verify_step :
      (k : ℕ) (prev : Option String) (row : AuditRow) (rows : List AuditRow)
      → IsLinked prev row
      → verify k prev (row ∷ rows) ≡ verify (k + 1) row.entry_hash rows
  unfolding verify_from
  verify_step k prev row rows h = ground (
    arith,
    same_hash_iff row.entry_hash (some (entry_hash sha256 dumps iso prev row)),
    same_hash_iff row.prev_hash prev,
  )

  pub verify-IsLinked :
      (k n : ℕ) (prev : Option String) (row : AuditRow) (rows : List AuditRow)
      → verify k prev (row ∷ rows) ≡ (true, n)
      → IsLinked prev row × (verify (k + 1) row.entry_hash rows ≡ (true, n))
  unfolding verify_from
  verify-IsLinked k n prev row rows h = ground (
    arith,
    same_hash_iff row.entry_hash (some (entry_hash sha256 dumps iso prev row)),
    same_hash_iff row.prev_hash prev,
  )

  pub verify_nil : (k : ℕ) (prev : Option String) → verify k prev [] ≡ (true, k)
  unfolding verify_from
  verify_nil k prev = refl

  verify-append :
      (k n : ℕ) (prev : Option String) (rows more : List AuditRow)
      → verify k prev rows ≡ (true, n)
      → verify k prev (rows ++ more) ≡ verify n (hash_after prev rows) more
  unfolding hash_after
  verify-append k n prev [] more h =
      let same : k ≡ n = ap (λ (r : Bool × ℕ). r.1) (sym (verify_nil k prev) ∙ h) in rw same
  verify-append k n prev (row ∷ rows) more h =
      let (linked, rest) = verify-IsLinked k n prev row rows h in
      verify_step k prev row (rows ++ more) linked
      ∙ verify-append (k + 1) n row.entry_hash rows more rest

  pub chained-IsLinked :
      (prev : Option String) (row : AuditRow) → IsLinked prev (chained sha256 dumps iso prev row)
  unfolding chained
  chained-IsLinked prev row = (refl, refl)

  -- In a log whose chain verifies, the chain still verifies after one more event is recorded, and
  -- it has one more row.
  pub verify-record :
      (now n : ℕ) (event : AuditEvent) (rows : List AuditRow)
      → verify_audit_chain sha256 dumps iso rows ≡ (true, n)
      → verify_audit_chain sha256 dumps iso (record_audit sha256 dumps iso now event rows)
        ≡ (true, n + 1)
  unfolding verify_audit_chain record_audit
  verify-record now n event rows h =
      let row : AuditRow = record {
        ts = iso now;
        actor = event.actor;
        action = event.action;
        subject = event.subject;
        details_json = dumps event.details;
        prev_hash = none;
        entry_hash = none;
      } in
      rw (last_hash_lem rows) (
        verify-append 0 n none rows (chained sha256 dumps iso (hash_after none rows) row ∷ []) h
        ∙ verify_step n (hash_after none rows) (chained sha256 dumps iso (hash_after none rows) row)
            [] (chained-IsLinked (hash_after none rows) row)
        ∙ verify_nil (n + 1) (chained sha256 dumps iso (hash_after none rows) row).entry_hash)

  verify_prefix :
      (k n : ℕ) (prev : Option String) (rows more : List AuditRow)
      → verify k prev (rows ++ more) ≡ (true, n)
      → verify k prev rows ≡ (true, k + length rows)
  verify_prefix k n prev [] more h =
      rw (verify_nil k prev) (ap (λ (m : ℕ). (true, m)) (omega arith))
  verify_prefix k n prev (row ∷ rows) more h =
      let (linked, rest) = verify-IsLinked k n prev row (rows ++ more) h in
      verify_step k prev row rows linked
      ∙ verify_prefix (k + 1) n row.entry_hash rows more rest
      ∙ ap (λ (m : ℕ). (true, m)) (omega arith)

  -- If a log verifies, so does what is left of it after any number of its newest rows are deleted:
  -- the chain alone does not show that rows are missing at the end.
  pub verify_truncated :
      (n : ℕ) (rows deleted : List AuditRow)
      → verify_audit_chain sha256 dumps iso (rows ++ deleted) ≡ (true, n)
      → verify_audit_chain sha256 dumps iso rows ≡ (true, length rows)
  unfolding verify_audit_chain
  verify_truncated n rows deleted h =
      verify_prefix 0 n none rows deleted h ∙ ap (λ (m : ℕ). (true, m)) (omega arith)
