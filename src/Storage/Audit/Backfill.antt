-- ===== src/Storage/Audit/Backfill.antt =====
-- The migration that chains the rows of a log from before the hash columns.
use wakey.Prelude.{
  All, Bool, List, Option, String, [], ap, arith, length, none, refl, some, sym, true, ℕ, ◌++◌, ◌+◌,
  ◌∙◌, ◌∷◌, ◌≡◌,
}
use wakey.Storage.Audit.{
  AuditRow, backfill_audit_chain, backfill_from, backfill_head, chained, entry_hash,
  verify_audit_chain, verify_from,
}
use wakey.Storage.Audit.Chain.{chained-IsLinked, verify-IsLinked, verify_step}

-- a row from before the hash columns
abbrev pub IsLegacy : AuditRow → Type 0
IsLegacy row = row.entry_hash ≡ none

module _ (sha256 : String → String) (dumps : List (String × String) → String)
    (iso : ℕ → String) where
  abbrev link : Option String → AuditRow → AuditRow
  link = chained sha256 dumps iso

  abbrev filled : Option String → List AuditRow → List AuditRow
  filled = backfill_from sha256 dumps iso

  abbrev walked : Option String → List AuditRow → List AuditRow
  walked = backfill_head sha256 dumps iso

  abbrev checks : ℕ → Option String → List AuditRow → Bool × ℕ
  checks = verify_from sha256 dumps iso

  filled_legacy :
      (prev : Option String) (row : AuditRow) (rows : List AuditRow)
      → IsLegacy row
      → filled prev (row ∷ rows)
        ≡ link prev row ∷ filled (some (entry_hash sha256 dumps iso prev row)) rows
  unfolding backfill_from
  filled_legacy prev row rows h = rw h refl

  walked_legacy :
      (prev : Option String) (row : AuditRow) (rows : List AuditRow)
      → IsLegacy row
      → walked prev (row ∷ rows) ≡ filled prev (row ∷ rows)
  unfolding backfill_head
  walked_legacy prev row rows h =
      ap
        (λ o. elim o as (λ _. List AuditRow) [
          | some hash ↦ row ∷ walked (some hash) rows
          | none ↦ filled prev (row ∷ rows)
        ])
        h

  walked_hashed :
      (prev : Option String) (row : AuditRow) (rows : List AuditRow) (h : String)
      → row.entry_hash ≡ some h
      → walked prev (row ∷ rows) ≡ row ∷ walked (some h) rows
  unfolding backfill_head
  walked_hashed prev row rows h e =
      ap
        (λ o. elim o as (λ _. List AuditRow) [
          | some hash ↦ row ∷ walked (some hash) rows
          | none ↦ filled prev (row ∷ rows)
        ])
        e

  checks-filled :
      (k : ℕ) (prev : Option String) (rows : List AuditRow)
      → All IsLegacy rows
      → checks k prev (filled prev rows) ≡ (true, k + length rows)
  unfolding chained
  checks-filled k prev [] h = unfold backfill_from verify_from in ap (λ m. (true, m)) (omega arith)
  checks-filled k prev (row ∷ rows) h =
      let hash = entry_hash sha256 dumps iso prev row in
      ap (checks k prev) (filled_legacy prev row rows h.0)
      ∙ verify_step sha256 dumps iso k prev (link prev row) (filled (some hash) rows)
          (chained-IsLinked sha256 dumps iso prev row)
      ∙ checks-filled (k + 1) (some hash) rows h.1
      ∙ ap (λ m. (true, m)) (omega arith)

  checks-walked :
      (k n : ℕ) (prev : Option String) (old rows : List AuditRow)
      → checks k prev old ≡ (true, n)
      → All IsLegacy rows
      → checks k prev (walked prev (old ++ rows)) ≡ (true, n + length rows)
  checks-walked k n prev [] [] h legacy =
      unfold backfill_head verify_from in h ∙ ap (λ m. (true, m)) (omega arith)
  checks-walked k n prev [] (row ∷ rows) h legacy =
      let same : k ≡ n = unfold verify_from in ap (λ p. p.1) h in
      ap (checks k prev) (walked_legacy prev row rows legacy.0)
      ∙ checks-filled k prev (row ∷ rows) legacy
      ∙ ap (λ m. (true, m + length (row ∷ rows))) same
  checks-walked k n prev (row ∷ old) rows h legacy =
      let (linked, rest) = verify-IsLinked sha256 dumps iso k n prev row old h in
      let hash = entry_hash sha256 dumps iso prev row in
      ap (checks k prev) (walked_hashed prev row (old ++ rows) hash linked.0)
      ∙ verify_step sha256 dumps iso k prev row (walked (some hash) (old ++ rows)) linked
      ∙ ap (λ p. checks (k + 1) p (walked (some hash) (old ++ rows))) linked.0
      ∙ checks-walked (k + 1) n (some hash) old rows
          (sym (ap (λ p. checks (k + 1) p old) linked.0) ∙ rest) legacy

  -- A log whose chain verifies, with rows from before the hash columns behind it, verifies as a
  -- whole once it is backfilled, each of those rows counted.
  pub verify-backfill :
      (n : ℕ) (old rows : List AuditRow)
      → verify_audit_chain sha256 dumps iso old ≡ (true, n)
      → All IsLegacy rows
      → verify_audit_chain sha256 dumps iso (backfill_audit_chain sha256 dumps iso (old ++ rows))
        ≡ (true, n + length rows)
  unfolding verify_audit_chain backfill_audit_chain
  verify-backfill n old rows h legacy = checks-walked 0 n none old rows h legacy
