-- ===== src/Storage/Audit/Tamper.antt =====
-- Two logs that verify and end in one hash hold the same values, or two of their rows collide.
use Prim.Native.String.{count}
use text.Mathlib.TextLemmas.{append_inj, append_cancel_left}
use wakey.Prelude.{
  Bool-cases, List, Option, String, [], ap, arith, eq_iff, inl, inr, none, refl, some, sym, ℕ, ◌==◌,
  ◌∙◌, ◌∷◌, ◌≡◌, ◌≢◌, ◌⊎◌, length, true, ◌+◌, ◌<>◌,
}
use wakey.Storage.Audit.{
  AuditRow, material, or_empty, values_text, entry_hash, last_hash, verify_audit_chain,
}
use wakey.Storage.Audit.Chain.{IsLinked, hash_after, last_hash_lem, verify, verify-IsLinked}

-- The values of a row, joined by bars.
abbrev pub joined : AuditRow → String
joined row =
    row.ts
    <> ("|"
        <> (row.actor
            <> ("|" <> (row.action <> ("|" <> (row.subject <> ("|" <> row.details_json)))))))

-- What a row's hash is the digest of: the previous hash that the row holds, and its values.
abbrev pub hashed : AuditRow → String
hashed row = or_empty row.prev_hash <> ("|" <> joined row)

-- The joined values of two logs, row by row.
abbrev pub SameValues : List AuditRow → List AuditRow → Type 0
SameValues [] [] = Unit {0}
SameValues (x ∷ xs) (y ∷ ys) = (joined x ≡ joined y) × SameValues xs ys
SameValues _ _ = ⊥

-- At some position the two logs hold rows with different texts of one digest.
abbrev pub HasCollision : (String → String) → List AuditRow → List AuditRow → Type 0
HasCollision sha256 (x ∷ xs) (y ∷ ys) =
    ((hashed x ≢ hashed y) × (sha256 (hashed x) ≡ sha256 (hashed y))) ⊎ HasCollision sha256 xs ys
HasCollision sha256 _ _ = ⊥

text-cases : (s t : String) → (s ≡ t) ⊎ (s ≢ t)
text-cases s t = elim (Bool-cases (s == t)) [
  | inl h ↦ inl ((eq_iff s t).0 h)
  | inr h ↦ inr (λ e. ground (arith, eq_iff s t))
]

module _ (sha256 : String → String) (dumps : List (String × String) → String) (iso : ℕ → String)
    (one_length : (s t : String) → count (sha256 s) ≡ count (sha256 t)) where
  -- both at the start of a log, or both behind a row
  abbrev Alike : Option String → Option String → Type 0
  Alike p q =
      ((p ≡ none) × (q ≡ none))
      ⊎ ((s : String) × (t : String) × (p ≡ some (sha256 s)) × (q ≡ some (sha256 t)))

  parts :
      (p q : Option String) (x y : AuditRow)
      → count (or_empty p) ≡ count (or_empty q)
      → material p x ≡ material q y
      → (or_empty p ≡ or_empty q) × (joined x ≡ joined y)
  unfolding material values_text
  parts p q x y n e = let (head, tail) = append_inj e n in (head, append_cancel_left "|" _ _ tail)

  Alike-parts :
      (p q : Option String) (x y : AuditRow)
      → Alike p q
      → material p x ≡ material q y
      → (p ≡ q) × (joined x ≡ joined y)
  Alike-parts p q x y (inl (a, b)) e = (a ∙ sym b, (parts p q x y (rw (a, b) refl) e).1)
  Alike-parts p q x y (inr (s, t, a, b)) e =
      let (head, values) = parts p q x y (rw (a, b) (one_length s t)) e in
      (a ∙ ap some (ap or_empty (sym a) ∙ head ∙ ap or_empty b) ∙ sym b, values)

  abbrev Agreement : Option String → Option String → List AuditRow → List AuditRow → Type 0
  Agreement p q rows rows' = ((p ≡ q) × SameValues rows rows') ⊎ HasCollision sha256 rows rows'

  agree_step :
      (p q : Option String) (x y : AuditRow) (xs ys : List AuditRow)
      → Alike p q
      → IsLinked sha256 dumps iso p x
      → IsLinked sha256 dumps iso q y
      → x.entry_hash ≡ y.entry_hash
      → SameValues xs ys
      → Agreement p q (x ∷ xs) (y ∷ ys)
  unfolding entry_hash material values_text
  agree_step p q x y xs ys alike lx ly e rest =
      let left : hashed x ≡ material p x = ap (λ k. material k x) lx.1 in
      let right : hashed y ≡ material q y = ap (λ k. material k y) ly.1 in
      let digests : sha256 (material p x) ≡ sha256 (material q y) = cc in
      elim (text-cases (hashed x) (hashed y)) [
        | inl same ↦
            let (head, values) = Alike-parts p q x y alike (sym left ∙ same ∙ right) in
            inl (head, (values, rest))
        | inr differ ↦ inr (inl (differ, ap sha256 left ∙ digests ∙ ap sha256 (sym right)))
      ]

  agree :
      (j k m n : ℕ) (p q : Option String) (rows rows' : List AuditRow)
      → Alike p q
      → length rows ≡ length rows'
      → verify sha256 dumps iso j p rows ≡ (true, m)
      → verify sha256 dumps iso k q rows' ≡ (true, n)
      → hash_after p rows ≡ hash_after q rows'
      → Agreement p q rows rows'
  unfolding hash_after
  agree j k m n p q [] [] alike len v w e = inl (e, tt)
  agree j k m n p q [] (y ∷ ys) alike len v w e = absurd (omega arith)
  agree j k m n p q (x ∷ xs) [] alike len v w e = absurd (omega arith)
  agree j k m n p q (x ∷ xs) (y ∷ ys) alike len v w e =
      let (lx, vs) = verify-IsLinked sha256 dumps iso j m p x xs v in
      let (ly, ws) = verify-IsLinked sha256 dumps iso k n q y ys w in
      let behind : Alike x.entry_hash y.entry_hash =
        inr (material p x, material q y, entry_digest p x lx, entry_digest q y ly) in
      elim (agree (j + 1) (k + 1) m n x.entry_hash y.entry_hash xs ys behind (omega arith) vs ws
        e) [
          | inl (same, rest) ↦ agree_step p q x y xs ys alike lx ly same rest
          | inr collision ↦ inr (inr collision)
        ]
    where
      entry_digest :
          (p : Option String) (x : AuditRow)
          → IsLinked sha256 dumps iso p x
          → x.entry_hash ≡ some (sha256 (material p x))
      entry_digest p x l = unfold entry_hash in l.0

  -- All digests have one length. Two logs of the same number of rows whose chains verify and whose
  -- newest hashes agree hold the same values in every row, as bars join them, unless at some position
  -- the two rows have different texts of one digest.
  pub verify_tamper_evident :
      (m n : ℕ) (rows rows' : List AuditRow)
      → length rows ≡ length rows'
      → verify_audit_chain sha256 dumps iso rows ≡ (true, m)
      → verify_audit_chain sha256 dumps iso rows' ≡ (true, n)
      → last_hash rows ≡ last_hash rows'
      → SameValues rows rows' ⊎ HasCollision sha256 rows rows'
  unfolding verify_audit_chain
  verify_tamper_evident m n rows rows' len v w e =
      let heads = sym (last_hash_lem rows) ∙ e ∙ last_hash_lem rows' in
      elim (agree 0 0 m n none none rows rows' (inl (refl, refl)) len v w heads) [
        | inl (_, same) ↦ inl same
        | inr collision ↦ inr collision
      ]
