-- ===== src/Storage/Fingerprints/Laws.antt =====
-- Reading back what was counted and saved.
use wakey.Prelude.{
  Bool-cases, List, Option, String, [], arith, eq_iff, find_where, if◌then◌else◌, inl, inr, none,
  refl, some, update_where, ℕ, ◌++◌, ◌+◌, ◌==◌, ◌∷◌, ◌≡◌, Option-cases, any_where, any_where-found,
  false, ◌≢◌,
}
use wakey.Models.{Fingerprint}
use wakey.Storage.Fingerprints.{
  count_row, has_hash, merge_row, overwrite_row, get_fingerprint, save_fingerprint,
  record_occurrence,
}

-- the row that `record_occurrence` leaves in the table
abbrev pub counted_row : Fingerprint → ℕ → Option Fingerprint → Fingerprint
counted_row incoming delta none = record incoming { occurrences = incoming.occurrences + delta }
counted_row incoming delta (some row) = count_row (merge_row incoming delta row) row

-- The row that `save_fingerprint` leaves in the table: the fingerprint given, but for the key, the
-- service, the environment and the first-seen time of a row that was there.
abbrev pub saved_row : Fingerprint → Option Fingerprint → Fingerprint
saved_row fp none = fp
saved_row fp (some row) = record fp {
  fp_hash = row.fp_hash;
  service = row.service;
  environment = row.environment;
  first_seen = row.first_seen;
}

pub find-append_hash :
    (h : String) (fp : Fingerprint) (rows : List Fingerprint)
    → find_where (has_hash fp.fp_hash) rows ≡ none
    → find_where (has_hash h) (rows ++ fp ∷ [])
      ≡ (if fp.fp_hash == h then some fp else find_where (has_hash h) rows)
unfolding find_where
find-append_hash h fp [] e = refl
find-append_hash h fp (r ∷ rows) e = ground (
  arith,
  eq_iff fp.fp_hash h,
  eq_iff r.fp_hash h,
  eq_iff r.fp_hash fp.fp_hash,
  find-append_hash h fp rows,
)

find-update_ne :
    (h k : String) (f : Fingerprint → Fingerprint) (rows : List Fingerprint)
    → ((x : Fingerprint) → (f x).fp_hash ≡ x.fp_hash)
    → k ≢ h
    → find_where (has_hash h) (update_where (has_hash k) f rows) ≡ find_where (has_hash h) rows
unfolding find_where update_where
find-update_ne h k f [] same ne = refl
find-update_ne h k f (r ∷ rows) same ne =
    ground
      (arith, eq_iff r.fp_hash h, eq_iff r.fp_hash k, same r, find-update_ne h k f rows same ne)

find-update_self :
    (k : String) (f : Fingerprint → Fingerprint) (rows : List Fingerprint) (row : Fingerprint)
    → ((x : Fingerprint) → (f x).fp_hash ≡ x.fp_hash)
    → find_where (has_hash k) rows ≡ some row
    → find_where (has_hash k) (update_where (has_hash k) f rows) ≡ some (f row)
unfolding find_where update_where
find-update_self k f [] row same e = ground arith
find-update_self k f (r ∷ rows) row same e =
    ground (arith, same r, find-update_self k f rows row same)

-- An update keyed by hash, as a client reads it.
pub get-update :
    (h k : String) (f : Fingerprint → Fingerprint) (rows : List Fingerprint) (row : Fingerprint)
    → ((x : Fingerprint) → (f x).fp_hash ≡ x.fp_hash)
    → get_fingerprint k rows ≡ some row
    → get_fingerprint h (update_where (has_hash k) f rows)
      ≡ (if k == h then some (f row) else get_fingerprint h rows)
unfolding get_fingerprint
get-update h k f rows row same e = elim (Bool-cases (k == h)) [
  | inl hit ↦
      let kh : k ≡ h = (eq_iff k h).0 hit in rw (hit, ← kh) (find-update_self k f rows row same e)
  | inr miss ↦ rw miss (find-update_ne h k f rows same (λ kh. ground (arith, eq_iff k h)))
]

record_fresh :
    (h : String) (incoming : Fingerprint) (delta : ℕ) (rows : List Fingerprint)
    → get_fingerprint incoming.fp_hash rows ≡ none
    → get_fingerprint h (record_occurrence incoming delta rows).0 ≡ (
        if incoming.fp_hash == h
        then some (counted_row incoming delta none)
        else get_fingerprint h rows)
unfolding record_occurrence get_fingerprint
record_fresh h incoming delta rows e =
    rw (e, record_occurrence) (find-append_hash h (counted_row incoming delta none) rows e)

record_known :
    (h : String) (incoming : Fingerprint) (delta : ℕ) (rows : List Fingerprint) (row : Fingerprint)
    → get_fingerprint incoming.fp_hash rows ≡ some row
    → get_fingerprint h (record_occurrence incoming delta rows).0 ≡ (
        if incoming.fp_hash == h
        then some (counted_row incoming delta (some row))
        else get_fingerprint h rows)
unfolding record_occurrence get_fingerprint
record_known h incoming delta rows row e =
    rw (e, record_occurrence)
      (unfold get_fingerprint in
        get-update h incoming.fp_hash (count_row (merge_row incoming delta row)) rows row
          (λ x. refl) e)

-- After an occurrence is recorded, its fingerprint's row has `delta` more occurrences and keeps the
-- first-seen time, the lifecycle state and all ticket, proposal and verification columns that it
-- had; a new row is the incoming fingerprint with `delta` more. No other fingerprint changes.
pub get-record :
    (h : String) (incoming : Fingerprint) (delta : ℕ) (rows : List Fingerprint)
    → get_fingerprint h (record_occurrence incoming delta rows).0 ≡ (
        if incoming.fp_hash == h
        then some (counted_row incoming delta (get_fingerprint incoming.fp_hash rows))
        else get_fingerprint h rows)
get-record h incoming delta rows = elim (Option-cases (get_fingerprint incoming.fp_hash rows)) [
  | inl e ↦ rw e (record_fresh h incoming delta rows e)
  | inr (row, e) ↦ rw e (record_known h incoming delta rows row e)
]

not_any :
    (k : String) (rows : List Fingerprint)
    → get_fingerprint k rows ≡ none
    → any_where (has_hash k) rows ≡ false
unfolding get_fingerprint find_where any_where
not_any k [] e = refl
not_any k (r ∷ rows) e = ground (arith, not_any k rows)

-- After a fingerprint is saved, its row has every field that was given, but that an old row keeps
-- its service, environment and first-seen time. No other fingerprint changes.
pub get-save :
    (h : String) (fp : Fingerprint) (rows : List Fingerprint)
    → get_fingerprint h (save_fingerprint fp rows) ≡ (
        if fp.fp_hash == h
        then some (saved_row fp (get_fingerprint fp.fp_hash rows))
        else get_fingerprint h rows)
unfolding save_fingerprint
get-save h fp rows = elim (Option-cases (get_fingerprint fp.fp_hash rows)) [
  | inl e ↦
      rw (e, not_any fp.fp_hash rows e)
        (unfold get_fingerprint in find-append_hash h fp rows (unfold get_fingerprint in e))
  | inr (row, e) ↦
      rw (e, any_where-found (has_hash fp.fp_hash) rows row (unfold get_fingerprint in e))
        (get-update h fp.fp_hash (overwrite_row fp) rows row (λ x. refl) e)
]
