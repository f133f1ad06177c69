-- ===== src/Storage/Fingerprints/Listing.antt =====
-- What the active listing shows, and in which order.
use wakey.Prelude.{
  All, List, [], ◌∷◌, ◌≤◌, Bool, Option, String, arith, count_where, if◌then◌else◌, not, refl,
  select_where, ℕ, ◌&&◌, ◌+◌, ◌∙◌, ◌≡◌,
}
use wakey.Models.{Fingerprint}
use wakey.Storage.Fingerprints.{
  in_service, insert_newest, is_quiet, list_active_fingerprints, newest_first,
}

-- Newest first.
abbrev pub IsNewestFirst : List Fingerprint → Type 0
IsNewestFirst [] = Unit {0}
IsNewestFirst (x ∷ xs) = All (λ y. y.last_seen ≤ x.last_seen) xs × IsNewestFirst xs

All-insert :
    (n : ℕ) (x : Fingerprint) (ys : List Fingerprint)
    → x.last_seen ≤ n
    → All (λ y. y.last_seen ≤ n) ys
    → All (λ y. y.last_seen ≤ n) (insert_newest x ys)
unfolding insert_newest
All-insert n x [] le h = (le, tt)
All-insert n x (y ∷ ys) le h = ground (arith, All-insert n x ys le h.1)

pub All-weaken :
    (m n : ℕ) (ys : List Fingerprint)
    → m ≤ n
    → All (λ y. y.last_seen ≤ m) ys
    → All (λ y. y.last_seen ≤ n) ys
All-weaken m n [] le h = tt
All-weaken m n (y ∷ ys) le h = (omega arith, All-weaken m n ys le h.1)

insert-IsNewestFirst :
    (x : Fingerprint) (ys : List Fingerprint)
    → IsNewestFirst ys
    → IsNewestFirst (insert_newest x ys)
unfolding insert_newest
insert-IsNewestFirst x [] h = (tt, tt)
insert-IsNewestFirst x (y ∷ ys) h = ground (
  arith,
  All-weaken y.last_seen x.last_seen ys,
  All-insert y.last_seen x ys,
  insert-IsNewestFirst x ys h.1,
)

pub sort-IsNewestFirst : (xs : List Fingerprint) → IsNewestFirst (newest_first xs)
unfolding newest_first
sort-IsNewestFirst [] = tt
sort-IsNewestFirst (x ∷ xs) = insert-IsNewestFirst x (newest_first xs) (sort-IsNewestFirst xs)

count-insert :
    (q : Fingerprint → Bool) (x : Fingerprint) (ys : List Fingerprint)
    → count_where q (insert_newest x ys) ≡ (if q x then 1 else 0) + count_where q ys
unfolding insert_newest count_where
count-insert q x [] = refl
count-insert q x (y ∷ ys) = ground (arith, count-insert q x ys)

count-sort :
    (q : Fingerprint → Bool) (xs : List Fingerprint)
    → count_where q (newest_first xs) ≡ count_where q xs
unfolding newest_first count_where
count-sort q [] = refl
count-sort q (x ∷ xs) = omega (arith, count-insert q x (newest_first xs), count-sort q xs)

count-select :
    (q p : Fingerprint → Bool) (xs : List Fingerprint)
    → count_where q (select_where p xs) ≡ count_where (λ x. q x && p x) xs
unfolding select_where count_where
count-select q p [] = refl
count-select q p (x ∷ xs) = ground (arith, count-select q p xs)

All-select :
    (p : Fingerprint → Bool) (n : ℕ) (xs : List Fingerprint)
    → All (λ y. y.last_seen ≤ n) xs
    → All (λ y. y.last_seen ≤ n) (select_where p xs)
unfolding select_where
All-select p n [] h = tt
All-select p n (x ∷ xs) h = ground (arith, All-select p n xs h.1)

select-IsNewestFirst :
    (p : Fingerprint → Bool) (xs : List Fingerprint)
    → IsNewestFirst xs
    → IsNewestFirst (select_where p xs)
unfolding select_where
select-IsNewestFirst p [] h = tt
select-IsNewestFirst p (x ∷ xs) h =
    ground (arith, All-select p x.last_seen xs h.0, select-IsNewestFirst p xs h.1)

-- The active listing is in order of last sighting, newest first, and has each row of the table as
-- often as the table does if the row is in no quiet state and in the service asked for, and not at
-- all otherwise.
pub list_active_lem :
    (service : Option String) (rows : List Fingerprint) (q : Fingerprint → Bool)
    → IsNewestFirst (list_active_fingerprints service rows)
      × (count_where q (list_active_fingerprints service rows)
          ≡ count_where (λ fp. (q fp && in_service service fp) && not (is_quiet fp.state)) rows)
unfolding list_active_fingerprints
list_active_lem service rows q =
    let live = select_where (λ fp. not (is_quiet fp.state)) rows in
    (
      select-IsNewestFirst (in_service service) (newest_first live) (sort-IsNewestFirst live),
      count-select q (in_service service) (newest_first live)
          ∙ count-sort (λ fp. q fp && in_service service fp) live
          ∙ count-select (λ fp. q fp && in_service service fp) (λ fp. not (is_quiet fp.state)) rows,
    )
