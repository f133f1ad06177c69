-- ===== src/Postgres/Listing.antt =====
-- The active listing, filtered in the query and behind it.
use wakey.Prelude.{
  All, Bool, List, [], arith, if◌then◌else◌, refl, select_where, ℕ, ◌∷◌, ◌≡◌, ◌≤◌, Bool-cases,
  Option, String, ap, false, inl, inr, leb, leb→le, none, not, some, true, ◌&&◌, ◌∙◌,
}
use wakey.Models.{Fingerprint}
use wakey.Storage.Fingerprints
use wakey.Storage.Fingerprints.{insert_newest, in_service, is_quiet, newest_first}
use wakey.Storage.Fingerprints.Listing.{IsNewestFirst, All-weaken, sort-IsNewestFirst}
use wakey.Postgres.Tables as Pg

-- a row that is older than all rows goes in front of them
insert_older :
    (x : Fingerprint) (ys : List Fingerprint)
    → All (λ y. y.last_seen ≤ x.last_seen) ys
    → insert_newest x ys ≡ x ∷ ys
unfolding insert_newest
insert_older x [] h = refl
insert_older x (y ∷ ys) h = ground arith

All-select :
    (n : ℕ) (p : Fingerprint → Bool) (ys : List Fingerprint)
    → All (λ y. y.last_seen ≤ n) ys
    → All (λ y. y.last_seen ≤ n) (select_where p ys)
unfolding select_where
All-select n p [] h = tt
All-select n p (y ∷ ys) h = ground (arith, All-select n p ys h.1)

select-insert :
    (p : Fingerprint → Bool) (x : Fingerprint) (ys : List Fingerprint)
    → IsNewestFirst ys
    → select_where p (insert_newest x ys)
      ≡ (if p x then insert_newest x (select_where p ys) else select_where p ys)
unfolding insert_newest select_where
select-insert p x [] h = refl
select-insert p x (y ∷ ys) h = elim (Bool-cases (leb y.last_seen x.last_seen)) [
  | inl le ↦
      let older = All-weaken y.last_seen x.last_seen ys (leb→le y.last_seen x.last_seen le) h.0 in
      let rest = insert_older x (select_where p ys) (All-select x.last_seen p ys older) in
      ground (arith, rest)
  | inr later ↦ ground (arith, select-insert p x ys h.1)
]

select-sort :
    (p : Fingerprint → Bool) (xs : List Fingerprint)
    → select_where p (newest_first xs) ≡ newest_first (select_where p xs)
unfolding newest_first select_where
select-sort p [] = refl
select-sort p (x ∷ xs) =
    select-insert p x (newest_first xs) (sort-IsNewestFirst xs)
    ∙ ap (λ ys. if p x then insert_newest x ys else ys) (select-sort p xs)
    ∙ tidy (p x)
  where
    tidy :
        (b : Bool)
        → (if b
            then insert_newest x (newest_first (select_where p xs))
            else newest_first (select_where p xs))
          ≡ newest_first (if b then x ∷ select_where p xs else select_where p xs)
    tidy true = refl
    tidy false = refl

select-select :
    (p q : Fingerprint → Bool) (xs : List Fingerprint)
    → select_where p (select_where q xs) ≡ select_where (λ x. q x && p x) xs
unfolding select_where
select-select p q [] = refl
select-select p q (x ∷ xs) = ground (arith, select-select p q xs)

select_true : (xs : List Fingerprint) → select_where (in_service none) xs ≡ xs
unfolding select_where
select_true [] = refl
select_true (x ∷ xs) = ap (◌∷◌ x) (select_true xs)

-- The active listing is the same in both backends, in its order too: Postgres filters by service in
-- the query, and SQLite what the query gave, sorted.
pub list_active-same :
    (service : Option String) (rows : List Fingerprint)
    → Fingerprints.list_active_fingerprints service rows ≡ Pg.list_active_fingerprints service rows
unfolding Fingerprints.list_active_fingerprints Pg.list_active_fingerprints
list_active-same none rows =
    select_true (newest_first (select_where (λ fp. not (is_quiet fp.state)) rows))
list_active-same (some service) rows =
    select-sort (in_service (some service)) (select_where (λ fp. not (is_quiet fp.state)) rows)
    ∙ ap newest_first
        (select-select (in_service (some service)) (λ fp. not (is_quiet fp.state)) rows)
