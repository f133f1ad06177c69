-- ===== src/Connect/Offers.antt =====
-- What a deployment is offered.
use wakey.Prelude.{
  All, Bool, Bool-cases, List, String, [], arith, false, if◌then◌else◌, inl, inr, leb, leb→le,
  length, select_where, suc, take, true, zero, ℕ, ◌∷◌, ◌≡◌, ◌≤◌, ap, length-take-le, sym, ◌∙◌,
}
use wakey.Connect.{Broker, Connection, RelayRow, told, denied, is_connected}
use wakey.Connect.Store.{by_created, events, insert_created, is_offered, read, offer, on_row}

-- The rows stand in the order of their times.
abbrev pub IsOldestFirst : List RelayRow → Type 0
IsOldestFirst [] = Unit
IsOldestFirst (row ∷ rows) = All (λ r. row.created ≤ r.created) rows × IsOldestFirst rows

All-earlier :
    (n m : ℕ) (rows : List RelayRow)
    → m ≤ n
    → All (λ r. n ≤ r.created) rows
    → All (λ r. m ≤ r.created) rows
All-earlier n m [] h all = tt
All-earlier n m (r ∷ rows) h all = ground (arith, All-earlier n m rows h all.1)

All-insert :
    (P : RelayRow → Type 0) (x : RelayRow) (rows : List RelayRow)
    → P x
    → All P rows
    → All P (insert_created x rows)
unfolding insert_created
All-insert P x [] p all = (p, tt)
All-insert P x (r ∷ rows) p all = placed (leb x.created r.created) (All-insert P x rows p all.1)
  where
    placed :
        (b : Bool)
        → All P (insert_created x rows)
        → All P (if b then x ∷ r ∷ rows else r ∷ insert_created x rows)
    placed true rest = (p, all)
    placed false rest = (all.0, rest)

insert-IsOldestFirst :
    (x : RelayRow) (rows : List RelayRow)
    → IsOldestFirst rows
    → IsOldestFirst (insert_created x rows)
unfolding insert_created
insert-IsOldestFirst x [] o = ground arith
insert-IsOldestFirst x (r ∷ rows) o = elim (Bool-cases (leb x.created r.created)) [
  | inl before ↦
      let all = All-earlier r.created x.created rows (leb→le x.created r.created before) o.0 in
      ground arith
  | inr after ↦
      let le : r.created ≤ x.created = ground arith in
      let all = All-insert (λ q. r.created ≤ q.created) x rows le o.0 in
      let rest = insert-IsOldestFirst x rows o.1 in ground arith
]

sorted-IsOldestFirst : (rows : List RelayRow) → IsOldestFirst (by_created rows)
unfolding by_created
sorted-IsOldestFirst [] = tt
sorted-IsOldestFirst (r ∷ rows) =
    insert-IsOldestFirst r (by_created rows) (sorted-IsOldestFirst rows)

sorted-All : (P : RelayRow → Type 0) (rows : List RelayRow) → All P rows → All P (by_created rows)
unfolding by_created
sorted-All P [] all = tt
sorted-All P (r ∷ rows) all = All-insert P r (by_created rows) all.0 (sorted-All P rows all.1)

take-All : (P : RelayRow → Type 0) (n : ℕ) (rows : List RelayRow) → All P rows → All P (take n rows)
unfolding take
take-All P zero rows all = tt
take-All P (suc n) [] all = tt
take-All P (suc n) (r ∷ rows) all = (all.0, take-All P n rows all.1)

take-IsOldestFirst :
    (n : ℕ) (rows : List RelayRow) → IsOldestFirst rows → IsOldestFirst (take n rows)
unfolding take
take-IsOldestFirst zero rows o = tt
take-IsOldestFirst (suc n) [] o = tt
take-IsOldestFirst (suc n) (r ∷ rows) o =
    (take-All (λ q. r.created ≤ q.created) n rows o.0, take-IsOldestFirst n rows o.1)

selected-All :
    (p : RelayRow → Bool) (rows : List RelayRow) → All (λ r. p r ≡ true) (select_where p rows)
unfolding select_where
selected-All p [] = tt
selected-All p (r ∷ rows) = ground (arith, selected-All p rows)

offer-told :
    (later : ℕ) (s : Broker) (row : Connection) (rows : List RelayRow) (b : Bool)
    → (if b
        then told (take 25 (by_created (select_where (is_offered row.id later) s.relay)))
        else denied "select a repository first")
      ≡ told rows
    → take 25 (by_created (select_where (is_offered row.id later) s.relay)) ≡ rows
offer-told later s row rows b e = ground arith

-- What a credential is offered are rows of its own connection, which no one has acknowledged and
-- which are no older than a day, at most 25 of them, the oldest first.
pub events_lem :
    (hash_token : String → String) (credential : String) (now later : ℕ) (s : Broker)
    (row : Connection) (rows : List RelayRow)
    → read hash_token credential now s ≡ told row
    → events hash_token credential now later s ≡ told rows
    → All (λ r. is_offered row.id later r ≡ true) rows × IsOldestFirst rows × (length rows ≤ 25)
unfolding events
events_lem hash_token credential now later s row rows opened e =
    let offered = select_where (is_offered row.id later) s.relay in
    let same =
      offer-told later s row rows (is_connected row.state)
        (sym (ap (on_row hash_token (offer hash_token later s)) opened) ∙ e) in
    let own = selected-All (is_offered row.id later) s.relay in
    coe 0 1
      (i.
        All (λ r. is_offered row.id later r ≡ true) (same i)
        × IsOldestFirst (same i)
        × (length (same i) ≤ 25))
      (
        take-All (λ r. is_offered row.id later r ≡ true) 25 (by_created offered)
            (sorted-All (λ r. is_offered row.id later r ≡ true) offered own),
        take-IsOldestFirst 25 (by_created offered) (sorted-IsOldestFirst offered),
        length-take-le 25 (by_created offered),
      )
