-- ===== src/Connect/Keys.antt =====
-- The keys of the broker's tables, and what updates, deletions and insertions make of them.
use wakey.Prelude.{
  Bool, List, String, [], any_where, any_where-delete, arith, count_where, delete_where, false,
  update_where, ◌++◌, ◌==◌, ◌∷◌, ◌≡◌, ◌≤◌, any_where-update, ap, eq_iff, if◌then◌else◌, refl, true,
  ◌||◌, ◌∙◌,
}
use wakey.Connect.{Connection, RelayRow}
use wakey.Connect.Store.{is_relay}
use wakey.Connect.Revoked.{IsDistinct}

-- No two rows of the relay carry one delivery to one connection.
abbrev pub IsKeyed : List RelayRow → Type 0
IsKeyed [] = Unit
IsKeyed (row ∷ rows) =
    (any_where (is_relay row.connection row.delivery) rows ≡ false) × IsKeyed rows

-- some row has the hash
abbrev has_hash : String → List Connection → Bool
has_hash h = any_where (λ (r : Connection). r.credential == h)

pub any-either :
    (p q : Connection → Bool) (rows : List Connection)
    → any_where (λ r. p r || q r) rows ≡ (any_where p rows || any_where q rows)
unfolding any_where
any-either p q [] = refl
any-either p q (row ∷ rows) = ground (arith, any-either p q rows)

pub Distinct-delete :
    (p : Connection → Bool) (rows : List Connection)
    → IsDistinct rows
    → IsDistinct (delete_where p rows)
unfolding delete_where
Distinct-delete p [] d = tt
Distinct-delete p (row ∷ rows) d = ground (
  arith,
  any_where-delete (λ (r : Connection). r.credential == row.credential) p rows,
  Distinct-delete p rows d.1,
)

pub Distinct-update :
    (p : Connection → Bool) (f : Connection → Connection) (rows : List Connection)
    → ((r : Connection) → (f r).credential ≡ r.credential)
    → IsDistinct rows
    → IsDistinct (update_where p f rows)
unfolding update_where
Distinct-update p f [] same d = tt
Distinct-update p f (row ∷ rows) same d = (
  ap (λ h. has_hash h (update_where p f rows)) (kept (p row))
      ∙ any_where-update (λ (r : Connection). r.credential == row.credential) p f rows
          (λ r. ap (λ h. h == row.credential) (same r))
      ∙ d.0,
  Distinct-update p f rows same d.1,
)
  where
    kept : (b : Bool) → (if b then f row else row).credential ≡ row.credential
    kept true = same row
    kept false = refl

has_hash-append :
    (h : String) (row : Connection) (rows : List Connection)
    → has_hash h (rows ++ row ∷ []) ≡ (has_hash h rows || row.credential == h)
unfolding any_where
has_hash-append h row [] = ground arith
has_hash-append h row (r ∷ rows) = ground (arith, has_hash-append h row rows)

pub Distinct-append :
    (row : Connection) (rows : List Connection)
    → any_where (λ (r : Connection). r.credential == row.credential) rows ≡ false
    → IsDistinct rows
    → IsDistinct (rows ++ row ∷ [])
unfolding any_where
Distinct-append row [] e d = ground arith
Distinct-append row (r ∷ rows) e d =
    let far = has_hash-append r.credential row rows in
    ground (
      arith,
      eq_iff r.credential row.credential,
      eq_iff row.credential r.credential,
      far,
      Distinct-append row rows,
    )

pub Keyed-delete :
    (p : RelayRow → Bool) (rows : List RelayRow) → IsKeyed rows → IsKeyed (delete_where p rows)
unfolding delete_where
Keyed-delete p [] k = tt
Keyed-delete p (row ∷ rows) k =
    ground (
      arith,
      any_where-delete (is_relay row.connection row.delivery) p rows,
      Keyed-delete p rows k.1,
    )

pub count-delete :
    (q p : RelayRow → Bool) (rows : List RelayRow)
    → count_where q (delete_where p rows) ≤ count_where q rows
unfolding count_where delete_where
count-delete q p [] = omega arith
count-delete q p (row ∷ rows) = ground (arith, count-delete q p rows)

pub count-update :
    (q p : RelayRow → Bool) (f : RelayRow → RelayRow) (rows : List RelayRow)
    → ((r : RelayRow) → q r ≡ false → q (f r) ≡ false)
    → count_where q (update_where p f rows) ≤ count_where q rows
unfolding count_where update_where
count-update q p f [] keep = omega arith
count-update q p f (row ∷ rows) keep = ground (arith, keep row, count-update q p f rows keep)

pub Keyed-acknowledge :
    (identity delivery : String) (rows : List RelayRow)
    → IsKeyed rows
    → IsKeyed
        (update_where (is_relay identity delivery) (λ row. record row { acknowledged = true }) rows)
unfolding update_where
Keyed-acknowledge identity delivery [] k = tt
Keyed-acknowledge identity delivery (row ∷ rows) k =
    let same =
      any_where-update (is_relay row.connection row.delivery) (is_relay identity delivery)
        (λ r. record r { acknowledged = true }) rows (λ r. refl) in
    ground (arith, same, Keyed-acknowledge identity delivery rows k.1)

has_relay-append :
    (identity delivery : String) (row : RelayRow) (rows : List RelayRow)
    → any_where (is_relay identity delivery) (rows ++ row ∷ [])
      ≡ (any_where (is_relay identity delivery) rows || is_relay identity delivery row)
unfolding any_where
has_relay-append identity delivery row [] = ground arith
has_relay-append identity delivery row (r ∷ rows) =
    ground (arith, has_relay-append identity delivery row rows)

pub Keyed-append :
    (row : RelayRow) (rows : List RelayRow)
    → any_where (is_relay row.connection row.delivery) rows ≡ false
    → IsKeyed rows
    → IsKeyed (rows ++ row ∷ [])
unfolding any_where
Keyed-append row [] e k = ground arith
Keyed-append row (r ∷ rows) e k =
    let far = has_relay-append r.connection r.delivery row rows in
    ground (
      arith,
      eq_iff r.connection row.connection,
      eq_iff row.connection r.connection,
      eq_iff r.delivery row.delivery,
      eq_iff row.delivery r.delivery,
      far,
      Keyed-append row rows,
    )
