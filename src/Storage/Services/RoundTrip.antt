-- ===== src/Storage/Services/RoundTrip.antt =====
-- A service that was saved is read back.
use wakey.Prelude.{
  Bool-cases, List, Option, String, [], any_where, ap, arith, eq_iff, false, find_where,
  if◌then◌else◌, inl, inr, none, refl, some, true, update_where, update_where-none, ◌++◌, ◌==◌, ◌∷◌,
  ◌≡◌, Bool, ◌∙◌,
}
use wakey.Models.{Service}
use wakey.Storage.Services.{get_service, is_named, on_secret, save_service, service_row, read_row}

found_append :
    (name : String) (rows : List Service) (row : Service)
    → any_where (is_named row.name) rows ≡ false
    → find_where (is_named name) (rows ++ row ∷ [])
      ≡ (if row.name == name then some row else find_where (is_named name) rows)
unfolding find_where any_where
found_append name [] row h = refl
found_append name (r ∷ rows) row h = ground (
  arith,
  found_append name rows row,
  eq_iff r.name row.name,
  eq_iff r.name name,
  eq_iff row.name name,
)

found_update :
    (name : String) (rows : List Service) (row : Service)
    → any_where (is_named row.name) rows ≡ true
    → find_where (is_named name) (update_where (is_named row.name) (λ r. row) rows)
      ≡ (if row.name == name then some row else find_where (is_named name) rows)
unfolding find_where any_where update_where
found_update name [] row h = ground arith
found_update name (r ∷ rows) row h = elim (Bool-cases (any_where (is_named row.name) rows)) [
  | inl later ↦ ground (
    arith,
    found_update name rows row later,
    eq_iff r.name row.name,
    eq_iff r.name name,
    eq_iff row.name name,
  )
  | inr last ↦
      let kept = update_where-none (is_named row.name) (λ r. row) rows last in
      ground (arith, kept, eq_iff r.name row.name, eq_iff r.name name, eq_iff row.name name)
]

module _ (seal unseal : String → String) (opens : (s : String) → unseal (seal s) ≡ s) where
  opened_secret : (o : Option String) → on_secret unseal (on_secret seal o) ≡ o
  opened_secret none = refl
  opened_secret (some s) = ap some (opens s)

  found_save :
      (name : String) (s : Service) (rows : List Service)
      → find_where (is_named name) (save_service seal unseal s rows) ≡ (
          if s.name == name
          then some (service_row seal unseal s)
          else find_where (is_named name) rows)
  unfolding save_service
  found_save name s rows = elim (Bool-cases (any_where (is_named s.name) rows)) [
    | inl known ↦ rw known (found_update name rows (service_row seal unseal s) known)
    | inr fresh ↦ rw fresh (found_append name rows (service_row seal unseal s) fresh)
  ]

  -- Unsealing undoes sealing. A service that was saved is read back as it was given, its webhook
  -- secret included, and what is read for any other name is as before.
  pub get-save_service :
      (name : String) (s : Service) (rows : List Service)
      → get_service seal unseal name (save_service seal unseal s rows)
        ≡ (if s.name == name then some s else get_service seal unseal name rows)
  unfolding get_service
  get-save_service name s rows =
      ap (read_row seal unseal) (found_save name s rows) ∙ read_if (s.name == name)
    where
      read_if :
          (b : Bool)
          → read_row seal unseal
              (if b then some (service_row seal unseal s) else find_where (is_named name) rows)
            ≡ (if b then some s else get_service seal unseal name rows)
      read_if true =
          ap (λ secret. some (record s { webhook_secret = secret }))
            (opened_secret s.webhook_secret)
      read_if false = refl
