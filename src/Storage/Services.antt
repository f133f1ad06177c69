-- ===== src/Storage/Services.antt =====
-- core/storage.py, the `services` table. `seal` and `unseal` are the encryption of the secret box;
-- without a box they change nothing. A row is a service whose webhook secret is sealed.
pub mod RoundTrip
use wakey.Prelude.{
  Bool, List, Option, String, [], any_where, false, find_where, if◌then◌else◌, none, some, true,
  update_where, ◌++◌, ◌==◌, ◌∷◌,
}
use wakey.Models.{Service}

-- `WHERE name = ?`
abbrev pub is_named : String → Service → Bool
is_named name s = s.name == name

-- a secret that is null stays null
abbrev pub on_secret : (String → String) → Option String → Option String
on_secret f none = none
on_secret f (some secret) = some (f secret)

unfoldable pub has_services : List Service → Bool
has_services [] = false
has_services (s ∷ rows) = true

module _ (seal unseal : String → String) where
  -- what `save_service` writes
  abbrev pub service_row : Service → Service
  service_row s = record s { webhook_secret = on_secret seal s.webhook_secret }

  unfoldable pub service_from_row : Service → Service
  service_from_row row = record row { webhook_secret = on_secret unseal row.webhook_secret }

  -- the value of a query for one row
  unfoldable pub read_row : Option Service → Option Service
  unfolding service_from_row
  read_row none = none
  read_row (some row) = some (service_from_row row)

  unfoldable pub save_service : Service → List Service → List Service
  save_service s rows =
      if any_where (is_named s.name) rows
      then update_where (is_named s.name) (λ row. service_row s) rows
      else rows ++ service_row s ∷ []

  unfoldable pub get_service : String → List Service → Option Service
  unfolding read_row
  get_service name rows = read_row (find_where (is_named name) rows)

  unfoldable pub get_service_by_ingest_key_hash : String → List Service → Option Service
  unfolding read_row
  get_service_by_ingest_key_hash key_hash rows =
      read_row (find_where (λ (s : Service). s.ingest_key_hash == key_hash) rows)
