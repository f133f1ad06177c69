-- ===== src/Storage/Secrets.antt =====
-- core/storage.py, the `secrets` table, which keeps a value as it is given.
use wakey.Prelude.{
  Bool, List, Option, String, [], any_where, delete_where, find_where, if◌then◌else◌, none, some,
  update_where, ℕ, ◌++◌, ◌==◌, ◌∷◌,
}

pub record SecretRow : Type 0 where
  pub key : String
  pub value : String
  pub updated_at : ℕ

abbrev pub has_key : String → SecretRow → Bool
has_key key row = row.key == key

unfoldable pub get_secret : String → List SecretRow → Option String
get_secret key rows = elim (find_where (has_key key) rows) [
  | none ↦ none
  | some row ↦ some row.value
]

unfoldable pub set_secret : ℕ → String → String → List SecretRow → List SecretRow
set_secret now key value rows =
    if any_where (has_key key) rows
    then update_where (has_key key) (λ row. record row { value = value; updated_at = now }) rows
    else rows ++ record { key = key; value = value; updated_at = now } ∷ []

unfoldable pub delete_secret : String → List SecretRow → List SecretRow
delete_secret key = delete_where (has_key key)
