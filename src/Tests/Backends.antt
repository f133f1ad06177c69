-- ===== src/Tests/Backends.antt =====
-- storage/postgres.py beside core/storage.py: the two backends at small tables.
use wakey.Prelude.{List, [], any_where, find_where, refl, ◌∷◌, ◌≡◌}
use wakey.Models.{Fingerprint}
use wakey.Storage.Fingerprints
use wakey.Storage.Events.{claim_event}
use wakey.Postgres.Counting as Counting
use wakey.Postgres.Shortfall.{claims, held, postgres_shortfall}
use wakey.Tests.Data.{boom, empty_tables, event, fatal}

postgres_shortfall_example :
    (held "abc" (claims claim_event (event ∷ []) fatal empty_tables) ≡ 1)
    × (held "abc" (claims Counting.claim_event (event ∷ []) fatal empty_tables) ≡ 0)
postgres_shortfall_example =
    postgres_shortfall event [] fatal empty_tables (unfold any_where in (refl, tt))
      (unfold Fingerprints.get_fingerprint find_where in refl) refl

abbrev table : List Fingerprint
table = record boom { fp_hash = "a"; last_seen = 3 } ∷ fatal ∷ []
