-- ===== src/Tests/Tables.antt =====
-- core/storage.py: the deliveries, fingerprints and events at small tables.
use wakey.Prelude.{
  leb, List, String, [], count_where, find_where, if◌then◌else◌, none, not, refl, select_where,
  some, ℕ, ◌&&◌, ◌+◌, ◌==◌, ◌∷◌, ◌≡◌, ◌⊎◌, any_where,
}
use wakey.Models.{
  failed, Delivery, Fingerprint, WorkState, dropped, new, opened, pending, processing, Service,
}
use wakey.Storage.Deliveries.{claim_next_delivery, is_row, oldest_pending}
use wakey.Storage.Deliveries.Claiming.{HasNoPending, IsClaim, claim_next_lem}
use wakey.Storage.Deliveries.Retrying.{fail_bounded, fail_times}
use wakey.Storage.Fingerprints.{
  get_fingerprint, in_service, insert_newest, is_quiet, list_active_fingerprints, newest_first,
  record_occurrence,
}
use wakey.Storage.Fingerprints.Listing.{IsNewestFirst, list_active_lem}
use wakey.Storage.Events.{claim_event, save_log_event}
use wakey.Storage.Events.Counting.{claim-IsCounted}
use wakey.Storage.Events.Occurrences.{IsCounted}
use wakey.Storage.Services.{get_service, save_service}
use wakey.Storage.Services.RoundTrip.{get-save_service}
use wakey.Tests.Data.{boom, delivery, empty_tables, event, fatal, queue}

next_delivery_example :
    ((claim_next_delivery 30 queue ≡ (queue, none)) × HasNoPending queue)
    ⊎ ((after : List Delivery) × (d : Delivery) × (claim_next_delivery 30 queue ≡ (after, some d))
        × IsClaim 30 queue after d)
next_delivery_example = claim_next_lem 30 queue (unfold any_where in (refl, (refl, (refl, tt))))

claims_oldest : (claim_next_delivery 30 queue).1 ≡ some (delivery "d1" 4 processing)
unfolding claim_next_delivery oldest_pending
claims_oldest = refl

fail_bounded_example :
    (rows' : List Delivery) × (d' : Delivery) × (fail_times 3 40 "shop" "d1" 3 queue ≡ some rows')
    × (find_where (is_row "shop" "d1") rows' ≡ some d')
    × (d'.attempts ≡ 0 + 3)
    × (d'.state ≡ (if leb 3 (0 + 3) then failed else pending))
    × (d'.payload ≡ "{}")
fail_bounded_example =
    fail_bounded 2 40 "shop" "d1" 3 queue (delivery "d1" 4 pending) (unfold find_where in refl)

abbrev seen : String → ℕ → WorkState → Fingerprint
seen h at state = record boom { fp_hash = h; last_seen = at; state = state }

abbrev table : List Fingerprint
table = seen "a" 3 new ∷ seen "b" 9 dropped ∷ seen "c" 8 opened ∷ []

list_active_example :
    IsNewestFirst (list_active_fingerprints none table)
    × (count_where (λ fp. fp.fp_hash == "c") (list_active_fingerprints none table)
        ≡ count_where
            (λ fp. (fp.fp_hash == "c" && in_service none fp) && not (is_quiet fp.state))
            table)
list_active_example = list_active_lem none table (λ fp. fp.fp_hash == "c")

lists_newest : list_active_fingerprints none table ≡ seen "c" 8 opened ∷ seen "a" 3 new ∷ []
unfolding list_active_fingerprints newest_first insert_newest select_where
lists_newest = refl

empty-IsCounted : IsCounted empty_tables
empty-IsCounted h = unfold get_fingerprint find_where count_where in refl

claim_counted_example : IsCounted (claim_event event fatal empty_tables).0
claim_counted_example = claim-IsCounted event fatal empty_tables refl tt empty-IsCounted

claims_one : (claim_event event fatal empty_tables).1.occurrences ≡ 1
unfolding claim_event save_log_event record_occurrence get_fingerprint find_where any_where
claims_one = refl

abbrev shop : Service
shop = record {
  name = "shop";
  repo = "krakujs/shop";
  path = ".";
  forge = "github";
  environment = "prod";
  ingest_key_hash = "k";
  webhook_secret = some "s3cret";
  config_json = "{}";
}

-- a box that marks what it has sealed
abbrev seal : String → String
seal secret = String.◌∷◌ "v" secret

abbrev unseal : String → String
unseal String.[] = ""
unseal (String.◌∷◌ mark secret) = secret

opens : (s : String) → unseal (seal s) ≡ s
opens s = refl

get_save_service_example :
    get_service seal unseal "shop" (save_service seal unseal shop (shop ∷ []))
    ≡ (if "shop" == "shop" then some shop else get_service seal unseal "shop" (shop ∷ []))
get_save_service_example = get-save_service seal unseal opens "shop" shop (shop ∷ [])
