-- ===== src/Windows/Bounds.antt =====
-- The counters stay bounded, and the newest key is never the one evicted.
use wakey.Prelude.{
  List, String, [], arith, length, ℕ, ◌∷◌, ◌≤◌, eq_refl, none, refl, some, ◌++◌, ◌≡◌,
}
use wakey.Prelude.Assoc.{remove, lookup, lookup-append_last, lookup-remove}
use wakey.Windows.{Counters, evict_over_limit, record_time, refresh, times}

length-evict-le :
    (max_keys : ℕ) (m : List (String × List ℕ)) → length (evict_over_limit max_keys m) ≤ max_keys
unfolding evict_over_limit
length-evict-le max_keys [] = omega arith
length-evict-le max_keys (e ∷ m) = ground (arith, length-evict-le max_keys m)

-- After a time is recorded at most `max_keys` keys are tracked, whatever was tracked before.
pub length-record-le :
    (c : Counters) (key : String) (ts : ℕ) → length (record_time c key ts).windows ≤ c.max_keys
unfolding record_time
length-record-le c key ts = length-evict-le c.max_keys _

length-remove-le : (key : String) (m : List (String × List ℕ)) → length (remove key m) ≤ length m
unfolding remove
length-remove-le key [] = omega arith
length-remove-le key ((j, w) ∷ m) = ground (arith, length-remove-le key m)

evict-last :
    (max_keys : ℕ) (key : String) (w : List ℕ) (m : List (String × List ℕ))
    → 1 ≤ max_keys
    → lookup key m ≡ none
    → lookup key (evict_over_limit max_keys (m ++ (key, w) ∷ [])) ≡ some w
unfolding evict_over_limit lookup
evict-last max_keys key w [] le e = ground (arith, eq_refl key)
evict-last max_keys key w ((j, v) ∷ m) le e =
    ground (arith, evict-last max_keys key w m, lookup-append_last key key w m, eq_refl key)

-- If one key at least may be tracked, the key just recorded is, however many others were: its
-- window is the one that it had, without what has expired, and the new time behind it.
pub record-newest :
    (c : Counters) (key : String) (ts : ℕ)
    → 1 ≤ c.max_keys
    → lookup key (record_time c key ts).windows
      ≡ some (times (lookup key (refresh c key ts)) ++ ts ∷ [])
unfolding record_time
record-newest c key ts le =
    evict-last c.max_keys key _ (remove key (refresh c key ts)) le
      (rw (lookup-remove key key (refresh c key ts), eq_refl key) refl)
