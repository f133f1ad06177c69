-- ===== src/Windows.antt =====
-- fingerprints/windows.py: sliding-window occurrence counters. A time and the width of the window
-- are in one unit; the source's are float seconds.
pub mod Refinement
pub mod Bounds
use wakey.Prelude.{
  Bool, List, Option, String, [], if◌then◌else◌, leb, length, ltb, none, some, ℕ, ◌++◌, ◌+◌, ◌∷◌,
}
use wakey.Prelude.Assoc.{lookup, remove, replace}

-- The dictionary is in order of recency, least recently seen first; each window has its oldest
-- time first.
pub record Counters : Type 0 where
  pub window_seconds : ℕ
  pub max_keys : ℕ
  pub windows : List (String × List ℕ)

-- `window[0] < now - window_seconds`, with nothing subtracted
abbrev pub is_expired : ℕ → ℕ → ℕ → Bool
is_expired width now t = ltb (t + width) now

-- the `while` loop of `_drop_expired`
unfoldable pub drop_old : ℕ → ℕ → List ℕ → List ℕ × ℕ
drop_old width now [] = ([], 0)
drop_old width now (t ∷ ts) =
    let (kept, dropped) = drop_old width now ts in
    if is_expired width now t then (kept, dropped + 1) else (t ∷ ts, 0)

abbrev pub store_window : String → List ℕ → List (String × List ℕ) → List (String × List ℕ)
store_window key [] windows = remove key windows
store_window key (t ∷ ts) windows = replace key (t ∷ ts) windows

-- `_drop_expired`: the windows after it, and the number of times dropped
unfoldable pub drop_expired :
    ℕ → String → List ℕ → ℕ → List (String × List ℕ) → List (String × List ℕ) × ℕ
unfolding drop_old
drop_expired width key window now windows =
    let (kept, dropped) = drop_old width now window in (store_window key kept windows, dropped)

-- `_evict_over_limit`: `popitem(last=False)` while there are too many keys
unfoldable pub evict_over_limit : ℕ → List (String × List ℕ) → List (String × List ℕ)
evict_over_limit max_keys [] = []
evict_over_limit max_keys (entry ∷ windows) =
    if ltb max_keys (length (entry ∷ windows))
    then evict_over_limit max_keys windows
    else entry ∷ windows

-- the first half of `record`: what has expired of the key's window is dropped
unfoldable pub refresh : Counters → String → ℕ → List (String × List ℕ)
unfolding drop_expired
refresh c key now = elim (lookup key c.windows) [
  | none ↦ c.windows
  | some window ↦ (drop_expired c.window_seconds key window now c.windows).0
]

abbrev pub times : Option (List ℕ) → List ℕ
times none = []
times (some window) = window

unfoldable pub record_time : Counters → String → ℕ → Counters
unfolding evict_over_limit
record_time c key ts =
    let fresh = refresh c key ts in
    record c {
      windows =
          evict_over_limit c.max_keys
            (remove key fresh ++ (key, times (lookup key fresh) ++ ts ∷ []) ∷ []);
    }

unfoldable pub count_in_window : Counters → String → ℕ → Counters × ℕ
count_in_window c key now =
    let fresh = refresh c key now in
    (record c { windows = fresh }, length (times (lookup key fresh)))

-- the loop of `prune`, over the keys that there were at its start
unfoldable pub prune_keys :
    ℕ → ℕ → List (String × List ℕ) → List (String × List ℕ) → List (String × List ℕ) × ℕ
prune_keys width now [] windows = (windows, 0)
prune_keys width now ((key, window) ∷ entries) windows =
    let (after, dropped) = drop_expired width key window now windows in
    let (final, more) = prune_keys width now entries after in (final, dropped + more)

unfoldable pub prune : Counters → ℕ → Counters × ℕ
unfolding prune_keys
prune c now =
    let (windows, dropped) = prune_keys c.window_seconds now c.windows c.windows in
    (record c { windows = windows }, dropped)

-- The times of a key's window.
abbrev pub window_of : Counters → String → List ℕ
window_of c key = times (lookup key c.windows)

-- A time that has not expired at `now`: it is at most the width older. A time later than `now` is one.
abbrev pub is_unexpired : ℕ → ℕ → ℕ → Bool
is_unexpired width now t = leb now (t + width)
