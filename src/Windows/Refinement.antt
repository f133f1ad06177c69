-- ===== src/Windows/Refinement.antt =====
-- The counters against a plain count of the recorded times that have not expired.
use wakey.Prelude.{
  leb, sym, All, List, [], arith, count_where, length, refl, ℕ, ◌+◌, ◌∷◌, ◌≡◌, ◌≤◌, Bool-cases,
  Option-cases, String, ap, eq_iff, eq_refl, if◌then◌else◌, inl, inr, none, some, ◌==◌, ◌∙◌, Bool,
  ◌++◌,
}
use wakey.Prelude.Assoc.{lookup, lookup-remove, lookup-replace, lookup-append_last, remove}
use wakey.Windows.{
  drop_old, is_expired, is_unexpired, Counters, count_in_window, refresh, times, window_of,
  evict_over_limit, record_time, store_window,
}

-- Oldest first.
abbrev pub IsOldestFirst : List ℕ → Type 0
IsOldestFirst [] = Unit {0}
IsOldestFirst (t ∷ ts) = All (λ u. t ≤ u) ts × IsOldestFirst ts

All-recent :
    (width now t : ℕ) (ts : List ℕ)
    → All (λ u. t ≤ u) ts
    → now ≤ t + width
    → count_where (is_unexpired width now) ts ≡ length ts
unfolding count_where
All-recent width now t [] h le = refl
All-recent width now t (u ∷ ts) h le = ground (arith, All-recent width now t ts h.1 le)

-- Of a window with its oldest time first, dropping keeps exactly the times in the window.
length-drop_old :
    (width now : ℕ) (ts : List ℕ)
    → IsOldestFirst ts
    → length (drop_old width now ts).0 ≡ count_where (is_unexpired width now) ts
unfolding drop_old count_where
length-drop_old width now [] h = refl
length-drop_old width now (t ∷ ts) h =
    ground (arith, All-recent width now t ts h.0, length-drop_old width now ts h.1)

-- What is dropped at `now` is in no later window.
count-drop_old :
    (width now later : ℕ) (ts : List ℕ)
    → now ≤ later
    → count_where (is_unexpired width later) (drop_old width now ts).0
      ≡ count_where (is_unexpired width later) ts
unfolding drop_old count_where
count-drop_old width now later [] le = refl
count-drop_old width now later (t ∷ ts) le = ground (arith, count-drop_old width now later ts)

times-store :
    (key j : String) (kept window : List ℕ) (m : List (String × List ℕ))
    → lookup key m ≡ some window
    → times (lookup j (store_window key kept m)) ≡ (if key == j then kept else times (lookup j m))
times-store key j [] window m e = rw (lookup-remove key j m) (ground arith)
times-store key j (t ∷ ts) window m e = rw (lookup-replace key j (t ∷ ts) window m e) (ground arith)

refresh-none :
    (c : Counters) (key : String) (now : ℕ)
    → lookup key c.windows ≡ none
    → refresh c key now ≡ c.windows
unfolding refresh
refresh-none c key now e = rw (e, refresh)

refresh-some :
    (c : Counters) (key : String) (now : ℕ) (window : List ℕ)
    → lookup key c.windows ≡ some window
    → refresh c key now ≡ store_window key (drop_old c.window_seconds now window).0 c.windows
unfolding refresh
refresh-some c key now window e = rw (e, refresh)

-- The windows after a refresh: that of the key without its expired times, the others as they were.
pub times-refresh :
    (c : Counters) (key j : String) (now : ℕ)
    → times (lookup j (refresh c key now))
      ≡ (if key == j then (drop_old c.window_seconds now (window_of c key)).0 else window_of c j)
times-refresh c key j now = elim (Option-cases (lookup key c.windows)) [
  | inl e ↦
      rw (refresh-none c key now e, e)
        (elim (Bool-cases (key == j)) [
          | inl hit ↦
              let same : key ≡ j = (eq_iff key j).0 hit in
              rw (hit, ← same) (unfold drop_old in ap times e)
          | inr miss ↦ rw miss
        ])
  | inr (window, e) ↦
      rw (refresh-some c key now window e, e) (times-store key j _ window c.windows e)
]

-- The number that a count returns is the number of the key's times that are at most the width of the
-- window older than `now` (a time exactly that old counts, and so does a time later than `now`), and
-- a count leaves every key's number of such times at any later `now` as it was. The key's window has
-- its oldest time first.
pub count_lem :
    (c : Counters) (key j : String) (now later : ℕ)
    → IsOldestFirst (window_of c key)
    → now ≤ later
    → ((count_in_window c key now).1
        ≡ count_where (is_unexpired c.window_seconds now) (window_of c key))
      × (count_where
            (is_unexpired c.window_seconds later)
            (window_of (count_in_window c key now).0 j)
          ≡ count_where (is_unexpired c.window_seconds later) (window_of c j))
unfolding count_in_window
count_lem c key j now later h le = (
  ap length (times-refresh c key key now ∙ rw (eq_refl key) refl)
      ∙ length-drop_old c.window_seconds now (window_of c key) h,
  rw (times-refresh c key j now) (elim (Bool-cases (key == j)) [
    | inl hit ↦
        let same : key ≡ j = (eq_iff key j).0 hit in
        rw (hit, ← same) (count-drop_old c.window_seconds now later (window_of c key) le)
    | inr miss ↦ rw miss
  ]),
)

count-append :
    (p : ℕ → Bool) (xs : List ℕ) (t : ℕ)
    → count_where p (xs ++ t ∷ []) ≡ (if p t then 1 else 0) + count_where p xs
unfolding count_where
count-append p [] t = ground arith
count-append p (x ∷ xs) t = omega (arith, count-append p xs t)

evict_within :
    (max_keys : ℕ) (m : List (String × List ℕ))
    → length m ≤ max_keys
    → evict_over_limit max_keys m ≡ m
unfolding evict_over_limit
evict_within max_keys [] le = refl
evict_within max_keys (e ∷ m) le = ground arith

lookup-last :
    (key j : String) (v : List ℕ) (m : List (String × List ℕ))
    → lookup j (remove key m ++ (key, v) ∷ []) ≡ (if key == j then some v else lookup j m)
lookup-last key j v m =
    rw (lookup-append_last j key v (remove key m) (rw (lookup-remove key key m, eq_refl key) refl))
      (rw (lookup-remove key j m) (ground arith))

-- the table that `record` has before it evicts
abbrev pub recorded : Counters → String → ℕ → List (String × List ℕ)
recorded c key ts =
    remove key (refresh c key ts) ++ (key, times (lookup key (refresh c key ts)) ++ ts ∷ []) ∷ []

-- the window of a key after a time is recorded
window-record :
    (c : Counters) (key j : String) (ts : ℕ)
    → length (recorded c key ts) ≤ c.max_keys
    → window_of (record_time c key ts) j ≡ (
        if key == j
        then (drop_old c.window_seconds ts (window_of c key)).0 ++ ts ∷ []
        else window_of c j)
unfolding record_time
window-record c key j ts room = rw (evict_within c.max_keys (recorded c key ts) room) (
    rw (lookup-last key j (times (lookup key (refresh c key ts)) ++ ts ∷ []) (refresh c key ts))
      (elim (Bool-cases (key == j)) [
        | inl hit ↦ rw hit (rw (times-refresh c key key ts, eq_refl key) refl)
        | inr miss ↦ rw (miss, times-refresh c key j ts, miss) refl
      ]))

-- With room for the key, recording a time adds one to the key's unexpired times at every later `now`
-- at which that time has not expired.
pub times-record :
    (c : Counters) (key j : String) (ts later : ℕ)
    → length (recorded c key ts) ≤ c.max_keys
    → ts ≤ later
    → count_where (is_unexpired c.window_seconds later) (window_of (record_time c key ts) j)
      ≡ (if key == j then (if is_unexpired c.window_seconds later ts then 1 else 0) else 0)
        + count_where (is_unexpired c.window_seconds later) (window_of c j)
times-record c key j ts later room le =
    rw (window-record c key j ts room) (elim (Bool-cases (key == j)) [
      | inl hit ↦
          let same : key ≡ j = (eq_iff key j).0 hit in
          rw (hit, ← same)
            (count-append (is_unexpired c.window_seconds later)
                (drop_old c.window_seconds ts (window_of c key)).0 ts
              ∙ ap (λ (n : ℕ). (if is_unexpired c.window_seconds later ts then 1 else 0) + n)
                  (count-drop_old c.window_seconds ts later (window_of c key) le))
      | inr miss ↦ rw miss (omega arith)
    ])

All-drop_old :
    (P : ℕ → Type 0) (width now : ℕ) (ts : List ℕ) → All P ts → All P (drop_old width now ts).0
unfolding drop_old
All-drop_old P width now [] h = tt
All-drop_old P width now (t ∷ ts) h = elim (Bool-cases (is_expired width now t)) [
  | inl old ↦ rw old (All-drop_old P width now ts h.1)
  | inr young ↦ rw young h
]

drop_old-IsOldestFirst :
    (width now : ℕ) (ts : List ℕ) → IsOldestFirst ts → IsOldestFirst (drop_old width now ts).0
unfolding drop_old
drop_old-IsOldestFirst width now [] h = tt
drop_old-IsOldestFirst width now (t ∷ ts) h = elim (Bool-cases (is_expired width now t)) [
  | inl old ↦ rw old (drop_old-IsOldestFirst width now ts h.1)
  | inr young ↦ rw young h
]

All-append_last : (P : ℕ → Type 0) (ts : List ℕ) (t : ℕ) → All P ts → P t → All P (ts ++ t ∷ [])
All-append_last P [] t h p = (p, tt)
All-append_last P (u ∷ ts) t h p = (h.0, All-append_last P ts t h.1 p)

append_last-IsOldestFirst :
    (ts : List ℕ) (t : ℕ) → IsOldestFirst ts → All (λ u. u ≤ t) ts → IsOldestFirst (ts ++ t ∷ [])
append_last-IsOldestFirst [] t h le = (tt, tt)
append_last-IsOldestFirst (u ∷ ts) t h le =
    (All-append_last (λ v. u ≤ v) ts t h.0 le.0, append_last-IsOldestFirst ts t h.1 le.1)

-- Recording a time that is no earlier than the key's times keeps every window oldest first.
pub record-IsOldestFirst :
    (c : Counters) (key j : String) (ts : ℕ)
    → length (recorded c key ts) ≤ c.max_keys
    → IsOldestFirst (window_of c j)
    → All (λ u. u ≤ ts) (window_of c j)
    → IsOldestFirst (window_of (record_time c key ts) j)
record-IsOldestFirst c key j ts room h le =
    rw (window-record c key j ts room) (elim (Bool-cases (key == j)) [
      | inl hit ↦
          let same : key ≡ j = (eq_iff key j).0 hit in
          rw (hit, same)
            (append_last-IsOldestFirst (drop_old c.window_seconds ts (window_of c j)).0 ts
              (drop_old-IsOldestFirst c.window_seconds ts (window_of c j) h)
              (All-drop_old (λ u. u ≤ ts) c.window_seconds ts (window_of c j) le))
      | inr miss ↦ rw miss h
    ])

-- A count keeps what holds of the key's times, and their order.
pub count-All :
    (P : ℕ → Type 0) (c : Counters) (key : String) (now : ℕ)
    → All P (window_of c key)
    → All P (window_of (count_in_window c key now).0 key)
unfolding count_in_window
count-All P c key now h =
    rw (times-refresh c key key now, eq_refl key)
      (All-drop_old P c.window_seconds now (window_of c key) h)

pub count-IsOldestFirst :
    (c : Counters) (key : String) (now : ℕ)
    → IsOldestFirst (window_of c key)
    → IsOldestFirst (window_of (count_in_window c key now).0 key)
unfolding count_in_window
count-IsOldestFirst c key now h =
    rw (times-refresh c key key now, eq_refl key)
      (drop_old-IsOldestFirst c.window_seconds now (window_of c key) h)

-- With room for the key, recording a time that is no earlier than those recorded makes each later
-- count of the key return one more, as long as the time is at most the width of the window old, and
-- leaves what a count of another key returns as it was. The windows have their oldest time first.
pub count-record :
    (c : Counters) (key j : String) (ts later : ℕ)
    → length (recorded c key ts) ≤ c.max_keys
    → ts ≤ later
    → IsOldestFirst (window_of c j)
    → All (λ u. u ≤ ts) (window_of c j)
    → (count_in_window (record_time c key ts) j later).1
      ≡ (if key == j then (if leb later (ts + c.window_seconds) then 1 else 0) else 0)
        + (count_in_window c j later).1
unfolding record_time
count-record c key j ts later room le h early =
    (count_lem (record_time c key ts) j j later later (record-IsOldestFirst c key j ts room h early)
      (omega arith)).0
    ∙ times-record c key j ts later room le
    ∙ ap
        (λ (n : ℕ).
          (if key == j then (if is_unexpired c.window_seconds later ts then 1 else 0) else 0) + n)
        (sym (count_lem c j j later later h (omega arith)).0)
