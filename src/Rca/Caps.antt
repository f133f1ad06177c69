-- ===== src/Rca/Caps.antt =====
-- The caps of the RCA budget.
use wakey.Prelude.{
  All, List, Option, String, [], ap, arith, count_where, length, none, refl, some, true, ℕ, ◌++◌,
  ◌+◌, ◌==◌, ◌∷◌, ◌≡◌, Bool, false, ◌≤◌, Bool-cases, inl, inr, leb, ltb, select_where, le→leb, ◌∙◌,
  if◌then◌else◌, ◌*◌,
}
use wakey.Prelude.Assoc.{lookup, remove, replace}
use wakey.Windows.{
  Counters, drop_expired, drop_old, is_unexpired, refresh, store_window, times, window_of,
  count_in_window, record_time,
}
use wakey.Windows.Refinement.{
  recorded, IsOldestFirst, times-record, count_lem, count-All, count-IsOldestFirst,
  record-IsOldestFirst,
}
use wakey.Models.{second}
use wakey.Rca.Budget.{RcaBudget, tokens_of, try_take, is_recent}

-- The counters of a budget have no other key.
abbrev pub IsRcaOnly : List (String × List ℕ) → Type 0
IsRcaOnly windows = All (λ (e : String × List ℕ). (e.0 == "rca") ≡ true) windows

remove-only : (windows : List (String × List ℕ)) → IsRcaOnly windows → remove "rca" windows ≡ []
unfolding remove
remove-only [] all = refl
remove-only ((k, v) ∷ windows) all = ground (arith, remove-only windows all.1)

only-replace :
    (window : List ℕ) (windows : List (String × List ℕ))
    → IsRcaOnly windows
    → IsRcaOnly (replace "rca" window windows)
unfolding replace
only-replace window [] all = tt
only-replace window ((k, v) ∷ windows) all = (all.0, only-replace window windows all.1)

only-store :
    (window : List ℕ) (windows : List (String × List ℕ))
    → IsRcaOnly windows
    → IsRcaOnly (store_window "rca" window windows)
only-store [] windows all = coe 1 0 (i. IsRcaOnly (remove-only windows all i)) tt
only-store (t ∷ ts) windows all = only-replace (t ∷ ts) windows all

only-refresh : (c : Counters) (now : ℕ) → IsRcaOnly c.windows → IsRcaOnly (refresh c "rca" now)
unfolding refresh drop_expired
only-refresh c now all = by_window (lookup "rca" c.windows)
  where
    by_window :
        (o : Option (List ℕ))
        → IsRcaOnly (elim o as (λ x. List (String × List ℕ)) [
          | none ↦ c.windows
          | some window ↦ (drop_expired c.window_seconds "rca" window now c.windows).0
        ])
    by_window none = all
    by_window (some window) = only-store (drop_old c.window_seconds now window).0 c.windows all

-- the dispatches of the hour that ends at a time
abbrev pub dispatched : ℕ → RcaBudget → ℕ
dispatched now budget =
    count_where (is_unexpired budget.counters.window_seconds now) (window_of budget.counters "rca")

recorded-one : (c : Counters) (now : ℕ) → IsRcaOnly c.windows → length (recorded c "rca" now) ≡ 1
recorded-one c now all =
    ap (λ ws. length (ws ++ ("rca", times (lookup "rca" (refresh c "rca" now)) ++ now ∷ []) ∷ []))
      (remove-only (refresh c "rca" now) (only-refresh c now all))

-- the tokens taken in the hour that ends at `now`
abbrev pub hour_tokens : ℕ → List (ℕ × ℕ) → ℕ
hour_tokens now [] = 0
hour_tokens now ((ts, n) ∷ events) =
    (if ltb now (ts + 3600 * second) then n else 0) + hour_tokens now events

tokens-recent :
    (now : ℕ) (events : List (ℕ × ℕ))
    → tokens_of (select_where (is_recent now) events) ≡ hour_tokens now events
unfolding tokens_of select_where
tokens-recent now [] = refl
tokens-recent now ((ts, n) ∷ events) = ground (arith, tokens-recent now events)

hour_tokens-recent :
    (now : ℕ) (events : List (ℕ × ℕ))
    → hour_tokens now (select_where (is_recent now) events) ≡ hour_tokens now events
unfolding select_where
hour_tokens-recent now [] = refl
hour_tokens-recent now ((ts, n) ∷ events) = ground (arith, hour_tokens-recent now events)

hour_tokens-append :
    (now n : ℕ) (events : List (ℕ × ℕ))
    → hour_tokens now (events ++ (now, n) ∷ []) ≡ hour_tokens now events + n
hour_tokens-append now n [] = ground arith
hour_tokens-append now n ((t, m) ∷ events) = ground (arith, hour_tokens-append now n events)

-- the dispatches of the hour, in the counters
abbrev hour_of : ℕ → Counters → ℕ
hour_of now c = count_where (is_unexpired c.window_seconds now) (window_of c "rca")

same_width :
    (c : Counters) (now : ℕ)
    → hour_of now (record_time c "rca" now)
      ≡ count_where (is_unexpired c.window_seconds now) (window_of (record_time c "rca" now) "rca")
unfolding record_time
same_width c now = refl

hour-record :
    (c : Counters) (now : ℕ)
    → length (recorded c "rca" now) ≤ c.max_keys
    → hour_of now (record_time c "rca" now) ≡ hour_of now c + 1
hour-record c now fits =
    same_width c now
    ∙ times-record c "rca" "rca" now now fits (omega arith)
    ∙ rw (le→leb now (now + c.window_seconds) (omega arith)) (omega arith)

-- What one take does to the hour that ends with it.
abbrev pub IsCapped : ℕ → ℕ → RcaBudget → Bool × RcaBudget → Type 0
IsCapped now estimated_tokens before (true, after) =
    (dispatched now after ≡ dispatched now before + 1)
    × (dispatched now after ≤ before.max_per_hour)
    × (hour_tokens now after.token_events ≡ hour_tokens now before.token_events + estimated_tokens)
    × (hour_tokens now after.token_events ≤ before.max_tokens_per_hour)
    × IsOldestFirst (window_of after.counters "rca")
IsCapped now estimated_tokens before (false, after) =
    (dispatched now after ≡ dispatched now before)
    × (hour_tokens now after.token_events ≡ hour_tokens now before.token_events)
    × IsOldestFirst (window_of after.counters "rca")

-- A dispatch that is granted adds one dispatch and its estimated tokens to the hour that ends with
-- it, and that hour then holds no more than the cap of dispatches and the cap of tokens. A refusal
-- leaves both numbers of the hour as they were. Either way the times stay in order. The times recorded
-- are in order and no later than `now`, the counters have no other key and room for one.
pub take-IsCapped :
    (now estimated_tokens : ℕ) (budget : RcaBudget)
    → IsOldestFirst (window_of budget.counters "rca")
    → All (λ t. t ≤ now) (window_of budget.counters "rca")
    → IsRcaOnly budget.counters.windows
    → 1 ≤ budget.counters.max_keys
    → IsCapped now estimated_tokens budget (try_take now estimated_tokens budget)
unfolding try_take count_in_window
take-IsCapped now estimated_tokens budget oldest early only room =
    let c = budget.counters in
    let c1 = (count_in_window c "rca" now).0 in
    let counted = count_lem c "rca" "rca" now now oldest (omega arith) in
    let fits : length (recorded c1 "rca" now) ≤ c1.max_keys =
      rw (recorded-one c1 now (only-refresh c now only)) room in
    let kept : IsOldestFirst (window_of c1 "rca") = count-IsOldestFirst c "rca" now oldest in
    let grown : IsOldestFirst (window_of (record_time c1 "rca" now) "rca") =
      record-IsOldestFirst c1 "rca" "rca" now fits kept
        (count-All (λ t. t ≤ now) c "rca" now early) in
    let added : hour_of now (record_time c1 "rca" now) ≡ hour_of now c + 1 =
      hour-record c1 now fits ∙ ap (λ n. n + 1) counted.1 in
    let events = select_where (is_recent now) budget.token_events in
    let recent = tokens-recent now budget.token_events in
    let same : hour_tokens now events ≡ hour_tokens now budget.token_events =
      hour_tokens-recent now budget.token_events in
    let spent : hour_tokens now (events ++ (now, estimated_tokens) ∷ [])
        ≡ hour_tokens now budget.token_events + estimated_tokens =
      hour_tokens-append now estimated_tokens events ∙ ap (λ n. n + estimated_tokens) same in
    elim (Bool-cases (leb budget.max_per_hour (count_in_window c "rca" now).1)) [
      | inl full ↦ rw full (counted.1, refl, kept)
      | inr free ↦
          rw free
            (elim (Bool-cases
              (ltb budget.max_tokens_per_hour (tokens_of events + estimated_tokens))) [
                | inl spent_up ↦ rw spent_up (counted.1, same, kept)
                | inr within ↦ rw within (
                    let (a, b, d, e) = granted added counted.0 free spent recent within in
                    (a, b, d, e, grown))
              ])
    ]
  where
    granted :
        {a b n cap after_tokens before_tokens kept limit : ℕ}
        → a ≡ b + 1
        → n ≡ b
        → leb cap n ≡ false
        → after_tokens ≡ before_tokens + estimated_tokens
        → kept ≡ before_tokens
        → ltb limit (kept + estimated_tokens) ≡ false
        → (a ≡ b + 1)
          × (a ≤ cap)
          × (after_tokens ≡ before_tokens + estimated_tokens)
          × (after_tokens ≤ limit)
    granted e e' le e'' k lt = ground arith
