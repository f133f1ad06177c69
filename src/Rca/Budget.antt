-- ===== src/Rca/Budget.antt =====
-- agents/rca.py: `RcaBudget`, the hourly cap on dispatches and on tokens.
use wakey.Prelude.{
  Bool, List, [], false, if◌then◌else◌, leb, ltb, select_where, true, ℕ, ◌*◌, ◌++◌, ◌+◌, ◌∷◌,
}
use wakey.Models.{second}
use wakey.Windows.{Counters, count_in_window, record_time}

-- The window of `counters` is an hour, in the unit of the clock.
pub record RcaBudget : Type 0 where
  pub max_per_hour : ℕ
  pub max_tokens_per_hour : ℕ
  pub counters : Counters
  pub token_events : List (ℕ × ℕ)

abbrev pub hour : ℕ
hour = 3600 * second

-- `sum(tokens for _, tokens in …)`
unfoldable pub tokens_of : List (ℕ × ℕ) → ℕ
tokens_of [] = 0
tokens_of ((ts, n) ∷ events) = n + tokens_of events

-- `ts > now - 3600`
abbrev pub is_recent : ℕ → ℕ × ℕ → Bool
is_recent now event = ltb now (event.0 + hour)

unfoldable pub try_take : ℕ → ℕ → RcaBudget → Bool × RcaBudget
unfolding tokens_of
try_take now estimated_tokens budget =
    let (counters, count) = count_in_window budget.counters "rca" now in
    if leb budget.max_per_hour count
    then (false, record budget { counters = counters })
    else let events = select_where (is_recent now) budget.token_events in
      if ltb budget.max_tokens_per_hour (tokens_of events + estimated_tokens)
      then (false, record budget { counters = counters; token_events = events })
      else (
        true,
        record budget {
          counters = record_time counters "rca" now;
          token_events = events ++ (now, estimated_tokens) ∷ [];
        },
      )
