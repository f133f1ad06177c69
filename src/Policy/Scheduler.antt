-- ===== src/Policy/Scheduler.antt =====
-- policy/scheduler.py: the watcher on an interval. The clock is a stream of readings, and the sleeps
-- are recorded; `-1` of a failed pass is `none`.
use wakey.Prelude.{
  List, Option, [], arith, if◌then◌else◌, length, ltb, refl, suc, zero, ℕ, ◌++◌, ◌+◌, ◌-◌, ◌∷◌, ◌≡◌,
}

pub record Pacer : Type 0 where
  pub clock : ℕ → ℕ
  pub reads : ℕ
  pub slept : List ℕ

module _ {S : Type 0} (run_once : S → Option ℕ × S) (interval : ℕ) where
  -- `_pace`: the time that is left of the interval is slept
  unfoldable pub pace : ℕ → Pacer → ℕ × Pacer
  pace start p =
      let now = p.clock p.reads in
      (
        p.clock (p.reads + 1),
        record p {
          reads = p.reads + 2;
          slept =
              if ltb now (start + interval)
              then p.slept ++ (start + interval - now) ∷ []
              else p.slept;
        },
      )

  unfoldable pub rounds_from : ℕ → ℕ → S → Pacer → List (Option ℕ) × S × Pacer
  unfolding pace
  rounds_from zero start s p = ([], s, p)
  rounds_from (suc rounds) start s p =
      let (evaluated, s') = run_once s in
      let (start', p') = pace start p in
      let (counts, s'', p'') = rounds_from rounds start' s' p' in (evaluated ∷ counts, s'', p'')

  unfoldable pub run_rounds : ℕ → S → Pacer → List (Option ℕ) × S × Pacer
  unfolding rounds_from
  run_rounds rounds s p = rounds_from rounds (p.clock p.reads) s (record p { reads = p.reads + 1 })

  -- A pass that fails does not end the loop: every round has its entry.
  pub rounds_length :
      (rounds start : ℕ) (s : S) (p : Pacer) → length (rounds_from rounds start s p).0 ≡ rounds
  unfolding rounds_from
  rounds_length zero start s p = refl
  rounds_length (suc rounds) start s p =
      omega (arith, rounds_length rounds (pace start p).0 (run_once s).1 (pace start p).1)
