-- ===== src/Policy/Verification/Grace/Window.antt =====
-- When the watch window opens, and when it is silent, said without the code's own helpers.
use Prim.Native.String.{count}
use text.Mathlib.Text.{starts_with}
use wakey.Prelude.{
  All, Bool, Bool-cases, List, Option, Option-cases, String, [], ap, arith, count_where, eq_iff,
  eqb, false, if◌then◌else◌, inl, inr, leb, max, none, refl, select_where, some, sym, true, ℕ, ◌&&◌,
  ◌+◌, ◌==◌, ◌||◌, ◌∙◌, ◌∷◌, ◌↔◌, ◌≡◌, ◌≢◌, ◌≤◌, ◌⊎◌,
}
use wakey.Models.{DeployEvent, Fingerprint}
use wakey.Storage.Events.{EventRow, count_fingerprint_events, in_window, is_bound, is_unbound}
use wakey.Policy.Verification.Grace.{carries_fix, earliest, effective_start}

abbrev pub Any : (DeployEvent → Type 0) → List DeployEvent → Type 0
Any P [] = ⊥
Any P (d ∷ ds) = P d ⊎ Any P ds

-- The commits agree: one is a prefix of the other, or the fix has none.
abbrev pub same_sha : Option String → String → Bool
same_sha none sha = true
same_sha (some fix) sha =
    (fix == "" || starts_with sha fix) || (leb (count sha) (count fix) && starts_with fix sha)

none_of : (b : Bool) (n : ℕ) → ((if b then 1 else 0) + n ≡ 0) ↔ ((b ≡ false) × (n ≡ 0))
none_of true n = ground arith
none_of false n = ground arith

module _ (fp : Fingerprint) (started : ℕ) where
  -- A deploy of the fix: in the fingerprint's environment, no earlier than the verification, and with
  -- the commit of the fix.
  abbrev pub IsFix : DeployEvent → Type 0
  IsFix d =
      (d.environment ≡ fp.environment)
      × (started ≤ d.deployed_at)
      × (same_sha fp.fix_commit_sha d.sha ≡ true)

  -- The window opens at the time of the first deploy of the fix; where there are no deploys at all, as
  -- the verification begins.
  abbrev pub OpensAt : List DeployEvent → ℕ → Type 0
  OpensAt [] start = start ≡ started
  OpensAt (d ∷ ds) start =
      Any (λ e. IsFix e × (e.deployed_at ≡ start)) (d ∷ ds)
      × All (λ e. IsFix e → start ≤ e.deployed_at) (d ∷ ds)

  carries-IsFix : (d : DeployEvent) → (carries_fix fp started d ≡ true) ↔ IsFix d
  unfolding carries_fix
  carries-IsFix d = by_sha fp.fix_commit_sha
    where
      by_sha :
          (fix : Option String)
          → (((d.environment == fp.environment && leb started d.deployed_at)
                && (((elim fix [ none ↦ "" | some sha ↦ sha ]) == ""
                      || starts_with d.sha (elim fix [ none ↦ "" | some sha ↦ sha ]))
                    || (leb (count d.sha) (count (elim fix [ none ↦ "" | some sha ↦ sha ]))
                        && starts_with (elim fix [ none ↦ "" | some sha ↦ sha ]) d.sha)))
              ≡ true)
            ↔ ((d.environment ≡ fp.environment)
                × (started ≤ d.deployed_at)
                × (same_sha fix d.sha ≡ true))
      by_sha none = ground (arith, eq_iff d.environment fp.environment)
      by_sha (some fix) = ground (arith, eq_iff d.environment fp.environment)

  -- what a start says of the deploys, and what it says when there is none
  abbrev Opens : Option ℕ → List DeployEvent → Type 0
  Opens none ds = All (λ e. IsFix e → ⊥) ds
  Opens (some start) ds =
      Any (λ e. IsFix e × (e.deployed_at ≡ start)) ds
      × All (λ e. IsFix e → start ≤ e.deployed_at) ds

  abbrev earliest_of : List DeployEvent → Option ℕ
  earliest_of [] = none
  earliest_of (d ∷ ds) = some (earliest d ds)

  abbrev sooner : DeployEvent → Option ℕ → ℕ
  sooner d none = d.deployed_at
  sooner d (some rest) = if leb d.deployed_at rest then d.deployed_at else rest

  earliest_cons :
      (d : DeployEvent) (ds : List DeployEvent) → earliest d ds ≡ sooner d (earliest_of ds)
  earliest_cons d [] = refl
  earliest_cons d (e ∷ es) = refl

  Opens-miss :
      (d : DeployEvent) (o : Option ℕ) (ds : List DeployEvent)
      → (IsFix d → ⊥)
      → Opens o ds
      → Opens o (d ∷ ds)
  Opens-miss d none ds not_fix h = (not_fix, h)
  Opens-miss d (some start) ds not_fix h = (inr h.0, (λ f. absurd (not_fix f), h.1))

  All-mono :
      (a b : ℕ) (ds : List DeployEvent)
      → a ≤ b
      → All (λ e. IsFix e → b ≤ e.deployed_at) ds
      → All (λ e. IsFix e → a ≤ e.deployed_at) ds
  All-mono a b [] le h = tt
  All-mono a b (e ∷ es) le h = (λ f. omega (arith, h.0 f), All-mono a b es le h.1)

  All-none :
      (a : ℕ) (ds : List DeployEvent)
      → All (λ e. IsFix e → ⊥) ds
      → All (λ e. IsFix e → a ≤ e.deployed_at) ds
  All-none a [] h = tt
  All-none a (e ∷ es) h = (λ f. absurd (h.0 f), All-none a es h.1)

  Opens-hit :
      (d : DeployEvent) (o : Option ℕ) (ds : List DeployEvent)
      → IsFix d
      → Opens o ds
      → Opens (some (sooner d o)) (d ∷ ds)
  Opens-hit d none ds f h = (inl (f, refl), (λ g. omega arith, All-none d.deployed_at ds h))
  Opens-hit d (some rest) ds f h = elim (Bool-cases (leb d.deployed_at rest)) [
    | inl first ↦
        let same : sooner d (some rest) ≡ d.deployed_at = rw first refl in
        coe 1 0 (i. Opens (some (same i)) (d ∷ ds))
          (inl (f, refl), (λ g. omega arith, All-mono d.deployed_at rest ds (ground arith) h.1))
    | inr later ↦
        let same : sooner d (some rest) ≡ rest = rw later refl in
        coe 1 0 (i. Opens (some (same i)) (d ∷ ds)) (inr h.0, (λ g. ground arith, h.1))
  ]

  Opens-earliest :
      (ds : List DeployEvent) → Opens (earliest_of (select_where (carries_fix fp started) ds)) ds
  unfolding select_where
  Opens-earliest [] = tt
  Opens-earliest (d ∷ ds) =
      let rest = select_where (carries_fix fp started) ds in
      elim (Bool-cases (carries_fix fp started d)) [
        | inl hit ↦ rw hit (
            coe 1 0 (i. Opens (some (earliest_cons d rest i)) (d ∷ ds))
              (Opens-hit d (earliest_of rest) ds ((carries-IsFix d).0 hit) (Opens-earliest ds)))
        | inr miss ↦ rw miss (
            Opens-miss d (earliest_of rest) ds
              (λ f. let hit = (carries-IsFix d).1 f in ground arith) (Opens-earliest ds))
      ]

  started_le :
      (start : ℕ) (ds : List DeployEvent)
      → Any (λ e. IsFix e × (e.deployed_at ≡ start)) ds
      → started ≤ start
  started_le start [] never = elim never [ ]
  started_le start (d ∷ ds) (inl (f, same)) = omega (arith, f.1, same)
  started_le start (d ∷ ds) (inr more) = started_le start ds more

  Opens-start :
      (d : DeployEvent) (ds : List DeployEvent)
      → Opens (effective_start fp started (d ∷ ds)) (d ∷ ds)
  unfolding effective_start
  Opens-start d ds =
      by_selected (select_where (carries_fix fp started) (d ∷ ds)) (Opens-earliest (d ∷ ds))
    where
      by_selected :
          (ms : List DeployEvent)
          → Opens (earliest_of ms) (d ∷ ds)
          → Opens
              (elim ms as (λ x. Option ℕ) [
                | [] ↦ none
                | m ∷ ms ↦ some (max started (earliest m ms))
              ])
              (d ∷ ds)
      by_selected [] h = h
      by_selected (m ∷ ms) h =
          let le : started ≤ earliest m ms = started_le (earliest m ms) (d ∷ ds) h.0 in
          let same : max started (earliest m ms) ≡ earliest m ms = omega arith in
          coe 1 0 (i. Opens (some (same i)) (d ∷ ds)) h

  no_fix :
      (start : ℕ) (ds : List DeployEvent)
      → All (λ e. IsFix e → ⊥) ds
      → Any (λ e. IsFix e × (e.deployed_at ≡ start)) ds
      → ⊥
  no_fix start [] h never = elim never [ ]
  no_fix start (d ∷ ds) h (inl (f, same)) = h.0 f
  no_fix start (d ∷ ds) h (inr more) = no_fix start ds h.1 more

  first_le :
      (a b : ℕ) (ds : List DeployEvent)
      → All (λ e. IsFix e → a ≤ e.deployed_at) ds
      → Any (λ e. IsFix e × (e.deployed_at ≡ b)) ds
      → a ≤ b
  first_le a b [] h never = elim never [ ]
  first_le a b (d ∷ ds) h (inl (f, same)) = omega (arith, h.0 f, same)
  first_le a b (d ∷ ds) h (inr more) = first_le a b ds h.1 more

  -- The start that the code finds is the one that the window opens at.
  pub effective_start-OpensAt :
      (ds : List DeployEvent) (start : ℕ)
      → (effective_start fp started ds ≡ some start) ↔ OpensAt ds start
  effective_start-OpensAt [] start =
      (λ e. unfold effective_start in ground arith, λ e. unfold effective_start in ap some (sym e))
  effective_start-OpensAt (d ∷ ds) start = (
    λ e. coe 0 1 (i. Opens (e i) (d ∷ ds)) (Opens-start d ds),
    λ opens. elim (Option-cases (effective_start fp started (d ∷ ds))) [
      | inl e ↦
          absurd
            (no_fix start (d ∷ ds) (coe 0 1 (i. Opens (e i) (d ∷ ds)) (Opens-start d ds)) opens.0)
      | inr (other, e) ↦
          let found : Opens (some other) (d ∷ ds) =
            coe 0 1 (i. Opens (e i) (d ∷ ds)) (Opens-start d ds) in
          let below = first_le other start (d ∷ ds) found.1 opens.0 in
          let above = first_le start other (d ∷ ds) opens.1 found.0 in e ∙ ap some (omega arith)
    ],
  )

  -- The event is in the window from `start` to `now`, of the fingerprint's service and environment.
  abbrev pub IsWatched : ℕ → ℕ → EventRow → Type 0
  IsWatched start now row =
      (row.service ≡ fp.service)
      × (row.environment ≡ fp.environment)
      × (start ≤ row.ts)
      × (row.ts ≤ now)

  -- It is known to belong to another fingerprint.
  abbrev pub IsOther : EventRow → Type 0
  IsOther row = (h : String) × (row.fp_hash ≡ some h) × (h ≢ fp.fp_hash)

  abbrev pub IsSilent : ℕ → ℕ → List EventRow → Type 0
  IsSilent start now = All (λ row. IsWatched start now row → IsOther row)

  IsWatched-iff :
      (start now : ℕ) (row : EventRow)
      → (in_window fp.service fp.environment start now row ≡ true) ↔ IsWatched start now row
  IsWatched-iff start now row =
      ground (arith, eq_iff row.service fp.service, eq_iff row.environment fp.environment)

  IsOther-iff :
      (row : EventRow)
      → ((is_unbound row ≡ false) × (is_bound fp.fp_hash row ≡ false)) ↔ IsOther row
  IsOther-iff row = by_hash row.fp_hash
    where
      by_hash :
          (o : Option String)
          → (((elim o [ none ↦ true | some _ ↦ false ]) ≡ false)
              × ((elim o [ none ↦ false | some y ↦ y == fp.fp_hash ]) ≡ false))
            ↔ ((h : String) × (o ≡ some h) × (h ≢ fp.fp_hash))
      by_hash none = (λ (u, b). ground arith, λ (h, e, ne). ground arith)
      by_hash (some y) = (
        λ (u, b). (y, refl, λ e. ground (arith, eq_iff y fp.fp_hash)),
        λ (h, e, ne). ground (arith, eq_iff y fp.fp_hash),
      )

  abbrev watched : ℕ → ℕ → List EventRow → List EventRow
  watched start now = select_where (in_window fp.service fp.environment start now)

  silent_rows :
      (start now : ℕ) (rows : List EventRow)
      → ((count_where is_unbound (watched start now rows) ≡ 0)
          × (count_where (is_bound fp.fp_hash) (watched start now rows) ≡ 0))
        ↔ IsSilent start now rows
  unfolding select_where count_where
  silent_rows start now [] = (λ h. tt, λ h. (refl, refl))
  silent_rows start now (row ∷ rows) =
      let rest = silent_rows start now rows in
      elim (Bool-cases (in_window fp.service fp.environment start now row)) [
        | inl hit ↦ rw hit (
          λ (u, b).
              let (u0, us) = (none_of (is_unbound row) (unbound rows)).0 u in
              let (b0, bs) = (none_of (is_bound fp.fp_hash row) (bound rows)).0 b in
              ((λ w. (IsOther-iff row).0 (u0, b0)), rest.0 (us, bs)),
          λ (other, all).
              let (u0, b0) = (IsOther-iff row).1 (other ((IsWatched-iff start now row).0 hit)) in
              let (us, bs) = rest.1 all in
              (
                (none_of (is_unbound row) (unbound rows)).1 (u0, us),
                (none_of (is_bound fp.fp_hash row) (bound rows)).1 (b0, bs),
              ),
        )
        | inr miss ↦ rw miss (
          λ h. ((λ w. let hit = (IsWatched-iff start now row).1 w in ground arith), rest.0 h),
          λ (other, all). rest.1 all,
        )
      ]
    where
      unbound : List EventRow → ℕ
      unbound rows = count_where is_unbound (watched start now rows)

      bound : List EventRow → ℕ
      bound rows = count_where (is_bound fp.fp_hash) (watched start now rows)

  -- The code counts no event of the fingerprint in the window just when the window is silent.
  pub count-IsSilent :
      (start now : ℕ) (rows : List EventRow)
      → (count_fingerprint_events fp start now rows ≡ some 0) ↔ IsSilent start now rows
  unfolding count_fingerprint_events
  count-IsSilent start now rows = (
    λ e. (silent_rows start now rows).0 (
        zeros (count_where is_unbound (watched start now rows))
          (count_where (is_bound fp.fp_hash) (watched start now rows)) e),
    λ h. let (us, bs) = (silent_rows start now rows).1 h in rw us (ap some bs),
  )
    where
      zeros : (a b : ℕ) → (if eqb a 0 then some b else none) ≡ some 0 → (a ≡ 0) × (b ≡ 0)
      zeros a b e = ground arith
