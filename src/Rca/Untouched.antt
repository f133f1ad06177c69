-- ===== src/Rca/Untouched.antt =====
-- The fingerprints that a dispatch pass leaves alone.
use wakey.Prelude.{
  Option, String, false, none, some, ℕ, ◌==◌, ◌∙◌, ◌≡◌, Bool, List, [], any_where, if◌then◌else◌,
  not, true, ◌&&◌, ◌∷◌, arith, refl, select_where,
}
use wakey.Models.{AuditEvent, Fingerprint}
use wakey.Forge.{ForgePort, Reply, raised, returned}
use wakey.Exec.Keeps.{Keeps, keeps_rules}
use wakey.Storage.Fingerprints.{
  get_fingerprint, has_hash, in_service, insert_newest, is_quiet, list_active_fingerprints,
  newest_first,
}
use wakey.Storage.Fingerprints.Laws.{get-save}
use wakey.Pipeline.State.{World, audit_event, on_forge, save, read_clock}
use wakey.Rca.{RcaResult, investigate, comment_if, verdict_state}
use wakey.Rca.Budget.{try_take}
use wakey.Rca.Dispatch.{Desk, after_investigation, dispatch, fix_if, is_queued, run_over, run_once}

module _ (port : ForgePort) (lower : String → String)
    (analyze : Option (Fingerprint → String → Option RcaResult))
    (evidence : Fingerprint → World (port.Remote) → String) (percent decimal : ℕ → String)
    (h : String) (value : Option Fingerprint) where
  abbrev IsStill : World (port.Remote) → Type 0
  IsStill w = get_fingerprint h w.counts.fingerprints ≡ value

  save-Still : (fp : Fingerprint) → (fp.fp_hash == h) ≡ false → Keeps IsStill (save fp)
  unfolding save
  save-Still fp other = record {
    ends = λ w still. get-save h fp w.counts.fingerprints ∙ rw other still;
  }

  audit-Still : (event : AuditEvent) → Keeps IsStill (audit_event event)
  unfolding audit_event
  audit-Still event = record { ends = λ w still. still }

  forge-Still :
      (A : Type 0) (call : port.Remote → Reply A × port.Remote) → Keeps IsStill (on_forge call)
  unfolding on_forge
  forge-Still A call = record { ends = λ w still. still }

  comment-Still :
      (url : Option String) (fp : Fingerprint) (result : RcaResult)
      → Keeps IsStill (comment_if port lower analyze evidence percent decimal url fp result)
  comment-Still none fp result = search keeps_rules
  comment-Still (some url) fp result = search (keeps_rules, forge-Still)

  investigate-Still :
      (fp : Fingerprint)
      → (fp.fp_hash == h) ≡ false
      → Keeps IsStill (investigate port lower analyze evidence percent decimal fp)
  unfolding investigate
  investigate-Still fp other = search (
    keeps_rules,
    comment-Still,
    audit-Still,
    λ (result : RcaResult). save-Still (record fp { state = verdict_state result }) other,
  )

  -- a dispatcher without automatic fixes
  abbrev Pass : Type 0
  Pass = Desk (port.Remote) → Reply (List String) × Desk (port.Remote)

  abbrev KeepsStill : Pass → Type 0
  KeepsStill pass = (d : Desk (port.Remote)) → IsStill d.world → IsStill (pass d).1.world

  after-Still :
      (fp : Fingerprint) (rest : Pass) (result : Reply RcaResult) (d : Desk (port.Remote))
      → KeepsStill rest
      → IsStill d.world
      → IsStill
          (after_investigation port lower analyze evidence percent decimal none fp rest result
            d).1.world
  after-Still fp rest (returned result) d keeps still =
      keeps
        (record d {
          world = fix_if port lower analyze evidence percent decimal none fp result d.world;
        })
        still
  after-Still fp rest (raised e) d keeps still = still

  dispatch-Still :
      (fp : Fingerprint) (rest : Pass)
      → (fp.fp_hash == h) ≡ false
      → KeepsStill rest
      → KeepsStill (dispatch port lower analyze evidence percent decimal none fp rest)
  unfolding dispatch
  dispatch-Still fp rest other keeps d still =
      let (taken, budget) = try_take (d.world.clock d.world.reads) 512 d.budget in
      let w = (read_clock d.world).1 in
      let after = investigate port lower analyze evidence percent decimal fp w in
      by_taken taken (
        after-Still fp rest after.0 (record { budget = budget; world = after.1 }) keeps
          ((investigate-Still fp other).ends w (clock-Still d.world still)))
    where
      clock-Still : (w : World (port.Remote)) → IsStill w → IsStill (read_clock w).1
      clock-Still w still = unfold read_clock in still

      by_taken :
          (taken : Bool)
          → IsStill
              (after_investigation port lower analyze evidence percent decimal none fp rest
                (investigate port lower analyze evidence percent decimal fp
                  (read_clock d.world).1).0
                (record {
                  budget = (try_take (d.world.clock d.world.reads) 512 d.budget).1;
                  world =
                      (investigate port lower analyze evidence percent decimal fp
                        (read_clock d.world).1).1;
                })).1.world
          → IsStill
              (if not taken
                then (
                  returned [],
                  record {
                    budget = (try_take (d.world.clock d.world.reads) 512 d.budget).1;
                    world = (read_clock d.world).1;
                  },
                )
                else after_investigation port lower analyze evidence percent decimal none fp rest
                    (investigate port lower analyze evidence percent decimal fp
                      (read_clock d.world).1).0
                    (record {
                      budget = (try_take (d.world.clock d.world.reads) 512 d.budget).1;
                      world =
                          (investigate port lower analyze evidence percent decimal fp
                            (read_clock d.world).1).1;
                    })).1.world
      by_taken true done = done
      by_taken false done = clock-Still d.world still

  abbrev is_target : Fingerprint → Bool
  is_target fp = has_hash h fp && is_queued fp.state

  over-Still :
      (fps : List Fingerprint)
      → any_where is_target fps ≡ false
      → KeepsStill (run_over port lower analyze evidence percent decimal none fps)
  unfolding run_over any_where
  over-Still [] e = λ d still. still
  over-Still (fp ∷ fps) e = by_state (is_queued fp.state) e (over-Still fps)
    where
      by_state :
          (queued : Bool)
          → (if (has_hash h fp && queued) then true else any_where is_target fps) ≡ false
          → (any_where is_target fps ≡ false
              → KeepsStill (run_over port lower analyze evidence percent decimal none fps))
          → KeepsStill (λ d.
            if queued
            then dispatch port lower analyze evidence percent decimal none fp
                (run_over port lower analyze evidence percent decimal none fps)
                d
            else run_over port lower analyze evidence percent decimal none fps d)
      by_state true e rest =
          dispatch-Still fp (run_over port lower analyze evidence percent decimal none fps)
            (ground arith) (rest (ground arith))
      by_state false e rest = rest (ground arith)

any-select :
    (q p : Fingerprint → Bool) (rows : List Fingerprint)
    → any_where q rows ≡ false
    → any_where q (select_where p rows) ≡ false
unfolding any_where select_where
any-select q p [] e = refl
any-select q p (r ∷ rows) e = ground (arith, any-select q p rows)

any-insert :
    (q : Fingerprint → Bool) (x : Fingerprint) (rows : List Fingerprint)
    → q x ≡ false
    → any_where q rows ≡ false
    → any_where q (insert_newest x rows) ≡ false
unfolding any_where insert_newest
any-insert q x [] e e' = ground arith
any-insert q x (r ∷ rows) e e' = ground (arith, any-insert q x rows)

any-sort :
    (q : Fingerprint → Bool) (rows : List Fingerprint)
    → any_where q rows ≡ false
    → any_where q (newest_first rows) ≡ false
unfolding any_where newest_first
any-sort q [] e = refl
any-sort q (r ∷ rows) e = ground (arith, any-sort q rows, any-insert q r (newest_first rows))

-- A pass writes the row of no fingerprint that is not queued for analysis, and of none that is not
-- listed, whatever the model, the forge and the budget answer and also when it ends in an
-- exception; automatic fixes are off.
pub run_once_untouched :
    (port : ForgePort) (lower : String → String)
    (analyze : Option (Fingerprint → String → Option RcaResult))
    (evidence : Fingerprint → World (port.Remote) → String) (percent decimal : ℕ → String)
    (h : String) (d : Desk (port.Remote))
    → any_where (λ fp. has_hash h fp && is_queued fp.state) d.world.counts.fingerprints ≡ false
    → get_fingerprint h
        (run_once port lower analyze evidence percent decimal none d).1.world.counts.fingerprints
      ≡ get_fingerprint h d.world.counts.fingerprints
unfolding run_once list_active_fingerprints
run_once_untouched port lower analyze evidence percent decimal h d e =
    let q : Fingerprint → Bool = λ fp. has_hash h fp && is_queued fp.state in
    let listed = select_where (λ fp. not (is_quiet fp.state)) d.world.counts.fingerprints in
    over-Still port lower analyze evidence percent decimal h
      (get_fingerprint h d.world.counts.fingerprints)
      (select_where (in_service none) (newest_first listed))
      (any-select q (in_service none) (newest_first listed) (
        any-sort q listed
          (any-select q (λ fp. not (is_quiet fp.state)) d.world.counts.fingerprints e)))
      d refl
