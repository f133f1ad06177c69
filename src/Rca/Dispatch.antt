-- ===== src/Rca/Dispatch.antt =====
-- agents/rca.py: `RcaDispatcher.run_once`.
use wakey.Prelude.{
  Bool, List, Option, String, [], false, if◌then◌else◌, none, not, some, true, ℕ, ◌&&◌, ◌==◌, ◌∷◌,
}
use wakey.Models.{Fingerprint, WorkState, queued_rca}
use wakey.Forge.{ForgePort, Reply, returned, raised}
use wakey.Storage.Fingerprints.{list_active_fingerprints}
use wakey.Pipeline.State.{World, read_clock}
use wakey.Rca.{RcaResult, investigate}
use wakey.Rca.Budget.{RcaBudget, try_take}

abbrev pub is_queued : WorkState → Bool
is_queued queued_rca = true
is_queued _ = false

-- The dispatcher: the budget, and the world that it works on.
pub record Desk (Remote : Type 0) : Type 0 where
  pub budget : RcaBudget
  pub world : World Remote

module _ (port : ForgePort) (lower : String → String)
    (analyze : Option (Fingerprint → String → Option RcaResult))
    (evidence : Fingerprint → World (port.Remote) → String) (percent decimal : ℕ → String)
    (auto_fix : Option (Fingerprint → World (port.Remote) → World (port.Remote))) where
  -- `_auto_fix`, whose exceptions are logged and dropped
  abbrev pub fix_if : Fingerprint → RcaResult → World (port.Remote) → World (port.Remote)
  fix_if fp result w = elim auto_fix [
    | none ↦ w
    | some fix ↦ if result.classification == "code-fix" && not fp.chronic then fix fp w else w
  ]

  abbrev pub processed : Fingerprint → Reply (List String) → Reply (List String)
  processed fp (returned hashes) = returned (fp.fp_hash ∷ hashes)
  processed fp (raised e) = raised e

  -- what is done for one fingerprint that the budget has room for, and `rest` after it
  abbrev pub after_investigation :
      Fingerprint
      → (Desk (port.Remote) → Reply (List String) × Desk (port.Remote))
      → Reply RcaResult
      → Desk (port.Remote)
      → Reply (List String) × Desk (port.Remote)
  after_investigation fp rest (returned result) d =
      let (hashes, d') = rest (record d { world = fix_if fp result d.world }) in
      (processed fp hashes, d')
  after_investigation fp rest (raised e) d = (raised e, d)

  unfoldable pub dispatch :
      Fingerprint
      → (Desk (port.Remote) → Reply (List String) × Desk (port.Remote))
      → Desk (port.Remote)
      → Reply (List String) × Desk (port.Remote)
  unfolding read_clock try_take investigate
  dispatch fp rest d =
      let (taken, budget) = try_take (d.world.clock d.world.reads) 512 d.budget in
      let w = (read_clock d.world).1 in
      if not taken
      then (returned [], record { budget = budget; world = w })
      else let (result, w') = investigate port lower analyze evidence percent decimal fp w in
        after_investigation fp rest result (record { budget = budget; world = w' })

  unfoldable pub run_over :
      List Fingerprint → Desk (port.Remote) → Reply (List String) × Desk (port.Remote)
  unfolding dispatch
  run_over [] d = (returned [], d)
  run_over (fp ∷ fps) d =
      if is_queued fp.state then dispatch fp (run_over fps) d else run_over fps d

  unfoldable pub run_once : Desk (port.Remote) → Reply (List String) × Desk (port.Remote)
  unfolding run_over
  run_once d = run_over (list_active_fingerprints none d.world.counts.fingerprints) d
