-- ===== src/Policy/Watcher/Verdicts.antt =====
-- What a verdict leaves behind.
use wakey.Prelude.{
  Option, String, if◌then◌else◌, length, none, refl, some, ℕ, ◌+◌, ◌==◌, ◌≡◌, [], length-append,
  str, ◌<>◌, ◌∙◌, ◌∷◌, ap, sym, true,
}
use wakey.Models.{Fingerprint, reopened, verified_closed}
use wakey.Forge.{ForgePort, Reply, TicketRef, raised, returned}
use wakey.Exec.{bind_split, pure, go_on, ◌>>=◌, ◌>>◌}
use wakey.Exec.Keeps.{Keeps, keeps_rules}
use wakey.Storage.Fingerprints.{get_fingerprint}
use wakey.Storage.Fingerprints.Laws.{saved_row, get-save}
use wakey.Pipeline.State.{World, on_forge, audit_event, save}
use wakey.Policy.Verification.{
  Verdict, WatchInputs, inconclusive, insufficient, success, verdict_value,
}
use wakey.Policy.Watcher.{report, report_if_ticketed, settle_row, apply, Pass}

module _ (port : ForgePort)
    (grace : Fingerprint → World (port.Remote) → WatchInputs × World (port.Remote)) where
  abbrev W : Type 0
  W = World (port.Remote)

  -- The forge's effects leave the tables and the audit log alone.
  forge-tables :
      {A : Type 0} (c : W) (call : port.Remote → Reply A × port.Remote)
      → Keeps (λ (w : W). (w.counts ≡ c.counts) × (w.audit ≡ c.audit)) (on_forge call)
  unfolding on_forge
  forge-tables c call = record { ends = λ w h. h }

  report-tables :
      (c : W) (verdict : Verdict) (ticket : TicketRef) (n : ℕ)
      → Keeps
          (λ (w : W). (w.counts ≡ c.counts) × (w.audit ≡ c.audit))
          (report port grace verdict ticket n)
  unfolding report
  report-tables c success ticket n = search (keeps_rules, forge-tables c)
  report-tables c insufficient ticket n = search (keeps_rules, forge-tables c)
  report-tables c inconclusive ticket n = search keeps_rules

  reported-tables :
      (c : W) (url : Option String) (fp : Fingerprint) (verdict : Verdict) (n : ℕ)
      → Keeps
          (λ (w : W). (w.counts ≡ c.counts) × (w.audit ≡ c.audit))
          (report_if_ticketed port grace url fp verdict n)
  unfolding report_if_ticketed
  reported-tables c none fp verdict n = search keeps_rules
  reported-tables c (some url) fp verdict n = report-tables c verdict _ n

  -- What is in the table for a fingerprint.
  abbrev row_in : String → W → Option Fingerprint
  row_in h w = get_fingerprint h w.counts.fingerprints

  -- The row that a verdict calls for.
  abbrev pub settled : Verdict → Fingerprint → Fingerprint
  settled success fp = record fp { state = verified_closed }
  settled insufficient fp = record fp { state = reopened; chronic = true }
  settled inconclusive fp = fp

  -- Both calls were answered, one after the other.
  abbrev pub AreAnswered :
      (port.Remote → Reply (Unit {0}) × port.Remote)
      → (port.Remote → Reply (Unit {0}) × port.Remote)
      → port.Remote
      → port.Remote
      → Type 0
  AreAnswered first then_second r r' =
      ((first r).0 ≡ returned tt)
      × ((then_second (first r).1).0 ≡ returned tt)
      × (r' ≡ (then_second (first r).1).1)

  -- the calls on the ticket of a fingerprint
  abbrev pub ticket_of : Fingerprint → String → TicketRef
  ticket_of fp url = record {
    issue_id = elim fp.ticket_issue_id [
      | none ↦ fp.fp_hash
      | some id ↦ if id == "" then fp.fp_hash else id
    ];
    url = url;
  }

  abbrev pub closing : Fingerprint → String → ℕ → port.Remote → Reply (Unit {0}) × port.Remote
  closing fp url n =
      port.close_ticket (ticket_of fp url)
        (some ("fix verified: " <> str n <> " occurrences in grace window"))

  abbrev pub reopening : Fingerprint → String → ℕ → port.Remote → Reply (Unit {0}) × port.Remote
  reopening fp url n = port.reopen_ticket (ticket_of fp url) (
      some (
        "error recurred ×"
        <> str n
        <> " after the fix — reopening; further autonomous fixes are blocked pending human review"))

  abbrev pub labelling :
      Fingerprint → String → String → port.Remote → Reply (Unit {0}) × port.Remote
  labelling fp url label = port.add_label (ticket_of fp url) label

  -- What the forge has been told of a verdict: nothing where there is no ticket or no verdict yet.
  abbrev pub IsTold : Verdict → Option String → Fingerprint → ℕ → port.Remote → port.Remote → Type 0
  IsTold success (some url) fp n r r' =
      AreAnswered (closing fp url n) (labelling fp url "wakey-verified") r r'
  IsTold insufficient (some url) fp n r r' =
      AreAnswered (reopening fp url n) (labelling fp url "wakey-recurred") r r'
  IsTold inconclusive (some url) fp n r r' = r' ≡ r
  IsTold _ none fp n r r' = r' ≡ r

  answered :
      (first then_second : port.Remote → Reply (Unit {0}) × port.Remote) (w w1 : W)
      → (on_forge first >>= λ _. on_forge then_second) w ≡ (returned tt, w1)
      → AreAnswered first then_second w.remote w1.remote
  unfolding on_forge
  answered first then_second w w1 e =
      let (a, told, e1) = bind_split (on_forge first) (λ _. on_forge then_second) w w1 tt e in
      (told, ap (λ p. p.0) e1, ap (λ p. p.1.remote) (sym e1))

  report-IsTold :
      (verdict : Verdict) (url : Option String) (fp : Fingerprint) (n : ℕ) (w w1 : W)
      → report_if_ticketed port grace url fp verdict n w ≡ (returned tt, w1)
      → IsTold verdict url fp n w.remote w1.remote
  unfolding report_if_ticketed report pure
  report-IsTold success (some url) fp n w w1 e =
      answered (closing fp url n) (labelling fp url "wakey-verified") w w1 e
  report-IsTold insufficient (some url) fp n w w1 e =
      answered (reopening fp url n) (labelling fp url "wakey-recurred") w w1 e
  report-IsTold inconclusive (some url) fp n w w1 e = ap (λ p. p.1.remote) (sym e)
  report-IsTold success none fp n w w1 e = ap (λ p. p.1.remote) (sym e)
  report-IsTold insufficient none fp n w w1 e = ap (λ p. p.1.remote) (sym e)
  report-IsTold inconclusive none fp n w w1 e = ap (λ p. p.1.remote) (sym e)

  -- The outcome of applying a verdict: done, the forge told, the row settled, no other row changed and
  -- one audit line more; or an exception of the forge, and the tables and the audit log as they were.
  abbrev pub IsApplied : Fingerprint → Verdict → ℕ → W → Reply (Unit {0}) × W → Type 0
  IsApplied fp verdict n w (returned _, w') =
      IsTold verdict fp.ticket_url fp n w.remote w'.remote
      × ((h : String)
          → row_in h w' ≡ (
              if fp.fp_hash == h
              then some (saved_row (settled verdict fp) (row_in fp.fp_hash w))
              else row_in h w))
      × (length w'.audit ≡ length w.audit + 1)
  IsApplied fp verdict n w (raised _, w') = (w'.counts ≡ w.counts) × (w'.audit ≡ w.audit)

  settle-settled :
      (verdict : Verdict) (fp : Fingerprint) → settle_row verdict fp ≡ settled verdict fp
  settle-settled success fp = refl
  settle-settled insufficient fp = refl
  settle-settled inconclusive fp = refl

  settle-hash :
      (verdict : Verdict) (fp : Fingerprint) → (settle_row verdict fp).fp_hash ≡ fp.fp_hash
  settle-hash success fp = refl
  settle-hash insufficient fp = refl
  settle-hash inconclusive fp = refl

  abbrev settle : Fingerprint → Verdict → WatchInputs → Pass port grace (Unit {0})
  settle fp verdict watch = do
    save (settle_row verdict fp)
    audit_event (record {
      ts = 0;
      actor = "system";
      action = "verify." <> verdict_value verdict;
      subject = "fp:" <> fp.fp_hash;
      details = ("occurrences", str watch.occurrences_after_fix) ∷ [];
    })

  after_report :
      (fp : Fingerprint) (verdict : Verdict) (watch : WatchInputs) (w w1 : W)
      (reply : Reply (Unit {0}))
      → w1.counts ≡ w.counts
      → w1.audit ≡ w.audit
      → (reply ≡ returned tt
          → IsTold verdict fp.ticket_url fp watch.occurrences_after_fix w.remote w1.remote)
      → IsApplied fp verdict watch.occurrences_after_fix w
          (go_on reply (λ _. settle fp verdict watch) w1)
  unfolding save audit_event ◌>>=◌
  after_report fp verdict watch w w1 (returned _) c a told = (
    told refl,
    λ h.
        get-save h (settle_row verdict fp) w1.counts.fingerprints
        ∙ rw (settle-hash verdict fp, settle-settled verdict fp, c) refl,
    length-append w1.audit _ ∙ rw a refl,
  )
  after_report fp verdict watch w w1 (raised exc) c a told = (c, a)

  -- Applying a verdict reports to the forge before it writes. If the forge raises, the tables and the
  -- audit log are as they were, so that the next pass evaluates the fingerprint again. If not, the
  -- ticket, if there is one, was closed and labelled as verified on success, reopened and labelled as
  -- recurred on recurrence, and left alone when there is no verdict yet. The fingerprint's row is then
  -- closed as verified on success, reopened and chronic on recurrence, and as it was read when there is
  -- no verdict yet; no other row changes, and there is one audit line more.
  pub apply-IsApplied :
      (fp : Fingerprint) (verdict : Verdict) (watch : WatchInputs) (w : W)
      → IsApplied fp verdict watch.occurrences_after_fix w (apply port grace fp verdict watch w)
  unfolding apply
  apply-IsApplied fp verdict watch w =
      let told =
        report_if_ticketed port grace fp.ticket_url fp verdict watch.occurrences_after_fix in
      let (c, a) =
        (reported-tables w fp.ticket_url fp verdict watch.occurrences_after_fix).ends w
          (refl, refl) in
      after_report fp verdict watch w (told w).1 (told w).0 c a (λ e.
        report-IsTold verdict fp.ticket_url fp watch.occurrences_after_fix w (told w).1
          (ap (λ (r : Reply (Unit {0})). (r, (told w).1)) e))
