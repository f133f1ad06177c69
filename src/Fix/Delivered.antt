-- ===== src/Fix/Delivered.antt =====
-- What a delivery has done when it says so.
use wakey.Prelude.{
  Option, String, eq_refl, none, refl, some, ℕ, ◌∙◌, ◌≡◌, Bool, ap, arith, false, if◌then◌else◌,
  not, true, ◌<>◌,
}
use wakey.Models.{Fingerprint, awaiting_human}
use wakey.Forge.{ForgePort, Reply, TicketRef, returned}
use wakey.Storage.Fingerprints.{get_fingerprint}
use wakey.Storage.Fingerprints.Laws.{get-save, saved_row}
use wakey.Pipeline.State.{World, audit_event, on_forge, save}
use wakey.Exec.{bind_split, pure, ◌>>=◌, ◌>>◌}
use wakey.Fix.Loop.{FixResult, no_files}
use wakey.Fix.Delivery.{
  ProposalPort, Texts, bind_proposal, published, Delivered, record_delivery, deliver, ensure_branch,
  label, label_untested, or_base, propose, publish, undelivered,
}

module _ (port : ForgePort) (proposals : ProposalPort (port.Remote)) (number : String → Option ℕ)
    (texts : Texts) where
  -- The row waits for a human, and is bound to a branch and its proposal.
  abbrev pub IsBound : Fingerprint → String → String → World (port.Remote) → Type 0
  IsBound fp branch url w =
      (row : Fingerprint) × (get_fingerprint fp.fp_hash w.counts.fingerprints ≡ some row)
      × (row.state ≡ awaiting_human)
      × (row.proposal_branch ≡ some branch)
      × (row.proposal_url ≡ some url)

  saved-IsBound :
      (fp : Fingerprint) (branch : String) (ref : TicketRef) (w : World (port.Remote))
      → IsBound fp branch ref.url
          (save (bind_proposal port proposals number texts fp branch ref) w).1
  unfolding save
  saved-IsBound fp branch ref w =
      let bound = bind_proposal port proposals number texts fp branch ref in
      let found = get-save fp.fp_hash bound w.counts.fingerprints ∙ rw (eq_refl fp.fp_hash) refl in
      by_row (get_fingerprint fp.fp_hash w.counts.fingerprints) found
    where
      by_row :
          (o : Option Fingerprint)
          → get_fingerprint fp.fp_hash
              (save
                (bind_proposal port proposals number texts fp branch ref)
                w).1.counts.fingerprints
            ≡ some (saved_row (bind_proposal port proposals number texts fp branch ref) o)
          → IsBound fp branch ref.url
              (save (bind_proposal port proposals number texts fp branch ref) w).1
      by_row none found =
          (bind_proposal port proposals number texts fp branch ref, found, refl, refl, refl)
      by_row (some row) found = (
        saved_row (bind_proposal port proposals number texts fp branch ref) (some row),
        found,
        refl,
        refl,
        refl,
      )

  recorded-IsBound :
      (fp : Fingerprint) (verifier_reason : String) (untested : Bool) (branch sha : String)
      (ref : TicketRef) (b commit url : String) (w last : World (port.Remote))
      → record_delivery port proposals number texts fp verifier_reason untested branch sha ref w
        ≡ (returned (published b commit url), last)
      → IsBound fp b url last
  unfolding save audit_event pure ◌>>=◌
  recorded-IsBound fp verifier_reason untested branch sha ref b commit url w last e =
      let bound = saved-IsBound fp branch ref w in
      let same_branch : branch ≡ b =
        ap (λ (p : Reply Delivered × World (port.Remote)). branch_of p.0) e in
      let same_url : ref.url ≡ url =
        ap (λ (p : Reply Delivered × World (port.Remote)). url_of p.0) e in
      coe 0 1 (i. IsBound fp (same_branch i) (same_url i) (e i).1) (relog bound)
    where
      branch_of : Reply Delivered → String
      branch_of (returned (published branch sha url)) = branch
      branch_of _ = ""

      url_of : Reply Delivered → String
      url_of (returned (published branch sha url)) = url
      url_of _ = ""

      relog :
          IsBound fp branch ref.url
            (save (bind_proposal port proposals number texts fp branch ref) w).1
          → IsBound fp branch ref.url
              (record_delivery port proposals number texts fp verifier_reason untested branch sha
                ref w).1
      relog bound = bound

  label-IsBound :
      (fp : Fingerprint) (verifier_reason : String) (untested : Bool) (branch sha : String)
      (ref : TicketRef) (b commit url : String) (w last : World (port.Remote))
      → label port proposals number texts fp verifier_reason untested branch sha ref w
        ≡ (returned (published b commit url), last)
      → IsBound fp b url last
  label-IsBound fp verifier_reason untested branch sha ref b commit url w last e =
      let rest =
        record_delivery port proposals number texts fp verifier_reason untested branch sha ref in
      let first = on_forge (port.add_label ref "wakey/fix") in
      let second = label_untested port proposals number texts untested ref in
      let (x, told_x, e1) =
        bind_split first (λ x. second >> rest) w last (published b commit url) e in
      let (y, told_y, e2) =
        bind_split second (λ x. rest) (first w).1 last (published b commit url) e1 in
      recorded-IsBound fp verifier_reason untested branch sha ref b commit url
        (second (first w).1).1 last e2

  publish-IsBound :
      (fp : Fingerprint) (result : FixResult) (rca_summary verifier_reason : String)
      (untested : Bool) (base branch b commit url : String) (w last : World (port.Remote))
      → publish port proposals number texts fp result rca_summary verifier_reason untested base
          branch w
        ≡ (returned (published b commit url), last)
      → IsBound fp b url last
  unfolding publish
  publish-IsBound fp result rca_summary verifier_reason untested base branch b commit url w last e =
      let first = on_forge (
        proposals.commit_files branch ("wakey: suggested fix for fp:" <> fp.fp_hash)
          result.files) in
      let (sha, told_sha, e1) =
        bind_split first
          (propose port proposals number texts fp result rca_summary verifier_reason untested base
            branch)
          w last (published b commit url) e in
      let second = on_forge (
        proposals.open_draft_proposal branch (texts.title fp)
          (texts.body fp result rca_summary verifier_reason sha branch base) base) in
      let (ref, told_ref, e2) =
        bind_split second (label port proposals number texts fp verifier_reason untested branch sha)
          (first w).1 last (published b commit url) e1 in
      label-IsBound fp verifier_reason untested branch sha ref b commit url (second (first w).1).1
        last e2

  -- A delivery that says it published a proposal was of a fix that is done and changed files, and
  -- leaves the fingerprint waiting for a human and bound to that branch and that proposal.
  pub deliver-IsBound :
      (fp : Fingerprint) (result : FixResult) (rca_summary verifier_reason : String)
      (base_ref : Option String) (untested : Bool) (b commit url : String)
      (w last : World (port.Remote))
      → deliver port proposals number texts fp result rca_summary base_ref verifier_reason untested
          w
        ≡ (returned (published b commit url), last)
      → (result.ok ≡ true) × (no_files result.files ≡ false) × IsBound fp b url last
  unfolding deliver pure
  deliver-IsBound fp result rca_summary verifier_reason base_ref untested b commit url w last e =
      by_gate result.ok (no_files result.files) e
    where
      first : World (port.Remote) → Reply String × World (port.Remote)
      first = on_forge proposals.default_branch

      second : String → World (port.Remote) → Reply String × World (port.Remote)
      second base =
          ensure_branch port proposals number texts fp
            (or_base port proposals number texts base_ref base)

      third : String → String → World (port.Remote) → Reply Delivered × World (port.Remote)
      third base branch =
          publish port proposals number texts fp result rca_summary verifier_reason untested base
            branch

      by_gate :
          (ok empty : Bool)
          → (if not ok
                then pure (undelivered result.reason)
                else if empty
                then pure (undelivered "no changed files to publish")
                else first >>= λ base. second base >>= third base)
              w
            ≡ (returned (published b commit url), last)
          → (ok ≡ true) × (empty ≡ false) × IsBound fp b url last
      by_gate false empty e = ground arith
      by_gate true true e = ground arith
      by_gate true false e =
          let (base, told_base, e1) =
            bind_split first (λ base. second base >>= third base) w last (published b commit url)
              e in
          let (branch, told_branch, e2) =
            bind_split (second base) (third base) (first w).1 last (published b commit url) e1 in
          (
            refl,
            refl,
            publish-IsBound fp result rca_summary verifier_reason untested base branch b commit url
                (second base (first w).1).1 last e2,
          )
