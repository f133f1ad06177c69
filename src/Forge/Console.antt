-- ===== src/Forge/Console.antt =====
-- forge/port.py, `ConsoleForge`: the development sink, which records every call. What it prints is
-- not modelled.
use mathlib.Core.List.{reverse}
use wakey.Prelude.{
  List, Option, String, [], find_where, none, some, ◌++◌, ◌<>◌, ◌==◌, ◌∷◌, Bool, remove_prefix,
}
use wakey.Models.{Fingerprint}
use wakey.Forge.{ForgePort, Reply, TicketRef, returned}

pub record Console : Type 0 where
  pub created : List (Fingerprint × String)
  pub comments : List (TicketRef × String)
  pub closed : List TicketRef
  pub reopened : List TicketRef
  pub labels : List (TicketRef × String)

unfoldable pub console_ref : Fingerprint → TicketRef
console_ref fp = record {
  issue_id = "console-" <> fp.fp_hash;
  url = "console://tickets/" <> fp.fp_hash;
}

abbrev is_created : String → Fingerprint × String → Bool
is_created stem (fp, body) = fp.fp_hash == stem

unfoldable pub create_ticket : Fingerprint → String → String → Console → Reply TicketRef × Console
unfolding console_ref
create_ticket fp title body c =
    (returned (console_ref fp), record c { created = c.created ++ (fp, body) ∷ [] })

-- the newest created fingerprint whose hash the marker names
unfoldable pub find_ticket_by_marker : String → Console → Reply (Option TicketRef) × Console
unfolding console_ref remove_prefix
find_ticket_by_marker marker c = (
  returned (elim (find_where (is_created (remove_prefix "fp:" marker)) (reverse c.created)) [
    | none ↦ none
    | some (fp, _) ↦ some (console_ref fp)
  ]),
  c,
)

abbrev pub console : ForgePort
console = record {
  Remote = Console;
  create_ticket = create_ticket;
  find_ticket_by_marker = find_ticket_by_marker;
  add_comment =
      λ ticket body c. (returned tt, record c { comments = c.comments ++ (ticket, body) ∷ [] });
  close_ticket = λ ticket comment c. (returned tt, record c { closed = c.closed ++ ticket ∷ [] });
  reopen_ticket =
      λ ticket comment c. (returned tt, record c { reopened = c.reopened ++ ticket ∷ [] });
  add_label =
      λ ticket label c. (returned tt, record c { labels = c.labels ++ (ticket, label) ∷ [] });
}
