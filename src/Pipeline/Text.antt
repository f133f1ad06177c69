-- ===== src/Pipeline/Text.antt =====
-- The texts of a ticket: `_title` and `_body`.
use wakey.Prelude.{List, String, [], join, map, str, take_chars, ◌<>◌, ◌∷◌}
use wakey.Models.{Fingerprint, TraceFrame}

unfoldable pub title : Fingerprint → String
title fp =
    "[wakey] "
    <> (fp.service
        <> (": " <> (take_chars 80 fp.template <> (" (×" <> (str fp.occurrences <> ")")))))

frame_line : TraceFrame → String
frame_line f = "  - " <> (f.path <> (":" <> (str f.line <> (" in " <> f.function))))

-- `frames` is the joined text, and nothing is said of frames where there are none
frame_block : List TraceFrame → String
unfolding frame_line
frame_block [] = ""
frame_block (f ∷ fs) = "\n\n**Top frames**\n" <> join "\n" (map frame_line (f ∷ fs))

unfoldable pub body : Fingerprint → String → String
unfolding frame_block
body fp reason =
    "**Fingerprint** `fp:"
    <> (fp.fp_hash
        <> ("` · **Occurrences** ×"
            <> (str fp.occurrences
                <> (" · **Environment** "
                    <> (fp.environment
                        <> ("\n\n**Template** `"
                            <> (fp.template
                                <> ("`"
                                    <> (frame_block fp.frames
                                        <> ("\n\n**Woke because**: "
                                            <> (reason
                                                <> "\n\nRCA follows once the agent investigates (autonomy: triage).")))))))))))
