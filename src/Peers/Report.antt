-- ===== src/Peers/Report.antt =====
-- memory/peer_checker.py, `format_conflict_report`: the report says more with each attempt. `str` is
-- str() of a number.
use ciwarden.Base.{ℕ, String, Bool, ◌&&◌, not, List, [], ◌∷◌, ◌++◌, if◌then◌else◌, ◌==◌, leb}
use ciwarden.Base.Text.{is_empty, join}
use ciwarden.Peers.{ConflictKind, collision, interface_mismatch, assumption_clash, Conflict}

abbrev pub kind_text : ConflictKind → String
kind_text collision = "COLLISION"
kind_text interface_mismatch = "INTERFACE_MISMATCH"
kind_text assumption_clash = "ASSUMPTION_CLASH"

-- The peer has a signature to align with.
abbrev pub has_signature : Conflict → Bool
has_signature c =
    not (is_empty c.peer_signature) && not (c.peer_signature == "(not exposed by any peer)")

abbrev pub signature_lines : ℕ → Conflict → List String
signature_lines attempt c =
    if leb 2 attempt && has_signature c
    then join "" ("  Correct signature: " ∷ c.peer_signature ∷ []) ∷ []
    else []

abbrev pub code_lines : ℕ → Conflict → List String
code_lines attempt c =
    if leb 3 attempt && has_signature c
    then "  Exact code:"
      ∷ join "" ("    " ∷ c.peer_signature ∷ " {" ∷ [])
      ∷ "        // implement to match the exposed contract"
      ∷ "    }"
      ∷ []
    else []

abbrev pub conflict_lines : ℕ → Conflict → List String
conflict_lines attempt c =
    ("CONFLICT DETECTED:"
      ∷ join "" ("  Type: " ∷ kind_text c.kind ∷ [])
      ∷ join "" ("  Symbol: " ∷ c.symbol ∷ [])
      ∷ join "" ("  " ∷ c.detail ∷ [])
      ∷ ""
      ∷ "FIX REQUIRED:"
      ∷ join "" ("  " ∷ c.fix ∷ [])
      ∷ [])
    ++ (signature_lines attempt c ++ (code_lines attempt c ++ "" ∷ []))

abbrev pub all_lines : ℕ → List Conflict → List String
all_lines attempt [] = []
all_lines attempt (c ∷ conflicts) = conflict_lines attempt c ++ all_lines attempt conflicts

unfoldable pub format_conflict_report :
    (str : ℕ → String) (now agent_id subsystem : String) (conflicts : List Conflict) (attempt : ℕ)
    (staging_dir : String)
    → String
format_conflict_report str now agent_id subsystem conflicts attempt staging_dir = join "\n" (
    (join "" ("CONDUCTOR — CONFLICT REPORT (Attempt " ∷ str attempt ∷ ")" ∷ [])
      ∷ join "" ("Agent " ∷ agent_id ∷ " | Subsystem: " ∷ subsystem ∷ [])
      ∷ join "" ("Timestamp: " ∷ now ∷ [])
      ∷ ""
      ∷ [])
    ++ (all_lines attempt conflicts
        ++ ("Rewrite affected file(s) and resubmit to:"
            ∷ join "" ("  " ∷ staging_dir ∷ [])
            ∷ ""
            ∷ "Write .done when complete."
            ∷ [])))
