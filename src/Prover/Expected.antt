-- ===== src/Prover/Expected.antt =====
-- conductor/prover.py, `build_expected_interfaces`: what a prompt says that an agent delivers.
-- `lower` is str.lower.
use ciwarden.Base.{
  String, Bool, ◌||◌, not, List, [], ◌∷◌, ◌++◌, map, if◌then◌else◌, filter, Dict, put,
}
use ciwarden.Base.Text.{starts_with, split, after_first, is_empty, strip, splitlines}
use ciwarden.Session.{AgentSpec}

abbrev pub announces : String → Bool
announces stripped =
    starts_with "exposes:" stripped
    || (starts_with "deliverables:" stripped
        || (starts_with "- exposes" stripped || starts_with "* exposes" stripped))

-- The items of a line, which keep their case.
abbrev pub items_of : String → List String
items_of line =
    filter (λ item. not (is_empty item)) (map strip (split b',' (after_first b':' line)))

abbrev pub deliverables_of : (String → String) → List String → List String
deliverables_of lower [] = []
deliverables_of lower (line ∷ lines) =
    let rest = deliverables_of lower lines in
    if announces (lower (strip line)) then items_of line ++ rest else rest

-- Each module_key with its deliverables.
abbrev pub expected_into :
    (String → String) → Dict (List String) → List AgentSpec → Dict (List String)
expected_into lower expected [] = expected
expected_into lower expected (a ∷ agents) =
    expected_into lower (put a.module_key (deliverables_of lower (splitlines a.prompt)) expected)
      agents

unfoldable pub build_expected_interfaces : (String → String) → List AgentSpec → Dict (List String)
build_expected_interfaces lower agents = expected_into lower [] agents
