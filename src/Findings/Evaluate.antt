-- ===== src/Findings/Evaluate.antt =====
-- daemon/src/diag/rules.rs: `evaluate` runs every rule and sorts the findings.
use netdiag.Prelude.{Bool, true, false, Option, none, some, List, [], ◌∷◌, ltb, ◌==◌, if◌then◌else◌}
use netdiag.Prelude.Sort.{sort_by}
use netdiag.Findings.Model.{Check, DiagState, Finding}
use netdiag.Findings.Index.{CheckIndex, new}
use netdiag.Findings.Rules.{Rule, rules}

-- The comparison of `findings.sort_by` answers `Less` for `a` against `b`.
unfoldable pub comes_before : Finding → Finding → Bool
comes_before a b =
    if ltb b.severity a.severity
    then true
    else if a.severity == b.severity
    then ltb b.confidence a.confidence
    else false

-- `if let Some(f) = rule(&index, state) { findings.push(f) }`
pub push : Option Finding → List Finding → List Finding
push none findings = findings
push (some f) findings = f ∷ findings

unfoldable pub fired : List Rule → CheckIndex → DiagState → List Finding
unfolding push
fired [] index state = []
fired (rule ∷ rest) index state = push (rule index state) (fired rest index state)

unfoldable pub evaluate : List Check → DiagState → List Finding
unfolding fired
evaluate checks state = let index = new checks in sort_by comes_before (fired rules index state)
