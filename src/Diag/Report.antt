-- ===== src/Diag/Report.antt =====
-- daemon/src/diag/mod.rs: `finish`, and which checks `run` makes.
use netdiag.Prelude.{
  ℕ, ◌+◌, String, Bool, false, ◌&&◌, ◌||◌, Option, none, some, List, [], ◌∷◌, leb, ◌==◌,
  if◌then◌else◌, is_empty, contains, concat, show,
}
use netdiag.Findings.Model.{CheckStatus, status_of_code, Finding}
use netdiag.Diag.Builder.{Check}

-- `wanted`: the ids that a request leaves out, and those that it names, where it names any.
unfoldable pub wanted : List ℕ → List ℕ → ℕ → Bool
wanted skip only id = if contains skip id then false else is_empty only || contains only id

pub record Counts : Type 0 where
  pub passed : ℕ
  pub failed : ℕ
  pub warned : ℕ
  pub skipped : ℕ

unfoldable pub count_status : Option CheckStatus → Counts → Counts
count_status (some CheckStatus.pass) n = record n { passed = n.passed + 1 }
count_status (some CheckStatus.fail) n = record n { failed = n.failed + 1 }
count_status (some CheckStatus.warn) n = record n { warned = n.warned + 1 }
count_status (some CheckStatus.skip) n = record n { skipped = n.skipped + 1 }
count_status (some CheckStatus.unspecified) n = n
count_status (some CheckStatus.info) n = n
count_status (some CheckStatus.running) n = n
count_status none n = n

unfoldable pub count_checks : List Check → Counts → Counts
unfolding count_status
count_checks [] n = n
count_checks (c ∷ checks) n = count_checks checks (count_status (status_of_code c.status) n)

abbrev pub no_counts : Counts
no_counts = record { passed = 0; failed = 0; warned = 0; skipped = 0 }

-- `max` of the severities, which are never negative; zero where there is no finding.
unfoldable pub worst_of : List Finding → ℕ
worst_of [] = 0
worst_of (f ∷ fs) = let rest = worst_of fs in if leb rest f.severity then f.severity else rest

unfoldable pub summary_of : List Finding → Counts → String
summary_of (f ∷ fs) n = f.title
summary_of [] n =
    if n.failed == 0 && n.warned == 0
    then "No problems found; connectivity looks healthy on every layer checked"
    else if n.failed == 0
    then concat (show n.warned ∷ " warning(s), nothing conclusive" ∷ [])
    else concat (show n.failed ∷ " check(s) failed but no known pattern matched" ∷ [])

-- `DiagnoseResponse` without its times.
pub record DiagnoseResponse : Type 0 where
  pub checks : List Check
  pub findings : List Finding
  pub summary : String
  pub worst_severity : ℕ
  pub counts : Counts

unfoldable pub finish : List Check → List Finding → DiagnoseResponse
unfolding count_checks worst_of summary_of
finish checks findings =
    let counts = count_checks checks no_counts in
    record {
      checks = checks;
      findings = findings;
      summary = summary_of findings counts;
      worst_severity = worst_of findings;
      counts = counts;
    }
