-- ===== src/Diag/Headline.antt =====
-- What a report of daemon/src/diag/mod.rs says first, and how it counts its checks.
use netdiag.Prelude.{
  ℕ, ◌+◌, ◌≤◌, ◌≡◌, refl, Bool, Option, none, some, List, [], ◌∷◌, map, arith, ◌==◌, if◌then◌else◌,
  length, first, filter, All,
}
use netdiag.Prelude.Sort.{IsSorted}
use netdiag.Findings.Model
use netdiag.Findings.Model.{CheckStatus, status_of_code, Finding}
use netdiag.Findings.Evaluate.{evaluate}
use netdiag.Findings.Order.{Precedes, evaluate_order}
use netdiag.Diag.Builder.{Check, as_evidence}
use netdiag.Diag.Report.{
  count_status, count_checks, Counts, no_counts, worst_of, summary_of, DiagnoseResponse, finish,
}

-- The end of `run`: the rules are run on the checks.
unfoldable pub conclude : List Check → Model.DiagState → DiagnoseResponse
unfolding finish
conclude checks state = finish checks (evaluate (map as_evidence checks) state)

-- The finding that a report puts first says what the report says.
abbrev pub Headlines : Option Finding → DiagnoseResponse → Type 0
Headlines none r = r.worst_severity ≡ 0
Headlines (some f) r = (r.worst_severity ≡ f.severity) × (r.summary ≡ f.title)

worst_of-Precedes :
    (f : Finding) (fs : List Finding) → All (Precedes f) fs → worst_of fs ≤ f.severity
unfolding worst_of
worst_of-Precedes f [] h = omega arith
worst_of-Precedes f (g ∷ fs) (p, h) = ground (arith, p, worst_of-Precedes f fs h)

finish-Headlines :
    (checks : List Check) (fs : List Finding)
    → IsSorted Precedes fs
    → Headlines (first fs) (finish checks fs)
unfolding finish worst_of summary_of
finish-Headlines checks [] h = refl
finish-Headlines checks (f ∷ fs) (p, h) = (ground (arith, worst_of-Precedes f fs p), refl)

abbrev pub has_status : CheckStatus → Check → Bool
has_status CheckStatus.pass c = c.status == 1
has_status CheckStatus.fail c = c.status == 2
has_status CheckStatus.warn c = c.status == 3
has_status CheckStatus.skip c = c.status == 4
has_status CheckStatus.info c = c.status == 5
has_status CheckStatus.running c = c.status == 6
has_status CheckStatus.unspecified c = c.status == 0

-- How many checks have a status.
abbrev pub number : CheckStatus → List Check → ℕ
number status checks = length (filter (has_status status) checks)

-- A number that counts the first check and then the others.
one_more :
    (status : CheckStatus) (c : Check) (checks : List Check) (before : ℕ) {middle after : ℕ}
    → middle ≡ before + (if has_status status c then 1 else 0)
    → after ≡ middle + number status checks
    → after ≡ before + number status (c ∷ checks)
one_more status c checks before p q = ground (arith, p, q)

counted :
    (c : Check) (n : Counts)
    → ((count_status (status_of_code c.status) n).passed
        ≡ n.passed + (if has_status CheckStatus.pass c then 1 else 0))
      × ((count_status (status_of_code c.status) n).failed
          ≡ n.failed + (if has_status CheckStatus.fail c then 1 else 0))
      × ((count_status (status_of_code c.status) n).warned
          ≡ n.warned + (if has_status CheckStatus.warn c then 1 else 0))
      × ((count_status (status_of_code c.status) n).skipped
          ≡ n.skipped + (if has_status CheckStatus.skip c then 1 else 0))
unfolding count_status
counted c n = (ground arith, ground arith, ground arith, ground arith)

count_checks-number :
    (checks : List Check) (n : Counts)
    → ((count_checks checks n).passed ≡ n.passed + number CheckStatus.pass checks)
      × ((count_checks checks n).failed ≡ n.failed + number CheckStatus.fail checks)
      × ((count_checks checks n).warned ≡ n.warned + number CheckStatus.warn checks)
      × ((count_checks checks n).skipped ≡ n.skipped + number CheckStatus.skip checks)
unfolding count_checks
count_checks-number [] n = (omega arith, omega arith, omega arith, omega arith)
count_checks-number (c ∷ checks) n =
    let (p, f, w, s) = counted c n in
    let (ps, fs, ws, ss) = count_checks-number checks (count_status (status_of_code c.status) n) in
    (
      one_more CheckStatus.pass c checks n.passed p ps,
      one_more CheckStatus.fail c checks n.failed f fs,
      one_more CheckStatus.warn c checks n.warned w ws,
      one_more CheckStatus.skip c checks n.skipped s ss,
    )

-- What a report says is what its first finding says, with that finding's severity as the worst; its counts are the
-- numbers of its checks that passed, failed, warned and were skipped.
pub conclude-Headlines :
    (checks : List Check) (state : Model.DiagState)
    → Headlines (first (evaluate (map as_evidence checks) state)) (conclude checks state)
      × ((conclude checks state).counts.passed ≡ number CheckStatus.pass checks)
      × ((conclude checks state).counts.failed ≡ number CheckStatus.fail checks)
      × ((conclude checks state).counts.warned ≡ number CheckStatus.warn checks)
      × ((conclude checks state).counts.skipped ≡ number CheckStatus.skip checks)
unfolding conclude finish
conclude-Headlines checks state =
    let (passed, failed, warned, skipped) = count_checks-number checks no_counts in
    (
      finish-Headlines checks (evaluate (map as_evidence checks) state)
          ((evaluate_order (map as_evidence checks) state).0),
      ground (arith, passed),
      ground (arith, failed),
      ground (arith, warned),
      ground (arith, skipped),
    )
