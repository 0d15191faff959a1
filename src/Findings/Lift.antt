-- ===== src/Findings/Lift.antt =====
-- What holds of everything that the rules emit holds of every finding of a report.
use netdiag.Prelude.{◌≡◌, inl, inr, some, List, [], ◌∷◌, Option-cases, All}
use netdiag.Prelude.Sort.{All-sort_by}
use netdiag.Findings.Model.{Check, DiagState, Finding}
use netdiag.Findings.Index.{CheckIndex, new}
use netdiag.Findings.Rules.{Rule, rules}
use netdiag.Findings.Evaluate.{comes_before, fired, evaluate}

abbrev pub Emits : (Finding → Type 0) → CheckIndex → DiagState → Rule → Type 0
Emits P index state rule = (f : Finding) → rule index state ≡ some f → P f

module _ (P : Finding → Type 0) where
  pub All-fired :
      (table : List Rule) (index : CheckIndex) (state : DiagState)
      → All (Emits P index state) table
      → All P (fired table index state)
  unfolding fired
  All-fired [] index state hs = tt
  All-fired (rule ∷ table) index state (h, hs) = elim (Option-cases (rule index state)) [
    | inl silent ↦ rw silent (All-fired table index state hs)
    | inr (f, emitted) ↦ rw emitted (h f emitted, All-fired table index state hs)
  ]

  pub All-evaluate :
      (checks : List Check) (state : DiagState)
      → All (Emits P (new checks) state) rules
      → All P (evaluate checks state)
  unfolding evaluate
  All-evaluate checks state hs =
      All-sort_by comes_before P (fired rules (new checks) state)
        (All-fired rules (new checks) state hs)
