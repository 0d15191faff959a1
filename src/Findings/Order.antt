-- ===== src/Findings/Order.antt =====
-- The order of a report: sorted, a permutation of what fired, and stable.
use netdiag.Prelude.{
  ℕ, ◌≤◌, ◌<◌, ◌≡◌, refl, ◌∙◌, ◌⊎◌, inl, inr, true, false, ◌&&◌, List, [], ◌∷◌, arith, ◌==◌,
  Bool-cases, filter, All,
}
use mathlib.Core.List.{Perm}
use netdiag.Findings.Model.{Check, DiagState, Finding}
use netdiag.Findings.Index.{new}
use netdiag.Findings.Rules.{rules}
use netdiag.Findings.Evaluate.{comes_before, fired, evaluate}
use netdiag.Prelude.Sort.{insert, sort_by, IsSorted, sort_by-IsSorted, sort_by-perm}

-- `a` may stand before `b`: more severe, or as severe and no less certain.
abbrev pub Precedes : Finding → Finding → Type 0
Precedes a b =
    (b.severity < a.severity) ⊎ ((a.severity ≡ b.severity) × (b.confidence ≤ a.confidence))

Precedes-trans : (a b c : Finding) → Precedes a b → Precedes b c → Precedes a c
Precedes-trans a b c h k = ground arith

Precedes-before : (a b : Finding) → comes_before a b ≡ true → Precedes a b
unfolding comes_before
Precedes-before a b h = ground arith

Precedes-not_before : (a b : Finding) → comes_before a b ≡ false → Precedes b a
unfolding comes_before
Precedes-not_before a b h = ground arith

unordered : (fs : List Finding) → IsSorted (λ a b. Unit {0}) fs
unordered [] = tt
unordered (f ∷ fs) = (all_unit fs, unordered fs)
  where
    all_unit : (gs : List Finding) → All (λ g. Unit {0}) gs
    all_unit [] = tt
    all_unit (g ∷ gs) = (tt, all_unit gs)

report-IsSorted : (fs : List Finding) → IsSorted Precedes (sort_by comes_before fs)
report-IsSorted fs =
    sort_by-IsSorted comes_before Precedes (λ a b. Unit) Precedes-trans Precedes-before
      (λ a b d h. Precedes-not_before b a h) fs (unordered fs)

-- The findings of one severity and one confidence.
abbrev pub ties : ℕ → ℕ → List Finding → List Finding
ties severity confidence = filter (λ f. f.severity == severity && f.confidence == confidence)

ties-insert :
    (s c : ℕ) (f : Finding) (fs : List Finding)
    → ties s c (insert comes_before f fs) ≡ ties s c (f ∷ fs)
unfolding insert
ties-insert s c f [] = refl
ties-insert s c f (g ∷ fs) = elim (Bool-cases (comes_before g f)) [
  | inl before ↦ rw before (ground (arith, ties-insert s c f fs, Precedes-strict g f before))
  | inr after ↦ rw after refl
]
  where
    Precedes-strict :
        (a b : Finding)
        → comes_before a b ≡ true
        → (b.severity < a.severity) ⊎ (b.confidence < a.confidence)
    Precedes-strict a b h = unfold comes_before in ground arith

ties-sort_by : (s c : ℕ) (fs : List Finding) → ties s c (sort_by comes_before fs) ≡ ties s c fs
unfolding sort_by
ties-sort_by s c [] = refl
ties-sort_by s c (f ∷ fs) =
    ties-insert s c f (sort_by comes_before fs) ∙ ground (arith, ties-sort_by s c fs)

-- A report lists what the rules emitted, each finding once for each rule that emitted it, most
-- severe first and then most certain first, ties in the order of the table.
pub evaluate_order :
    (checks : List Check) (state : DiagState)
    → IsSorted Precedes (evaluate checks state)
      × Perm (evaluate checks state) (fired rules (new checks) state)
      × ((s c : ℕ) → ties s c (evaluate checks state) ≡ ties s c (fired rules (new checks) state))
unfolding evaluate
evaluate_order checks state =
    let found = fired rules (new checks) state in
    (report-IsSorted found, sort_by-perm comes_before found, λ s c. ties-sort_by s c found)
