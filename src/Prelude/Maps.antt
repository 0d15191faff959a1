-- ===== src/Prelude/Maps.antt =====
-- Rust's `HashMap` as an association list; `eq` is the equality of the keys.
use mathlib.Core.Path.{◌≡◌, refl, sym, ◌∙◌, ap}
use mathlib.Core.Logic.{inl, inr}
use mathlib.Core.Bool.{Bool, true, false, not}
use mathlib.Core.Option.{Option, none, some}
use mathlib.Core.List.{List, [], ◌∷◌}
use netdiag.Prelude.Tests.{if◌then◌else◌, Bool-cases}
use netdiag.Prelude.Lists.{filter}

module _ {ℓ κ} {K : Type ℓ} {A : Type κ} (eq : K → K → Bool) where
  unfoldable pub get : List (K × A) → K → Option A
  get [] key = none
  get ((k, a) ∷ rest) key = let later = get rest key in if eq k key then some a else later

  -- `HashMap::insert`: the old value of the key is gone.
  unfoldable pub put : K → A → List (K × A) → List (K × A)
  put key a entries = (key, a) ∷ filter (λ e. not (eq e.0 key)) entries

  -- `HashMap::remove`
  unfoldable pub remove : K → List (K × A) → List (K × A)
  remove key entries = filter (λ e. not (eq e.0 key)) entries

  module _ (sound : (a b : K) → eq a b ≡ true → a ≡ b) (eq_self : (a : K) → eq a a ≡ true) where
    pub get-remove : (key : K) (entries : List (K × A)) → get (remove key entries) key ≡ none
    unfolding get remove
    get-remove key [] = refl
    get-remove key ((k, a) ∷ rest) = elim (Bool-cases (eq k key)) [
      | inl same ↦ rw same (get-remove key rest)
      | inr different ↦ rw (different, different) (get-remove key rest)
    ]

    pub get-remove_other :
        (key other : K) (entries : List (K × A))
        → eq key other ≡ false
        → get (remove key entries) other ≡ get entries other
    unfolding get remove
    get-remove_other key other [] h = refl
    get-remove_other key other ((k, a) ∷ rest) h = elim (Bool-cases (eq k key)) [
      | inl same ↦
          let absent : eq k other ≡ false = ap (λ j. eq j other) (sound k key same) ∙ h in
          rw (same, absent) (get-remove_other key other rest h)
      | inr different ↦ rw (different, get-remove_other key other rest h) refl
    ]

    -- The two at once.
    pub get-remove_if :
        (key other : K) (entries : List (K × A))
        → get (remove key entries) other ≡ (if eq key other then none else get entries other)
    get-remove_if key other entries = elim (Bool-cases (eq key other)) [
      | inl same ↦
          rw same
            (ap (get (remove key entries)) (sym (sound key other same)) ∙ get-remove key entries)
      | inr different ↦ rw different (get-remove_other key other entries different)
    ]

    pub get-put : (key : K) (a : A) (entries : List (K × A)) → get (put key a entries) key ≡ some a
    unfolding get put
    get-put key a entries = rw (eq_self key) refl

    pub get-put_other :
        (key other : K) (a : A) (entries : List (K × A))
        → eq key other ≡ false
        → get (put key a entries) other ≡ get entries other
    unfolding get put remove
    get-put_other key other a entries h = rw h (get-remove_other key other entries h)
