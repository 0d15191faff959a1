-- ===== src/Prelude/First.antt =====
-- What `find` finds: the first element that a test picks.
use mathlib.Core.Option.{some-injective}
use netdiag.Prelude.{
  ◌≡◌, refl, sym, ap, ◌∙◌, inl, inr, Bool, true, false, some, List, [], ◌∷◌, ◌++◌, Bool-cases, find,
  All,
}

module _ {ℓ} {A : Type ℓ} where
  abbrev pub IsFirst : (A → Bool) → List A → A → Type ℓ
  IsFirst p xs a =
      (before : List A) × (after : List A) × (xs ≡ before ++ a ∷ after)
      × All (λ k. p k ≡ false) before
      × (p a ≡ true)

  module _ (p q : A → Bool) (same : (a : A) → p a ≡ q a) where
    pub find-IsFirst : (xs : List A) (a : A) → find p xs ≡ some a → IsFirst q xs a
    find-IsFirst [] a e = cc
    find-IsFirst (k ∷ xs) a e = elim (Bool-cases (p k)) [
      | inl hit ↦
          let it : k ≡ a = some-injective k a (rw hit at e) in
          ([], xs, ap (λ x. x ∷ xs) it, tt, ap q (sym it) ∙ sym (same k) ∙ hit)
      | inr missed ↦
          let (before, after, split, none_before, picked) = find-IsFirst xs a (rw missed at e) in
          (
            k ∷ before,
            after,
            ap (λ rest. k ∷ rest) split,
            (sym (same k) ∙ missed, none_before),
            picked,
          )
    ]

    pub IsFirst-find : (xs : List A) (a : A) → IsFirst q xs a → find p xs ≡ some a
    IsFirst-find xs a (before, after, split, none_before, picked) =
        ap (find p) split ∙ skip before none_before
      where
        skip :
            (before : List A)
            → All (λ k. q k ≡ false) before
            → find p (before ++ a ∷ after) ≡ some a
        skip [] h = rw (same a ∙ picked) refl
        skip (k ∷ before) (h, rest) = rw (same k ∙ h) (skip before rest)
