-- ===== src/Prelude/Sort.antt =====
-- Rust's stable `sort_by`: `before a b` says that the comparison answers `Less` for `a` against `b`.
use mathlib.Core.Path.{◌≡◌, refl, ap, ◌∙◌}
use mathlib.Core.Bool.{Bool, true, false, ◌||◌}
use mathlib.Core.Logic.{inl, inr}
use mathlib.Core.List.{List, [], ◌∷◌, Perm}
use mathlib.Core.List.Perm
use native.Mathlib.Omega.{arith}
use netdiag.Prelude.Tests.{if◌then◌else◌, Bool-cases}
use netdiag.Prelude.Lists.{All, any}

module _ {ℓ} {A : Type ℓ} (before : A → A → Bool) where
  -- An element stays in front of those that it does not come after.
  unfoldable pub insert : A → List A → List A
  insert x [] = x ∷ []
  insert x (y ∷ ys) = if before y x then y ∷ insert x ys else x ∷ y ∷ ys

  unfoldable pub sort_by : List A → List A
  unfolding insert
  sort_by [] = []
  sort_by (x ∷ xs) = insert x (sort_by xs)

  insert-perm : (x : A) (ys : List A) → Perm (insert x ys) (x ∷ ys)
  unfolding insert
  insert-perm x [] = Perm.refl (x ∷ [])
  insert-perm x (y ∷ ys) = elim (Bool-cases (before y x)) [
    | inl first ↦ rw first (Perm.trans (Perm.cons y (insert-perm x ys)) (Perm.swap x y ys))
    | inr second ↦ rw second (Perm.refl (x ∷ y ∷ ys))
  ]

  pub sort_by-perm : (xs : List A) → Perm (sort_by xs) xs
  unfolding sort_by
  sort_by-perm [] = Perm.refl []
  sort_by-perm (x ∷ xs) = Perm.trans (insert-perm x (sort_by xs)) (Perm.cons x (sort_by-perm xs))

module _ {ℓ κ} {A : Type ℓ} (before : A → A → Bool) (P : A → Type κ) where
  pub All-insert : (x : A) (ys : List A) → P x → All P ys → All P (insert before x ys)
  unfolding insert
  All-insert x [] p ps = (p, ps)
  All-insert x (y ∷ ys) p (q, ps) = elim (Bool-cases (before y x)) [
    | inl first ↦ rw first (q, All-insert x ys p ps)
    | inr second ↦ rw second (p, (q, ps))
  ]

  pub All-sort_by : (xs : List A) → All P xs → All P (sort_by before xs)
  unfolding sort_by
  All-sort_by [] ps = ps
  All-sort_by (x ∷ xs) (p, ps) = All-insert x (sort_by before xs) p (All-sort_by xs ps)

module _ {ℓ} {A : Type ℓ} (before : A → A → Bool) (p : A → Bool) where
  any-insert : (x : A) (ys : List A) → any p (insert before x ys) ≡ (p x || any p ys)
  unfolding insert
  any-insert x [] = refl
  any-insert x (y ∷ ys) = ground (arith, any-insert x ys)

  pub any-sort_by : (xs : List A) → any p (sort_by before xs) ≡ any p xs
  unfolding sort_by
  any-sort_by [] = refl
  any-sort_by (x ∷ xs) = any-insert x (sort_by before xs) ∙ ap (λ b. p x || b) (any-sort_by xs)

-- Every element stands in `R` to all that follow it.
abbrev pub IsSorted {ℓ κ} : {A : Type ℓ} → (A → A → Type κ) → List A → Type κ
IsSorted R [] = Unit
IsSorted R (x ∷ xs) = All (R x) xs × IsSorted R xs

-- `D` is what the elements are known to satisfy in pairs, before the sort.
module _ {ℓ} {A : Type ℓ} (before : A → A → Bool) (R D : A → A → Type 0)
    (R-trans : (a b c : A) → R a b → R b c → R a c)
    (R_of_before : (a b : A) → before a b ≡ true → R a b)
    (R_of_not_before : (a b : A) → D a b → before b a ≡ false → R a b) where
  All-R : (a b : A) (cs : List A) → R a b → All (R b) cs → All (R a) cs
  All-R a b [] h hs = tt
  All-R a b (c ∷ cs) h (k, ks) = (R-trans a b c h k, All-R a b cs h ks)

  insert-IsSorted :
      (x : A) (ys : List A) → All (D x) ys → IsSorted R ys → IsSorted R (insert before x ys)
  unfolding insert
  insert-IsSorted x [] ds s = (tt, tt)
  insert-IsSorted x (y ∷ ys) (d, ds) (hs, s) = elim (Bool-cases (before y x)) [
    | inl first ↦
        rw first
          (All-insert before (R y) x ys (R_of_before y x first) hs, insert-IsSorted x ys ds s)
    | inr second ↦
        let h = R_of_not_before x y d second in rw second ((h, All-R x y ys h hs), (hs, s))
  ]

  pub sort_by-IsSorted : (xs : List A) → IsSorted D xs → IsSorted R (sort_by before xs)
  unfolding sort_by
  sort_by-IsSorted [] ds = tt
  sort_by-IsSorted (x ∷ xs) (d, ds) =
      insert-IsSorted x (sort_by before xs) (All-sort_by before (D x) xs d) (sort_by-IsSorted xs ds)
