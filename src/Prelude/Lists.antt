-- ===== src/Prelude/Lists.antt =====
-- Lists measured and indexed by native numbers, under the library's names.
use Prim.Native.Nat.{ℕ, zero, suc, ◌+◌, ◌-◌, ◌<◌, min}
use mathlib.Core.Path.{◌≡◌, refl, ap, subst}
use mathlib.Core.Logic.{inl, inr}
use mathlib.Core.Bool.{Bool, true, false, ◌&&◌, ◌||◌}
use mathlib.Core.List.{List, [], ◌∷◌, ◌++◌}
use mathlib.Core.Option.{Option, none, some, some-injective}
use native.Mathlib.Omega.{arith}
use netdiag.Prelude.Tests.{if◌then◌else◌, ◌==◌, ◌!=◌, Bool-cases}

module _ {ℓ} {A : Type ℓ} where
  abbrev pub length : List A → ℕ
  length [] = 0
  length (x ∷ xs) = suc (length xs)

  abbrev pub get_elem? : List A → ℕ → Option A
  get_elem? [] i = none
  get_elem? (x ∷ xs) zero = some x
  get_elem? (x ∷ xs) (suc i) = get_elem? xs i

  abbrev pub take : ℕ → List A → List A
  take zero xs = []
  take (suc n) [] = []
  take (suc n) (x ∷ xs) = x ∷ take n xs

  abbrev pub drop : ℕ → List A → List A
  drop zero xs = xs
  drop (suc n) [] = []
  drop (suc n) (x ∷ xs) = drop n xs

  abbrev pub replicate : ℕ → A → List A
  replicate zero a = []
  replicate (suc n) a = a ∷ replicate n a

  abbrev pub is_empty : List A → Bool
  is_empty [] = true
  is_empty (x ∷ xs) = false

  abbrev pub first : List A → Option A
  first [] = none
  first (x ∷ xs) = some x

  -- Rust's `iter().any`, `iter().find` and `iter().filter`.
  abbrev pub any : (A → Bool) → List A → Bool
  any p [] = false
  any p (x ∷ xs) = p x || any p xs

  abbrev pub find : (A → Bool) → List A → Option A
  find p [] = none
  find p (x ∷ xs) = if p x then some x else find p xs

  abbrev pub filter : (A → Bool) → List A → List A
  filter p [] = []
  filter p (x ∷ xs) = let rest = filter p xs in if p x then x ∷ rest else rest

  abbrev pub All {κ} : (A → Type κ) → List A → Type κ
  All P [] = Unit {κ}
  All P (x ∷ xs) = P x × All P xs

  pub length-append : (xs ys : List A) → length (xs ++ ys) ≡ length xs + length ys
  length-append [] ys = omega arith
  length-append (x ∷ xs) ys = omega (arith, length-append xs ys)

  pub length-drop : (n : ℕ) (xs : List A) → length (drop n xs) ≡ length xs - n
  length-drop zero xs = omega arith
  length-drop (suc n) [] = omega arith
  length-drop (suc n) (x ∷ xs) = omega (arith, length-drop n xs)

  pub length-take : (n : ℕ) (xs : List A) → length (take n xs) ≡ min n (length xs)
  length-take zero xs = omega arith
  length-take (suc n) [] = omega arith
  length-take (suc n) (x ∷ xs) = omega (arith, length-take n xs)

  pub take-append_self : (xs ys : List A) → take (length xs) (xs ++ ys) ≡ xs
  take-append_self [] ys = refl
  take-append_self (x ∷ xs) ys = ap (◌∷◌ x) (take-append_self xs ys)

  pub drop-append_self : (xs ys : List A) → drop (length xs) (xs ++ ys) ≡ ys
  drop-append_self [] ys = refl
  drop-append_self (x ∷ xs) ys = drop-append_self xs ys

-- `contains` on a list of numbers.
abbrev pub contains : List ℕ → ℕ → Bool
contains [] a = false
contains (x ∷ xs) a = x == a || contains xs a

-- What is left of a set where one number is taken out.
pub contains-filter :
    (i j : ℕ) (set : List ℕ) → contains (filter (λ k. k != i) set) j ≡ (i != j && contains set j)
contains-filter i j [] = ground arith
contains-filter i j (k ∷ set) = ground (arith, contains-filter i j set)

module _ {ℓ κ ι} {A : Type ℓ} (P : A → Type κ) {Q : A → Type ι} where
  pub All-map : (xs : List A) → ((a : A) → P a → Q a) → All P xs → All Q xs
  All-map [] h ps = tt
  All-map (x ∷ xs) h (p, ps) = (h x p, All-map xs h ps)

module _ {ℓ κ ι} {A : Type ℓ} (P : A → Type κ) (Q : A → Type ι) (p : A → Bool) where
  pub All-filter :
      (xs : List A) → ((a : A) → p a ≡ true → P a → Q a) → All P xs → All Q (filter p xs)
  All-filter [] h ps = tt
  All-filter (x ∷ xs) h (q, qs) = elim (Bool-cases (p x)) [
    | inl kept ↦ rw kept (h x kept q, All-filter xs h qs)
    | inr dropped ↦ rw dropped (All-filter xs h qs)
  ]

module _ {ℓ κ} {A : Type ℓ} (P : A → Type κ) (p : A → Bool) where
  pub All-find : (xs : List A) (a : A) → find p xs ≡ some a → All P xs → P a
  All-find [] a h ps = cc
  All-find (x ∷ xs) a h (q, qs) = elim (Bool-cases (p x)) [
    | inl here ↦ subst P (some-injective x a (rw here at h)) q
    | inr later ↦ All-find xs a (rw later at h) qs
  ]

module _ {ℓ} {A : Type ℓ} (p : A → Bool) where
  -- What `find` returns passes the test, and where it returns nothing, nothing does.
  pub find-some : (xs : List A) (a : A) → find p xs ≡ some a → p a ≡ true
  find-some [] a h = cc
  find-some (x ∷ xs) a h = elim (Bool-cases (p x)) [
    | inl here ↦ ground (arith, here)
    | inr later ↦ find-some xs a (rw later at h)
  ]

  pub find-none : (xs : List A) → find p xs ≡ none → All (λ a. p a ≡ false) xs
  find-none [] h = tt
  find-none (x ∷ xs) h = elim (Bool-cases (p x)) [
    | inl here ↦ absurd (ground (arith, here))
    | inr later ↦ (later, find-none xs (rw later at h))
  ]

module _ {ℓ} {A : Type ℓ} (p : A → Bool) where
  pub any_none : (xs : List A) → All (λ a. p a ≡ false) xs → any p xs ≡ false
  any_none [] h = refl
  any_none (x ∷ xs) (fails, h) = rw (fails, any_none xs h) refl

  pub any-find : (xs : List A) → any p xs ≡ elim (find p xs) [ none ↦ false | some a ↦ true ]
  any-find [] = refl
  any-find (x ∷ xs) = elim (Bool-cases (p x)) [
    | inl here ↦ rw here refl
    | inr later ↦ rw later (any-find xs)
  ]

pub length-pos {ℓ} : {A : Type ℓ} (xs : List A) → is_empty xs ≡ false → 0 < length xs
length-pos [] h = cc
length-pos (x ∷ xs) h = omega arith
