-- ===== src/Prelude/Reads.antt =====
-- When reads of a slice are in range.
use netdiag.Prelude.{
  ℕ, zero, suc, ◌+◌, ◌-◌, ◌≤◌, ◌<◌, ◌≡◌, refl, sym, subst, Bool, true, false, ◌&&◌, Option, none,
  some, List, [], ◌∷◌, arith, ltb, leb, if◌then◌else◌, length, get_elem?, take, drop, u16_be,
  u32_be,
}
use netdiag.Prelude.Slices.{◌>>=◌, slice_from, slice, u16_at, u32_at}

-- The read does not panic.
abbrev pub Succeeds {ℓ} : {A : Type ℓ} → Option A → Type ℓ
Succeeds {A = A} o = (a : A) × (o ≡ some a)

pub some-Succeeds {ℓ} : {A : Type ℓ} (a : A) → Succeeds (some a)
some-Succeeds a = (a, refl)

pub >>=-Succeeds {ℓ κ} :
    {A : Type ℓ} {B : Type κ} (o : Option A) (f : A → Option B)
    → Succeeds o
    → ((a : A) → Succeeds (f a))
    → Succeeds (o >>= f)
>>=-Succeeds o f (a, e) h = subst (λ p. Succeeds (p >>= f)) (sym e) (h a)

pub if-Succeeds {ℓ} :
    {A : Type ℓ} (b : Bool) (x y : Option A)
    → (b ≡ true → Succeeds x)
    → (b ≡ false → Succeeds y)
    → Succeeds (if b then x else y)
if-Succeeds true x y h g = h refl
if-Succeeds false x y h g = g refl

pub get_elem?-Succeeds : (bs : List ℕ) (i : ℕ) → i < length bs → Succeeds (get_elem? bs i)
get_elem?-Succeeds [] i h = absurd (omega arith)
get_elem?-Succeeds (b ∷ bs) zero h = (b, refl)
get_elem?-Succeeds (b ∷ bs) (suc i) h = get_elem?-Succeeds bs i (omega arith)

pub slice_from-Succeeds : (bs : List ℕ) (i : ℕ) → i ≤ length bs → Succeeds (slice_from bs i)
slice_from-Succeeds bs i h =
    if-Succeeds (leb i (length bs)) (some (drop i bs)) none (λ e. some-Succeeds (drop i bs))
      (λ e. absurd (ground arith))

pub slice-Succeeds : (bs : List ℕ) (i j : ℕ) → i ≤ j → j ≤ length bs → Succeeds (slice bs i j)
slice-Succeeds bs i j h k =
    if-Succeeds (leb i j && leb j (length bs)) (some (take (j - i) (drop i bs))) none
      (λ e. some-Succeeds (take (j - i) (drop i bs))) (λ e. absurd (ground arith))

pub u16_at-Succeeds : (bs : List ℕ) (i : ℕ) → i + 1 < length bs → Succeeds (u16_at bs i)
unfolding u16_at
u16_at-Succeeds bs i h =
    >>=-Succeeds (get_elem? bs i) (λ a. do b ← get_elem? bs (i + 1); some (u16_be a b))
      (get_elem?-Succeeds bs i (omega arith))
      (λ a.
        >>=-Succeeds (get_elem? bs (i + 1)) (λ b. some (u16_be a b))
          (get_elem?-Succeeds bs (i + 1) h) (λ b. some-Succeeds (u16_be a b)))

pub u32_at-Succeeds : (bs : List ℕ) (i : ℕ) → i + 3 < length bs → Succeeds (u32_at bs i)
unfolding u32_at
u32_at-Succeeds bs i h = >>=-Succeeds _ _ (get_elem?-Succeeds bs i (omega arith)) (λ a.
    >>=-Succeeds _ _ (get_elem?-Succeeds bs (i + 1) (omega arith)) (λ b.
      >>=-Succeeds _ _ (get_elem?-Succeeds bs (i + 2) (omega arith)) (λ c.
        >>=-Succeeds _ _ (get_elem?-Succeeds bs (i + 3) h) (λ d. some-Succeeds (u32_be a b c d)))))

-- The decoders check the length first.
pub long_enough : (n m : ℕ) → ltb n m ≡ false → m ≤ n
long_enough n m h = ground arith
