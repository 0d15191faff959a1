-- ===== src/Prelude/Bits.antt =====
-- `&` and `|` on native numbers: the equation of one binary digit, and from it the laws that the
-- masks and packed fields of the program need, at every width.
use Prim.Native.Nat.{digits, bit_and, bit_or, bit_and-bitwise, bit_or-bitwise, max}
use Prim.Native.Nat.{ℕ, zero, suc, ◌+◌, ◌-◌, ◌*◌, ◌/◌, ◌%◌, ◌^◌, ◌≤◌, ◌<◌, min}
use mathlib.Core.Path.{◌≡◌, refl, sym, ap, ◌∙◌}
use mathlib.Core.Logic.{inl, inr}
use netdiag.Prelude.Tests.{◌==◌, ==_iff, Bool-cases}
use native.Mathlib.Nat.{pow-suc, one-le-pow, div-add-mod}
use native.Mathlib.Omega.{arith}

module _ (z : ℕ → ℕ) (f : ℕ → ℕ → ℕ) where
  abbrev run : ℕ → ℕ → ℕ → ℕ
  run = digits z f

  -- One unit of fuel beyond the number itself changes nothing, so none of those beyond it does.
  spare_fuel : (fuel : ℕ) (a b : ℕ) → a ≤ fuel → run (suc fuel) a b ≡ run fuel a b
  spare_fuel zero a b h = rw (none_left a h) refl
    where
      none_left : (a : ℕ) → a ≤ 0 → a ≡ 0
      none_left a h = omega arith
  spare_fuel (suc fuel) zero b h = refl
  spare_fuel (suc fuel) (suc a) b h =
      ap (λ (high : ℕ). high * 2 + f (suc a % 2) (b % 2))
        (spare_fuel fuel (suc a / 2) (b / 2) (omega arith))

  own_fuel : (fuel a b : ℕ) → a ≤ fuel → run fuel a b ≡ run a a b
  own_fuel zero a b h = ap (λ k. run k a b) (sym (no_more a h))
    where
      no_more : (a : ℕ) → a ≤ 0 → a ≡ 0
      no_more a h = omega arith
  own_fuel (suc fuel) a b h = elim (Bool-cases (a == suc fuel)) [
    | inl exact ↦ ap (λ k. run k a b) (sym ((==_iff a (suc fuel)).0 exact))
    | inr spare ↦
        spare_fuel fuel a b (ground (arith, spare)) ∙ own_fuel fuel a b (ground (arith, spare))
  ]

  first_digit :
      (a b : ℕ)
      → run (suc a) (suc a) b ≡ run (suc a / 2) (suc a / 2) (b / 2) * 2 + f (suc a % 2) (b % 2)
  first_digit a b =
      ap (λ (high : ℕ). high * 2 + f (suc a % 2) (b % 2))
        (own_fuel a (suc a / 2) (b / 2) (omega arith))

pub and_digit : (a b : ℕ) → bit_and a b ≡ bit_and (a / 2) (b / 2) * 2 + min (a % 2) (b % 2)
and_digit zero b = omega (arith, bit_and-bitwise 0 b, bit_and-bitwise 0 (b / 2))
and_digit (suc a) b =
    bit_and-bitwise (suc a) b
    ∙ first_digit (λ y. 0) min a b
    ∙ ap (λ (high : ℕ). high * 2 + min (suc a % 2) (b % 2))
        (sym (bit_and-bitwise (suc a / 2) (b / 2)))

or_digit : (a b : ℕ) → bit_or a b ≡ bit_or (a / 2) (b / 2) * 2 + max (a % 2) (b % 2)
or_digit zero b = omega (arith, bit_or-bitwise 0 b, bit_or-bitwise 0 (b / 2))
or_digit (suc a) b =
    bit_or-bitwise (suc a) b
    ∙ first_digit (λ y. y) max a b
    ∙ ap (λ (high : ℕ). high * 2 + max (suc a % 2) (b % 2))
        (sym (bit_or-bitwise (suc a / 2) (b / 2)))

pub zero-or : (b : ℕ) → bit_or 0 b ≡ b
zero-or b = simp bit_or-bitwise (omega arith)

times_two_pow : (q k : ℕ) → q * 2 ^ suc k ≡ 2 * (q * 2 ^ k)
times_two_pow q k = omega (arith, ap (λ (t : ℕ). q * t) (pow-suc 2 k))

-- `r | (q << k)` is a sum when `r` fits the `k` bits below.
pub or_above : (k r q : ℕ) → r < 2 ^ k → bit_or r (q * 2 ^ k) ≡ r + q * 2 ^ k
or_above zero r q fits = ground (arith, zero-or q)
or_above (suc k) r q fits =
    ground
      (arith, or_digit r (q * 2 ^ suc k), times_two_pow q k, or_above k (r / 2) q (omega arith))

-- `|` stays within the word.
pub or-lt : (k a b : ℕ) → a < 2 ^ k → b < 2 ^ k → bit_or a b < 2 ^ k
or-lt zero a b ha hb = ground (arith, zero-or b)
or-lt (suc k) a b ha hb =
    ground (arith, or_digit a b, pow-suc 2 k, or-lt k (a / 2) (b / 2) (omega arith) (omega arith))

and-zero : (k a : ℕ) → a < 2 ^ k → bit_and a 0 ≡ 0
and-zero zero a h = ground (arith, and_digit a 0)
and-zero (suc k) a h = omega (arith, and_digit a 0, pow-suc 2 k, and-zero k (a / 2) (omega arith))

-- `a & 0`, with a width that holds `a`.
pub and_zero : (a : ℕ) → bit_and a 0 ≡ 0
and_zero a = and-zero a a (lt-two_pow a)
  where
    lt-two_pow : (n : ℕ) → n < 2 ^ n
    lt-two_pow zero = omega arith
    lt-two_pow (suc n) = omega (arith, pow-suc 2 n, lt-two_pow n)

-- Below the mask's width the lower field alone is left.
and_fields : (k q r : ℕ) → r < 2 ^ k → bit_and (q * 2 ^ k + r) (2 ^ k - 1) ≡ r
and_fields zero q r fits = rw and_zero (omega arith)
and_fields (suc k) q r fits = ground (
  arith,
  and_digit (q * 2 ^ suc k + r) (2 ^ suc k - 1),
  times_two_pow q k,
  pow-suc 2 k,
  and_fields k q (r / 2) (omega arith),
)

-- A mask of `k` low bits is the remainder by `2 ^ k`.
pub and-mask : (k a : ℕ) → bit_and a (2 ^ k - 1) ≡ a % 2 ^ k
and-mask k a =
    ground (arith, one-le-pow k 2, and_fields k (a / 2 ^ k) (a % 2 ^ k), div-add-mod a (2 ^ k))

and_one_field : (k q r : ℕ) → r < 2 ^ k → bit_and (q * 2 ^ k + r) (2 ^ k) ≡ q % 2 * 2 ^ k
and_one_field zero q r fits = ground (arith, and_digit (q + r) 1, and_zero ((q + r) / 2))
and_one_field (suc k) q r fits = ground (
  arith,
  and_digit (q * 2 ^ suc k + r) (2 ^ suc k),
  times_two_pow q k,
  times_two_pow (q % 2) k,
  pow-suc 2 k,
  and_one_field k q (r / 2) (omega arith),
)

-- One bit tests one binary digit.
pub and-bit : (k a : ℕ) → bit_and a (2 ^ k) ≡ a / 2 ^ k % 2 * 2 ^ k
and-bit k a =
    ground (arith, one-le-pow k 2, and_one_field k (a / 2 ^ k) (a % 2 ^ k), div-add-mod a (2 ^ k))
