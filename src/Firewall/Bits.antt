-- ===== src/Firewall/Bits.antt =====
-- daemon/src/collect/firewall.rs: its masks, bit by bit.
use netdiag.Prelude.{ℕ, ◌+◌, ◌*◌, ◌/◌, ◌%◌, ◌<◌, bit_and, ◌≡◌, ap, ◌∙◌, arith}
use Prim.Native.Nat.{bit_and-bitwise}
use netdiag.Prelude.Bits.{and_digit, and_zero}
use netdiag.Firewall.Rule.{deny_bits, complement}

and_even : (a b : ℕ) → bit_and a (b * 2) ≡ bit_and (a / 2) b * 2
and_even a b =
    let half : b * 2 / 2 ≡ b = omega arith in
    let rest : b * 2 % 2 ≡ 0 = omega arith in and_digit a (b * 2) ∙ rw (half, rest) (omega arith)

and_odd : (a b : ℕ) → bit_and a (b * 2 + 1) ≡ bit_and (a / 2) b * 2 + a % 2
and_odd a b =
    let half : (b * 2 + 1) / 2 ≡ b = omega arith in
    let rest : (b * 2 + 1) % 2 ≡ 1 = omega arith in
    and_digit a (b * 2 + 1) ∙ rw (half, rest) (omega arith)

zero-and : (b : ℕ) → bit_and 0 b ≡ 0
zero-and b = bit_and-bitwise 0 b

-- The deny bits are bit 1 and bits 8 to 11.
pub and-deny_bits : (a : ℕ) → bit_and a deny_bits ≡ a / 2 % 2 * 2 + a / 256 % 16 * 256
and-deny_bits a = omega (
  arith,
  and_even a 0x781,
  and_odd (a / 2) 0x3c0,
  and_even (a / 2 / 2) 0x1e0,
  and_even (a / 2 / 2 / 2) 0xf0,
  and_even (a / 2 / 2 / 2 / 2) 0x78,
  and_even (a / 2 / 2 / 2 / 2 / 2) 0x3c,
  and_even (a / 2 / 2 / 2 / 2 / 2 / 2) 0x1e,
  and_even (a / 2 / 2 / 2 / 2 / 2 / 2 / 2) 0xf,
  and_odd (a / 2 / 2 / 2 / 2 / 2 / 2 / 2 / 2) 0x7,
  and_odd (a / 2 / 2 / 2 / 2 / 2 / 2 / 2 / 2 / 2) 0x3,
  and_odd (a / 2 / 2 / 2 / 2 / 2 / 2 / 2 / 2 / 2 / 2) 0x1,
  and_odd (a / 2 / 2 / 2 / 2 / 2 / 2 / 2 / 2 / 2 / 2 / 2) 0x0,
  and_zero (a / 2 / 2 / 2 / 2 / 2 / 2 / 2 / 2 / 2 / 2 / 2 / 2),
)

pub and-bit_one : (a : ℕ) → bit_and a 0x2 ≡ a / 2 % 2 * 2
and-bit_one a = omega (arith, and_even a 0x1, and_odd (a / 2) 0x0, and_zero (a / 2 / 2))

-- Without bit 1, of a number of 12 bits.
pub and-without_bit_one : (a : ℕ) → a < 4096 → bit_and a (complement 0x2) ≡ a / 4 * 4 + a % 2
and-without_bit_one a h =
    let top : a / 2 / 2 / 2 / 2 / 2 / 2 / 2 / 2 / 2 / 2 / 2 / 2 ≡ 0 = omega (arith, h) in
    omega (
      arith,
      and_odd a 0x7ffffffe,
      and_even (a / 2) 0x3fffffff,
      and_odd (a / 2 / 2) 0x1fffffff,
      and_odd (a / 2 / 2 / 2) 0xfffffff,
      and_odd (a / 2 / 2 / 2 / 2) 0x7ffffff,
      and_odd (a / 2 / 2 / 2 / 2 / 2) 0x3ffffff,
      and_odd (a / 2 / 2 / 2 / 2 / 2 / 2) 0x1ffffff,
      and_odd (a / 2 / 2 / 2 / 2 / 2 / 2 / 2) 0xffffff,
      and_odd (a / 2 / 2 / 2 / 2 / 2 / 2 / 2 / 2) 0x7fffff,
      and_odd (a / 2 / 2 / 2 / 2 / 2 / 2 / 2 / 2 / 2) 0x3fffff,
      and_odd (a / 2 / 2 / 2 / 2 / 2 / 2 / 2 / 2 / 2 / 2) 0x1fffff,
      and_odd (a / 2 / 2 / 2 / 2 / 2 / 2 / 2 / 2 / 2 / 2 / 2) 0xfffff,
      ap (λ (t : ℕ). bit_and t 0xfffff) top,
      zero-and 0xfffff,
    )
