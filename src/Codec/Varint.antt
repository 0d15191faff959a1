-- ===== src/Codec/Varint.antt =====
-- `read_varint`: what it accepts, and that it reads back the wire format.
use native.Mathlib.Numerals.{towards_suc}
use native.Mathlib.Nat.{div-add-mod}
use netdiag.Prelude.{
  ℕ, ◌+◌, ◌*◌, ◌/◌, ◌%◌, ◌^◌, ◌≤◌, ◌<◌, ◌≡◌, ap, ◌≢◌, ◌⊎◌, none, some, List, [], ◌∷◌, ◌++◌, map,
  arith, length, IsU64,
}
use netdiag.Prelude.Bits.{or_above, or-lt}
use netdiag.Codec.Wire.{IsVarint}
use netdiag.Codec.{
  Event, byte, unexpected_eof, io_error, ok, add_group, read_varint_loop, read_varint,
}

-- The `read` calls that deliver these bytes.
abbrev pub events : List ℕ → List Event
events = map byte

two_pow_add_seven : (s : ℕ) → 2 ^ (s + 7) ≡ 128 * 2 ^ s
two_pow_add_seven s = simp towards_suc (omega arith)

-- A group above everything read so far is added.
add_group_lem :
    (value b shift : ℕ)
    → value < 2 ^ shift
    → IsU64 (value + b % 128 * 2 ^ shift)
    → add_group value b shift ≡ value + b % 128 * 2 ^ shift
add_group_lem value b shift below fits =
    let fit : b % 128 * 2 ^ shift % 2 ^ 64 ≡ b % 128 * 2 ^ shift = omega arith in
    rw fit (or_above shift value (b % 128) below)

groups_apart : (v shift : ℕ) → v * 2 ^ shift ≡ v % 128 * 2 ^ shift + v / 128 * 2 ^ (shift + 7)
groups_apart v shift = omega (
  arith,
  ap (λ (t : ℕ). t * 2 ^ shift) (div-add-mod v 128),
  ap (λ (t : ℕ). v / 128 * t) (two_pow_add_seven shift),
)

next_below :
    (value g shift : ℕ) → value < 2 ^ shift → g < 128 → value + g * 2 ^ shift < 2 ^ (shift + 7)
next_below value g shift h k = rw two_pow_add_seven (grind arith)

-- `v` is what is still to be read, from bit `shift` on.
pub read_varint_loop-varint :
    (bs : List ℕ) (v value shift : ℕ) (rest : List Event)
    → IsVarint v bs
    → value < 2 ^ shift
    → IsU64 (value + v * 2 ^ shift)
    → shift + 7 * length bs ≤ 70
    → read_varint_loop (events bs ++ rest) value shift ≡ ok (some (value + v * 2 ^ shift), rest)
unfolding read_varint_loop
read_varint_loop-varint [] v value shift rest wire below fits short = elim wire [ ]
read_varint_loop-varint (b ∷ []) v value shift rest wire below fits short =
    ground (arith, add_group_lem value b shift)
read_varint_loop-varint (b ∷ c ∷ bs) v value shift rest (low, byte_b, group, wire) below fits
      short =
    ground (
      arith,
      groups_apart v shift,
      next_below value (v % 128) shift,
      add_group_lem value b shift,
      read_varint_loop-varint (c ∷ bs) (v / 128) (value + v % 128 * 2 ^ shift) (shift + 7) rest
          wire,
    )

-- After a first byte the stream cannot end cleanly.
some_value :
    (reader left : List Event) (value shift : ℕ)
    → 0 < shift
    → read_varint_loop reader value shift ≢ ok (none, left)
unfolding read_varint_loop
some_value [] left value shift pos h = ground arith
some_value (unexpected_eof ∷ rest) left value shift pos h = ground arith
some_value (io_error ∷ rest) left value shift pos h = cc
some_value (byte b ∷ rest) left value shift pos h =
    ground (arith, some_value rest left (add_group value b shift) (shift + 7))

-- `read_varint` answers `none` only where the stream ended before a byte of the length.
pub read_varint_clean :
    (reader left : List Event)
    → read_varint reader ≡ ok (none, left)
    → ((reader ≡ []) × (left ≡ [])) ⊎ (reader ≡ unexpected_eof ∷ left)
unfolding read_varint
read_varint_clean [] left h = ground arith
read_varint_clean (unexpected_eof ∷ rest) left h = ground arith
read_varint_clean (io_error ∷ rest) left h = cc
read_varint_clean (byte b ∷ rest) left h = ground (arith, some_value rest left (add_group 0 b 0) 7)

read_varint_loop_bounds :
    (reader rest : List Event) (v value shift j : ℕ)
    → shift ≡ 7 * j
    → j ≤ 9
    → IsU64 value
    → read_varint_loop reader value shift ≡ ok (some v, rest)
    → IsU64 v × (length rest < length reader) × (length reader + j ≤ length rest + 10)
unfolding read_varint_loop
read_varint_loop_bounds [] rest v value shift j hs hj hv e = ground arith
read_varint_loop_bounds (unexpected_eof ∷ more) rest v value shift j hs hj hv e = ground arith
read_varint_loop_bounds (io_error ∷ more) rest v value shift j hs hj hv e = cc
read_varint_loop_bounds (byte b ∷ more) rest v value shift j hs hj hv e = ground (
  arith,
  or-lt 64 value (b % 128 * 2 ^ shift % 2 ^ 64) hv (omega arith),
  read_varint_loop_bounds more rest v (add_group value b shift) (shift + 7) (j + 1),
)

-- A length that `read_varint` returns is a u64, and took 1 to 10 reads.
pub read_varint_bounds :
    (reader rest : List Event) (v : ℕ)
    → read_varint reader ≡ ok (some v, rest)
    → IsU64 v × (length rest < length reader) × (length reader ≤ length rest + 10)
unfolding read_varint
read_varint_bounds reader rest v e = ground (arith, read_varint_loop_bounds reader rest v 0 0 0)
