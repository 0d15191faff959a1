-- ===== src/Prelude/Slices.antt =====
-- Reading a slice. An index out of range is a panic of the program, `none` here.
use Prim.Native.Nat.{ℕ, ◌+◌, ◌-◌}
use mathlib.Core.Bool.{◌&&◌}
use mathlib.Core.Option.{Option, none, some}
use mathlib.Core.List.{List}
use netdiag.Prelude.Tests.{leb, if◌then◌else◌}
use netdiag.Prelude.Lists.{length, get_elem?, take, drop}
use netdiag.Prelude.Bytes.{u16_be, u32_be}

infixl 5 ◌>>=◌
abbrev pub ◌>>=◌ {ℓ κ} : {A : Type ℓ} {B : Type κ} → Option A → (A → Option B) → Option B
none >>= f = none
some a >>= f = f a

-- `bs[i..]` and `bs[i..j]`
abbrev pub slice_from : List ℕ → ℕ → Option (List ℕ)
slice_from bs i = if leb i (length bs) then some (drop i bs) else none

abbrev pub slice : List ℕ → ℕ → ℕ → Option (List ℕ)
slice bs i j = if leb i j && leb j (length bs) then some (take (j - i) (drop i bs)) else none

-- `u16::from_be_bytes([bs[i], bs[i + 1]])` and the same of four bytes
unfoldable pub u16_at : List ℕ → ℕ → Option ℕ
u16_at bs i = do a ← get_elem? bs i; b ← get_elem? bs (i + 1); some (u16_be a b)

unfoldable pub u32_at : List ℕ → ℕ → Option ℕ
u32_at bs i = do
  a ← get_elem? bs i
  b ← get_elem? bs (i + 1)
  c ← get_elem? bs (i + 2)
  d ← get_elem? bs (i + 3)
  some (u32_be a b c d)
