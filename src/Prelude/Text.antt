-- ===== src/Prelude/Text.antt =====
-- What the program uses of Rust's `String`: equality, concatenation, `join`, decimal numbers.
-- The operators of `String` have names of their own here: `++` is that of lists.
use Prim.Native.Nat.{ℕ, zero, suc, ◌/◌, ◌%◌, ◌+◌}
use Prim.Native.String.{String, ◌++◌ as str_append}
use text.Mathlib.Text.{◌==◌ as text_eq}
use mathlib.Core.Path.{◌≡◌, refl}
use mathlib.Core.Bool.{Bool}
use mathlib.Core.List.{List, [], ◌∷◌}
use netdiag.Prelude.Tests.{if◌then◌else◌, ◌==◌}

abbrev pub str_eq : String → String → Bool
str_eq s t = text_eq s t

-- The pieces of a `format!`, in order.
unfoldable pub concat : List String → String
concat [] = ""
concat (s ∷ rest) = str_append s (concat rest)

unfoldable pub join : String → List String → String
join sep [] = ""
join sep (s ∷ []) = s
join sep (s ∷ t ∷ rest) = str_append s (str_append sep (join sep (t ∷ rest)))

digit : ℕ → String
digit d =
    if d == 0
    then "0"
    else if d == 1
    then "1"
    else if d == 2
    then "2"
    else if d == 3
    then "3"
    else if d == 4
    then "4"
    else if d == 5
    then "5"
    else if d == 6
    then "6"
    else if d == 7
    then "7"
    else if d == 8
    then "8"
    else "9"

show_loop : ℕ → ℕ → String → String
unfolding digit
show_loop zero n acc = acc
show_loop (suc fuel) n acc =
    let here = str_append (digit (n % 10)) acc in
    let more = show_loop fuel (n / 10) here in if n / 10 == 0 then here else more

-- `to_string` of an unsigned number: `n + 1` rounds are more than it has digits.
unfoldable pub show : ℕ → String
unfolding show_loop
show n = show_loop (n + 1) n ""

show_tests : (show 0 ≡ "0") × (show 1051 ≡ "1051")
unfolding show
show_tests = (refl, refl)

hex_digit : ℕ → String
unfolding digit
hex_digit d =
    if d == 10
    then "a"
    else if d == 11
    then "b"
    else if d == 12
    then "c"
    else if d == 13
    then "d"
    else if d == 14
    then "e"
    else if d == 15
    then "f"
    else digit d

hex_loop : ℕ → ℕ → String → String
unfolding hex_digit
hex_loop zero n acc = acc
hex_loop (suc fuel) n acc =
    let here = str_append (hex_digit (n % 16)) acc in
    let more = hex_loop fuel (n / 16) here in if n / 16 == 0 then here else more

-- `format!("{:x}", n)`
unfoldable pub show_hex : ℕ → String
unfolding hex_loop
show_hex n = hex_loop (n + 1) n ""

show_hex_test : show_hex 0x10065 ≡ "10065"
unfolding show_hex
show_hex_test = refl
