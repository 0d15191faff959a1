-- ===== src/Dns/Append.antt =====
-- Reads of a message that is put together from parts, for daemon/src/probe/dns.rs.
use netdiag.Prelude.{
  ℕ, suc, ◌+◌, ◌-◌, ◌/◌, ◌%◌, ◌≤◌, ◌≡◌, refl, ap, ◌∙◌, true, ◌&&◌, List, [], ◌∷◌, ◌++◌, arith, leb,
  length, get_elem?, drop, take-append_self, IsU16, u16_be,
}
use netdiag.Dns.Model.{Outcome, at, or_panic, word_at}
use netdiag.Dns.Decode.{bytes_between}

get_elem?-append :
    (xs ys : List ℕ) (k i : ℕ) → i ≡ length xs + k → get_elem? (xs ++ ys) i ≡ get_elem? ys k
get_elem?-append [] ys k i e = ap (get_elem? ys) (omega arith)
get_elem?-append (x ∷ xs) ys k i e =
    let next : i ≡ suc (length xs + k) = omega arith in
    ap (get_elem? (x ∷ xs ++ ys)) next ∙ get_elem?-append xs ys k (length xs + k) refl

drop-append : (xs ys : List ℕ) (k i : ℕ) → i ≡ length xs + k → drop i (xs ++ ys) ≡ drop k ys
drop-append [] ys k i e = ap (λ j. drop j ys) (omega arith)
drop-append (x ∷ xs) ys k i e =
    let next : i ≡ suc (length xs + k) = omega arith in
    ap (λ j. drop j (x ∷ xs ++ ys)) next ∙ drop-append xs ys k (length xs + k) refl

pub at-append : (xs ys : List ℕ) (k i : ℕ) → i ≡ length xs + k → at (xs ++ ys) i ≡ at ys k
at-append xs ys k i e = ap (λ o. or_panic o) (get_elem?-append xs ys k i e)

pub word_at-append :
    (xs ys : List ℕ) (k i : ℕ) → i ≡ length xs + k → word_at (xs ++ ys) i ≡ word_at ys k
unfolding word_at
word_at-append xs ys k i e =
    rw (at-append xs ys k i e, at-append xs ys (k + 1) (i + 1) (omega arith)) refl

-- The bytes `d` that stand behind `xs` and `k` more bytes.
pub bytes_between-append :
    (xs ys d rest : List ℕ) (k i j : ℕ)
    → i ≡ length xs + k
    → j ≡ i + length d
    → drop k ys ≡ d ++ rest
    → j ≤ length (xs ++ ys)
    → bytes_between (xs ++ ys) i j ≡ Outcome.ok d
bytes_between-append xs ys d rest k i j e f g h =
    let inside : (leb i j && leb j (length (xs ++ ys))) ≡ true = ground arith in
    let size : j - i ≡ length d = omega arith in
    rw (inside, size, drop-append xs ys k i e, g, take-append_self d rest) refl

-- A 16-bit word is what its two bytes make.
pub u16_be-be16 : (v : ℕ) → IsU16 v → u16_be (v / 256 % 256) (v % 256) ≡ v
u16_be-be16 v h = omega arith
