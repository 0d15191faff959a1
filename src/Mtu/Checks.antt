-- ===== src/Mtu/Checks.antt =====
-- Concrete links and paths, and the theorems at them.
use netdiag.Prelude.{
  ℕ, zero, suc, ◌+◌, ◌-◌, ◌*◌, ◌/◌, ◌%◌, ◌^◌, ◌≤◌, ◌<◌, min, bit_and, bit_or, String, ◌≡◌, refl,
  sym, ap, ◌∙◌, subst, ◌≢◌, ◌↔◌, ◌⊎◌, inl, inr, Bool, true, false, not, ◌&&◌, ◌||◌, Option, none,
  some, List, [], ◌∷◌, ◌++◌, map, arith, eq_iff, ltb, leb, ◌==◌, ◌!=◌, if◌then◌else◌, test_bit,
  low_bits, ==_iff, leb→le, Bool-cases, Option-cases, length, get_elem?, take, drop, replicate,
  is_empty, first, any, find, filter, All, length-append, length-drop, length-take,
  take-append_self, drop-append_self, All-map, find-some, find-none, any_none, All-filter, All-find,
  any-find, length-pos, contains, str_eq, concat, join, show, show_hex, IsByte, IsBytes, IsU16,
  IsU32, IsU64, u16_be, u32_be, be16, le16, le32,
}
use netdiag.Prelude.Sort.{IsSorted}
use netdiag.Mtu.Search.{payload_for_mtu, candidate_mtus, probed_mtu, measure, discover}
use netdiag.Mtu.Candidates.{candidate_mtus_exact, Above, is_candidate}
use netdiag.Mtu.Brackets.{Brackets, measure-Brackets}

-- A path that carries 1450 bytes, asked over IPv4.
abbrev answered : ℕ → Bool
answered n = leb (n + 28) 1450

v4_candidates : candidate_mtus 1400 false ≡ 1400 ∷ 1280 ∷ 1024 ∷ 576 ∷ []
unfolding candidate_mtus netdiag.Prelude.Sort.sort_by
v4_candidates = refl

no_underflow : payload_for_mtu 10 false ≡ 0
unfolding payload_for_mtu
no_underflow = refl

between : measure answered 0 false ≡ (some 1450, some 1480)
unfolding measure candidate_mtus netdiag.Prelude.Sort.sort_by payload_for_mtu
between = refl

said :
    (discover answered "192.0.2.1" 1500 false).1
    ≡ "1480 byte packets do not reach 192.0.2.1 but 1450 byte packets do; the path MTU is between 1450 and 1480"
unfolding discover candidate_mtus netdiag.Prelude.Sort.sort_by payload_for_mtu concat show
said = refl

candidate_mtus_exact_example :
    IsSorted Above (candidate_mtus 1500 true)
    × ((m : ℕ) → contains (candidate_mtus 1500 true) m ≡ is_candidate 1500 true m)
candidate_mtus_exact_example = candidate_mtus_exact 1500 true

measure-Brackets_example :
    Brackets 1450 (candidate_mtus (probed_mtu 1500) false) (measure answered 1500 false)
measure-Brackets_example = measure-Brackets answered 1450 1500 false (λ n. refl)
