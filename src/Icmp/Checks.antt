-- ===== src/Icmp/Checks.antt =====
-- Concrete echoes, and the theorems at them.
use netdiag.Prelude.{
  ℕ, zero, suc, ◌+◌, ◌-◌, ◌*◌, ◌/◌, ◌%◌, ◌^◌, ◌≤◌, ◌<◌, min, bit_and, bit_or, String, ◌≡◌, refl,
  sym, ap, ◌∙◌, subst, ◌≢◌, ◌↔◌, ◌⊎◌, inl, inr, Bool, true, false, not, ◌&&◌, ◌||◌, Option, none,
  some, List, [], ◌∷◌, ◌++◌, map, arith, eq_iff, ltb, leb, ◌==◌, ◌!=◌, if◌then◌else◌, test_bit,
  low_bits, ==_iff, leb→le, Bool-cases, Option-cases, length, get_elem?, take, drop, replicate,
  is_empty, first, any, find, filter, All, length-append, length-drop, length-take,
  take-append_self, drop-append_self, All-map, find-some, find-none, any_none, All-filter, All-find,
  any-find, length-pos, contains, str_eq, concat, join, show, show_hex, IsByte, IsBytes, IsU16,
  IsU32, IsU64, u16_be, u32_be, be16, le16, le32,
}
use netdiag.Icmp.Echo.{echo_reply, SocketKind, checksum, build_echo, matches_reply}
use netdiag.Icmp.Checksum.{build_echo-checksum}
use netdiag.Icmp.Replies.{message, matches_reply_total}

header_layout :
    build_echo false 0xbeef 7 (120 ∷ 121 ∷ []) false
    ≡ some (8 ∷ 0 ∷ 0 ∷ 0 ∷ 0xbe ∷ 0xef ∷ 0 ∷ 7 ∷ 120 ∷ 121 ∷ [])
unfolding build_echo
header_layout = refl

-- A minimal IPv4 header, then an echo reply.
raw_reply :
    matches_reply
      (replicate 20 0x45 ++ 0 ∷ 0 ∷ 0 ∷ 0 ∷ 0x12 ∷ 0x34 ∷ 0 ∷ 9 ∷ [])
      false
      SocketKind.raw
      9
    ≡ some true
unfolding matches_reply netdiag.Icmp.Echo.matches_raw netdiag.Icmp.Echo.matches_icmp
    netdiag.Prelude.Slices.u16_at
raw_reply = refl

build_echo-checksum_example :
    (packet : List ℕ) × (build_echo false 0x1234 1 (97 ∷ 98 ∷ 99 ∷ []) true ≡ some packet)
    × (checksum packet ≡ some 0)
build_echo-checksum_example =
    build_echo-checksum 0x1234 1 (97 ∷ 98 ∷ 99 ∷ []) (omega arith) (omega arith)
      (omega arith, (omega arith, (omega arith, tt))) (omega arith)

matches_reply_total_example :
    (answer : Bool) × (matches_reply (0x45 ∷ 0 ∷ []) false SocketKind.raw 9 ≡ some answer)
matches_reply_total_example = matches_reply_total (0x45 ∷ 0 ∷ []) false SocketKind.raw 9

-- An echo reply of IPv4, and a header of 20 bytes.
abbrev reply : List ℕ
reply = message 0 0 (0x12 ∷ 0x34 ∷ []) 7 5 []

abbrev header_rest : List ℕ
header_rest = replicate 19 0
