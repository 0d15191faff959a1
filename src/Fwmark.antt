-- ===== src/Fwmark.antt =====
-- daemon/src/util.rs: Android's fwmark layout, the names of routing tables and MAC addresses.
pub mod Laws
pub mod Checks
use netdiag.Prelude.{
  ℕ, zero, suc, ◌+◌, ◌-◌, ◌*◌, ◌/◌, ◌%◌, ◌^◌, ◌≤◌, ◌<◌, min, bit_and, bit_or, String, ◌≡◌, refl,
  sym, ap, ◌∙◌, subst, ◌≢◌, ◌↔◌, ◌⊎◌, inl, inr, Bool, true, false, not, ◌&&◌, ◌||◌, Option, none,
  some, List, [], ◌∷◌, ◌++◌, map, arith, eq_iff, ltb, leb, ◌==◌, ◌!=◌, if◌then◌else◌, test_bit,
  low_bits, ==_iff, leb→le, Bool-cases, Option-cases, length, get_elem?, take, drop, replicate,
  is_empty, first, any, find, filter, All, length-append, length-drop, length-take,
  take-append_self, drop-append_self, contains, str_eq, concat, join, show, show_hex, IsByte,
  IsBytes, IsU16, IsU32, IsU64, u16_be, u32_be, be16, le16, le32,
}

abbrev pub fwmark_net_id_mask : ℕ
fwmark_net_id_mask = 0xffff

-- `1 << 16` and `1 << 17`
abbrev pub fwmark_explicitly_selected : ℕ
fwmark_explicitly_selected = 0x10000

abbrev pub fwmark_protected_from_vpn : ℕ
fwmark_protected_from_vpn = 0x20000

unfoldable pub net_id_from_mark : ℕ → ℕ
net_id_from_mark mark = bit_and mark fwmark_net_id_mask

unfoldable pub mark_for_net_id : ℕ → ℕ
mark_for_net_id net_id = bit_or (bit_and net_id fwmark_net_id_mask) fwmark_explicitly_selected

unfoldable pub well_known_table_name : ℕ → Option String
well_known_table_name table =
    if table == 255
    then some "local"
    else if table == 254
    then some "main"
    else if table == 253
    then some "default"
    else if table == 0
    then some "unspec"
    else if table == 97
    then some "local_network"
    else if table == 98
    then some "legacy_system"
    else if table == 99
    then some "legacy_network"
    else if table == 1003
    then some "vpn_fallthrough"
    else none

-- `{b:02x}`
hex_byte : ℕ → String
hex_byte b = if ltb b 16 then concat ("0" ∷ show_hex b ∷ []) else show_hex b

unfoldable pub format_mac : List ℕ → String
unfolding hex_byte
format_mac bytes = if is_empty bytes then "" else join ":" (map hex_byte bytes)
