-- ===== src/Fwmark/Checks.antt =====
-- Marks, table names and MAC addresses, and the theorem on marks at a netId.
use netdiag.Prelude.{
  ◌%◌, bit_and, ◌≡◌, refl, join, concat, show_hex, ◌≢◌, none, some, [], ◌∷◌, IsU32,
}
use netdiag.Fwmark.{
  fwmark_explicitly_selected, fwmark_protected_from_vpn, net_id_from_mark, mark_for_net_id,
  well_known_table_name, format_mac,
}
use netdiag.Fwmark.Laws.{mark_for_net_id_fields}

names : (well_known_table_name 97 ≡ some "local_network") × (well_known_table_name 1051 ≡ none)
unfolding well_known_table_name
names = (refl, refl)

mac : format_mac (0x02 ∷ 0xab ∷ 0 ∷ []) ≡ "02:ab:00"
unfolding format_mac join concat show_hex
mac = refl

-- A number of more than 16 bits.
mark_for_net_id_fields_example :
    (net_id_from_mark (mark_for_net_id 0x20065) ≡ 0x20065 % 65536)
    × (bit_and (mark_for_net_id 0x20065) fwmark_explicitly_selected ≢ 0)
    × (bit_and (mark_for_net_id 0x20065) fwmark_protected_from_vpn ≡ 0)
    × IsU32 (mark_for_net_id 0x20065)
mark_for_net_id_fields_example = mark_for_net_id_fields 0x20065
