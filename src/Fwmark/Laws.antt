-- ===== src/Fwmark/Laws.antt =====
-- The fields of a mark that the daemon builds.
use netdiag.Prelude.{ℕ, ◌+◌, ◌%◌, bit_and, ◌≡◌, ◌≢◌, arith, IsU32}
use netdiag.Prelude.Bits.{or_above, and-mask, and-bit}
use netdiag.Fwmark.{
  fwmark_explicitly_selected, fwmark_protected_from_vpn, net_id_from_mark, mark_for_net_id,
}

mark_for_net_id_lem : (n : ℕ) → mark_for_net_id n ≡ n % 65536 + 65536
unfolding mark_for_net_id
mark_for_net_id_lem n = rw (and-mask 16 n) (or_above 16 (n % 65536) 1 (omega arith))

-- Whatever number it is built from, a mark gives the low 16 bits of that number back as its netId, is explicitly selected,
-- is not protected from the VPN, and is a u32.
pub mark_for_net_id_fields :
    (n : ℕ)
    → (net_id_from_mark (mark_for_net_id n) ≡ n % 65536)
      × (bit_and (mark_for_net_id n) fwmark_explicitly_selected ≢ 0)
      × (bit_and (mark_for_net_id n) fwmark_protected_from_vpn ≡ 0)
      × IsU32 (mark_for_net_id n)
unfolding net_id_from_mark
mark_for_net_id_fields n = ground (
  arith,
  mark_for_net_id_lem n,
  and-mask 16 (mark_for_net_id n),
  and-bit 16 (mark_for_net_id n),
  and-bit 17 (mark_for_net_id n),
)
