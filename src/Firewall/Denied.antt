-- ===== src/Firewall/Denied.antt =====
-- daemon/src/collect/firewall.rs: when a uid counts as denied.
use netdiag.Prelude.{ℕ, ◌<◌, bit_and, ◌≡◌, refl, ◌||◌, arith, ◌!=◌}
use netdiag.Firewall.Rule.{
  Lookup, read_uid_firewall, is_unambiguously_denied, deny_bits, complement,
}
use netdiag.Firewall.Bits.{and-deny_bits, and-bit_one, and-without_bit_one}

denied_word :
    (rule : ℕ)
    → (bit_and rule deny_bits != 0)
      ≡ (bit_and rule 0x2 != 0 || bit_and (bit_and rule deny_bits) (complement 0x2) != 0)
denied_word rule =
    let masked = and-deny_bits rule in
    let small : bit_and rule deny_bits < 4096 = omega (arith, masked) in
    ground (arith, masked, and-bit_one rule, and-without_bit_one (bit_and rule deny_bits) small)

-- A uid counts as denied exactly where the state that was read has it denied by the user or by an
-- administrator; a map that cannot be read denies nobody.
pub denied-read_uid_firewall :
    (uid : ℕ) (found : Lookup)
    → is_unambiguously_denied (read_uid_firewall uid found) ≡ (
        (read_uid_firewall uid found).blocked_metered_deny_user
        || (read_uid_firewall uid found).blocked_metered_deny_admin)
unfolding is_unambiguously_denied read_uid_firewall
denied-read_uid_firewall uid Lookup.no_map = refl
denied-read_uid_firewall uid Lookup.lookup_error = refl
denied-read_uid_firewall uid Lookup.no_entry = refl
denied-read_uid_firewall uid (Lookup.entry rule) = denied_word rule
