-- ===== src/Firewall/Checks.antt =====
-- Concrete rule words, and the theorem at one.
use netdiag.Prelude.{◌≡◌, refl, false, [], ◌∷◌, concat, show_hex}
use netdiag.Firewall.Rule.{Lookup, decode_match_bits, read_uid_firewall, is_unambiguously_denied}

named :
    decode_match_bits 0x102
    ≡ "PENALTY_BOX (metered denylist)" ∷ "LOCKDOWN_VPN (blocked outside the VPN)" ∷ []
unfolding decode_match_bits
named = refl

unnamed : decode_match_bits 0x2000 ≡ "unknown bits 0x2000" ∷ []
unfolding decode_match_bits concat show_hex
unnamed = refl

no_names : decode_match_bits 0 ≡ []
unfolding decode_match_bits
no_names = refl

standby_alone : is_unambiguously_denied (read_uid_firewall 10342 (Lookup.entry 0x8)) ≡ false
unfolding is_unambiguously_denied read_uid_firewall
standby_alone = refl
