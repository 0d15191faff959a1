-- ===== src/Firewall/Rule.antt =====
-- daemon/src/collect/firewall.rs: `decode_match_bits`, `read_uid_firewall` and
-- `is_unambiguously_denied`. What the map answers is an argument.
use netdiag.Prelude.{
  ℕ, ◌+◌, ◌-◌, bit_and, String, Bool, true, false, ◌&&◌, List, [], ◌∷◌, ◌++◌, ◌==◌, ◌!=◌,
  if◌then◌else◌, concat, show_hex,
}

abbrev pub match_bits : List (ℕ × String)
match_bits =
    (0x1, "HAPPY_BOX (metered allowlist)")
    ∷ (0x2, "PENALTY_BOX (metered denylist)")
    ∷ (0x4, "DOZABLE (allowlisted while dozing)")
    ∷ (0x8, "STANDBY (denied while in app standby)")
    ∷ (0x10, "POWERSAVE (allowlisted in battery saver)")
    ∷ (0x20, "RESTRICTED (allowlisted in restricted mode)")
    ∷ (0x40, "LOW_POWER_STANDBY (allowlisted)")
    ∷ (0x80, "IIF (restricted to an input interface)")
    ∷ (0x100, "LOCKDOWN_VPN (blocked outside the VPN)")
    ∷ (0x200, "OEM_DENY_1")
    ∷ (0x400, "OEM_DENY_2")
    ∷ (0x800, "OEM_DENY_3")
    ∷ (0x1000, "BACKGROUND (denied in background)")
    ∷ []

abbrev pub deny_bits : ℕ
deny_bits = 0xf02

-- The bits of the table added up.
unfoldable pub sum_bits : List (ℕ × String) → ℕ
sum_bits [] = 0
sum_bits ((bit, name) ∷ rest) = bit + sum_bits rest

-- `!known` of a u32
abbrev pub complement : ℕ → ℕ
complement known = 0xffffffff - known

unfoldable pub known_names : ℕ → List (ℕ × String) → List String
known_names rule [] = []
known_names rule ((bit, name) ∷ rest) =
    let names = known_names rule rest in if bit_and rule bit != 0 then name ∷ names else names

unfoldable pub decode_match_bits : ℕ → List String
unfolding sum_bits known_names
decode_match_bits rule =
    let unknown = bit_and rule (complement (sum_bits match_bits)) in
    let names = known_names rule match_bits in
    if unknown != 0 then names ++ concat ("unknown bits 0x" ∷ show_hex unknown ∷ []) ∷ [] else names

pub record UidFirewallState : Type 0 where
  pub uid : ℕ
  pub source_available : Bool
  pub raw_match : ℕ
  pub blocked_metered_deny_user : Bool
  pub blocked_metered_deny_admin : Bool
  pub blocked_metered_allow : Bool
  pub blocked_standby : Bool
  pub blocked_dozable : Bool
  pub blocked_powersave : Bool
  pub blocked_restricted : Bool
  pub blocked_low_power_standby : Bool

-- What the map has for a uid: no map that can be opened, no entry, an error, or the rule word.
pub data Lookup : Type 0 where
  no_map no_entry lookup_error : Lookup
  entry : ℕ → Lookup

abbrev pub unread : ℕ → UidFirewallState
unread uid = record {
  uid = uid;
  source_available = false;
  raw_match = 0;
  blocked_metered_deny_user = false;
  blocked_metered_deny_admin = false;
  blocked_metered_allow = false;
  blocked_standby = false;
  blocked_dozable = false;
  blocked_powersave = false;
  blocked_restricted = false;
  blocked_low_power_standby = false;
}

unfoldable pub read_uid_firewall : ℕ → Lookup → UidFirewallState
read_uid_firewall uid Lookup.no_map = unread uid
read_uid_firewall uid Lookup.lookup_error = unread uid
read_uid_firewall uid Lookup.no_entry = record (unread uid) { source_available = true }
read_uid_firewall uid (Lookup.entry rule) = record {
  uid = uid;
  source_available = true;
  raw_match = rule;
  blocked_metered_deny_user = bit_and rule 0x2 != 0;
  blocked_metered_deny_admin = bit_and (bit_and rule deny_bits) (complement 0x2) != 0;
  blocked_metered_allow = bit_and rule 0x1 != 0;
  blocked_standby = bit_and rule 0x8 != 0;
  blocked_dozable = bit_and rule 0x4 == 0;
  blocked_powersave = bit_and rule 0x10 == 0;
  blocked_restricted = bit_and rule 0x20 == 0;
  blocked_low_power_standby = bit_and rule 0x40 == 0;
}

unfoldable pub is_unambiguously_denied : UidFirewallState → Bool
is_unambiguously_denied state = state.source_available && bit_and state.raw_match deny_bits != 0
