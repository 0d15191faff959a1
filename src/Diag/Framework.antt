-- ===== src/Diag/Framework.antt =====
-- daemon/src/diag/mod.rs: `check_captive_portal`, and `check_firewall` for a target that has a uid.
use netdiag.Prelude.{
  ℕ, String, false, not, ◌&&◌, Option, none, some, [], ◌∷◌, ◌==◌, if◌then◌else◌, concat, join, show,
  show_hex,
}
use netdiag.Firewall.Rule.{
  Lookup, decode_match_bits, UidFirewallState, read_uid_firewall, is_unambiguously_denied,
}
use netdiag.Diag.Builder.{CheckId, Check, start, ev, pass, fail, warn, skip, info, finish}
use netdiag.Diag.State.{Capabilities, LinkProperties, Network, DiagState, bool_text}

abbrev pub no_capabilities : Capabilities
no_capabilities = record {
  internet = false;
  validated = false;
  captive_portal = false;
  not_metered = false;
  partial_connectivity = false;
}

abbrev pub capabilities_or_default : Option Capabilities → Capabilities
capabilities_or_default none = no_capabilities
capabilities_or_default (some caps) = caps

abbrev pub portal_url : Option LinkProperties → String
portal_url none = ""
portal_url (some lp) = lp.captive_portal_api_url

unfoldable pub judge_portal : Capabilities → Check → Check
unfolding finish
judge_portal caps c =
    if caps.captive_portal
    then fail
        (concat (
          "Android has detected a captive portal; traffic is being intercepted until the portal is "
          ∷ "satisfied" ∷ []))
        c
    else if not caps.validated && caps.internet
    then warn
        (concat (
          "the network is not validated; a captive portal that Android has not classified yet would "
          ∷ "look exactly like this" ∷ []))
        c
    else pass "no captive portal detected" c

unfoldable pub check_network_portal : Option Network → Check → Check
unfolding judge_portal finish ev
check_network_portal none c = skip "no framework state; captive portal status comes from Android" c
check_network_portal (some n) c =
    let caps = capabilities_or_default n.capabilities in
    judge_portal caps (
      ev "captive_portal_api_url" (portal_url n.link_properties) (
        ev "validated" (bool_text caps.validated)
          (ev "captive_portal_capability" (bool_text caps.captive_portal) c)))

unfoldable pub check_captive_portal : DiagState → Check
unfolding check_network_portal start
check_captive_portal state =
    check_network_portal state.network (start CheckId.captive_portal "Captive portal")

-- What is found for a uid, and the verdict.
unfoldable pub judge_firewall : ℕ → UidFirewallState → Check → Check
unfolding finish
judge_firewall uid s c =
    let bits = join ", " (decode_match_bits s.raw_match) in
    if not s.source_available
    then skip
        (concat (
          "netd's eBPF uid_owner_map could not be read, so per-app firewall state is not "
          ∷ "determinable" ∷ []))
        c
    else if is_unambiguously_denied s
    then fail (concat ("uid " ∷ show uid ∷ " is denied by a firewall rule: " ∷ bits ∷ [])) c
    else if s.raw_match == 0
    then pass (concat ("no per-uid firewall rules apply to uid " ∷ show uid ∷ [])) c
    else info (concat ("uid " ∷ show uid ∷ " has firewall bits set: " ∷ bits ∷ [])) c

-- `found` is what the map has for the uid.
unfoldable pub check_uid_firewall : ℕ → Lookup → Check
unfolding judge_firewall start ev
check_uid_firewall uid found =
    let s = read_uid_firewall uid found in
    judge_firewall uid s (
      ev "source_available" (bool_text s.source_available) (
        ev "matches" (join ", " (decode_match_bits s.raw_match)) (
          ev "raw_match" (concat ("0x" ∷ show_hex s.raw_match ∷ []))
            (ev "uid" (show uid) (start CheckId.firewall_anomaly "Firewall interaction")))))
