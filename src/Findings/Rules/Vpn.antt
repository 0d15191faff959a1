-- ===== src/Findings/Rules/Vpn.antt =====
-- daemon/src/diag/rules.rs: the rules on VPN routing.
use netdiag.Prelude.{String, not, Option, none, some, [], ◌∷◌, concat, str_eq, if◌then◌else◌}
use netdiag.Findings.Model.{
  Severity, FindingId, Finding, DiagState, finding, has_vpn_transport, evidence_is, or_text,
}
use netdiag.Findings.Index.{CheckIndex, evidence}

pub vpn_leak_text : String → String → String
vpn_leak_text vpn_interfaces does = concat (
    "A VPN interface (" ∷ vpn_interfaces
    ∷ ") is up, but the kernel's own route lookup sends this traffic out of a "
    ∷ "different interface.\n\nOn Android that normally means a uid range rule "
    ∷ "excludes this traffic from the VPN: either the VPN app's "
    ∷ "allowed/disallowed application list, or a bypass the app requested "
    ∷ "explicitly. The framework " ∷ does
    ∷ " report a VPN transport for the network under test, which is a useful "
    ∷ "cross-check on which of those it is." ∷ [])

unfoldable pub rule_vpn_leak : CheckIndex → DiagState → Option Finding
rule_vpn_leak index state =
    if not (evidence_is (evidence index "vpn.routing" "egress_is_vpn") "false")
    then none
    else let vpn_interfaces = or_text (evidence index "vpn.routing" "vpn_interfaces") "" in
      if str_eq vpn_interfaces ""
      then none
      else some (
          finding FindingId.vpn_leak "vpn_leak" Severity.high "Traffic is bypassing the active VPN"
            (vpn_leak_text vpn_interfaces (if has_vpn_transport state then "does" else "does not"))
            ("vpn.routing" ∷ "route.lookup.v4" ∷ "route.lookup.v6" ∷ [])
            ("Check the VPN app's per-app settings for this uid"
              ∷ "Look at the uid range rules in the Routing view to see which rule matched" ∷ [])
            80)

pub blocked_text : String → String
blocked_text table = concat (
    "Traffic goes through the VPN, the tunnel carries no IPv6, and the VPN's " ∷ "routing table ("
    ∷ table ∷ ") sends the IPv6 default route to loopback or to an unreachable "
    ∷ "route.\n\nThat is Android deliberately blackholing IPv6 for a VPN that "
    ∷ "only supports IPv4. It is the correct behaviour: IPv6 connections fail "
    ∷ "immediately, applications fall back to IPv4 without a stall, and no "
    ∷ "IPv6 traffic escapes the tunnel. Every IPv6 failure elsewhere in this "
    ∷ "report follows from this and is expected." ∷ [])

pub leaky_text : String → String
leaky_text table = concat (
    "Traffic goes through the VPN, but the tunnel has no IPv6 default route "
    ∷ "and the VPN's routing table (" ∷ table
    ∷ ") does not blackhole IPv6 either.\n\nThat combination is the leaky one. "
    ∷ "IPv6 traffic is not carried by the tunnel and is not stopped, so it can "
    ∷ "leave over the underlying network outside the VPN. This is a privacy "
    ∷ "problem rather than a connectivity one: things keep working, which is "
    ∷ "exactly why it goes unnoticed." ∷ [])

unfoldable pub rule_vpn_ipv6_blackhole : CheckIndex → DiagState → Option Finding
rule_vpn_ipv6_blackhole index state =
    if not (evidence_is (evidence index "vpn.routing" "vpn_has_ipv6_routes") "false")
    then none
    else if not (evidence_is (evidence index "vpn.routing" "egress_is_vpn") "true")
    then none
    else let blackholed =
        evidence_is (evidence index "vpn.routing" "ipv6_blackholed_in_vpn_table") "true" in
      let table = or_text (evidence index "vpn.routing" "vpn_table") "?" in
      some (
        if blackholed
        then finding FindingId.vpn_blackhole "vpn_ipv6_blackhole" Severity.info
            "The VPN blocks IPv6 on purpose" (blocked_text table)
            ("vpn.routing" ∷ "tcp.v6" ∷ "route.v6.default" ∷ [])
            ("Nothing to fix; use a VPN with IPv6 support if you need IPv6" ∷ []) 90
        else finding FindingId.vpn_blackhole "vpn_ipv6_blackhole" Severity.medium
            "The VPN carries IPv4 but not IPv6, and IPv6 is not blocked" (leaky_text table)
            ("vpn.routing" ∷ "tcp.v6" ∷ "route.v6.default" ∷ [])
            ("Check whether the VPN app has an IPv6 or \"block IPv6\" setting"
              ∷ "Enable Always-on VPN with \"Block connections without VPN\" to stop the leak" ∷ [])
            75)
