-- ===== src/Findings/Rules/Transport.antt =====
-- daemon/src/diag/rules.rs: the rules on transport, IPv6 configuration and the gateway.
use netdiag.Prelude.{
  ℕ, ◌+◌, String, Bool, true, false, not, ◌&&◌, ◌||◌, Option, none, some, [], ◌∷◌, concat,
  if◌then◌else◌, min,
}
use netdiag.Findings.Model.{Severity, FindingId, Finding, DiagState, finding, evidence_is}
use netdiag.Findings.Index.{CheckIndex, passed, failed, warned, skipped, detail, evidence}

pub no_connectivity_text : String
no_connectivity_text = concat (
    "Neither IPv4 nor IPv6 completed a TCP connection, and DNS failed over "
    ∷ "both families. Nothing above the link layer is getting through.\n\nWhen "
    ∷ "both families fail together the cause is usually below them: no usable "
    ∷ "address, no default route, an unreachable first hop, or a firewall "
    ∷ "dropping this device's traffic entirely. The checks above show which of "
    ∷ "those is the case." ∷ [])

unfoldable pub rule_no_connectivity_at_all : CheckIndex → DiagState → Option Finding
rule_no_connectivity_at_all index state =
    let v4_dead = failed index "tcp.v4" || skipped index "tcp.v4" in
    let v6_dead = failed index "tcp.v6" || skipped index "tcp.v6" in
    let dns_dead = failed index "dns.a" && failed index "dns.aaaa" in
    if not (v4_dead && (v6_dead && dns_dead))
    then none
    else if skipped index "tcp.v4" && (skipped index "tcp.v6" && failed index "iface.active")
    then none
    else some (
        finding FindingId.no_connectivity_at_all "no_connectivity" Severity.critical
          "Suspected problem: no working path to the internet" no_connectivity_text
          ("tcp.v4" ∷ "tcp.v6" ∷ "dns.a" ∷ "dns.aaaa" ∷ [])
          ("Check whether the gateway is reachable at all"
            ∷ "Confirm the interface has a global address and a default route"
            ∷ "If this is a captive portal network, open a browser and complete the portal" ∷ [])
          90)

pub aaaa_note : String
aaaa_note = concat (
    "\n\nDNS is returning AAAA records, so applications will prefer IPv6 and "
    ∷ "try it first. Happy Eyeballs (RFC 8305) normally hides a broken family "
    ∷ "behind a short delay, but that only works when the IPv6 attempt fails "
    ∷ "quickly. A path that silently drops packets makes every connection wait "
    ∷ "for a timeout instead, which is what \"the internet is slow\" usually "
    ∷ "means on a network in this state." ∷ [])

pub no_aaaa_note : String
no_aaaa_note = concat (
    "\n\nDNS is not returning AAAA records for the test host, which limits "
    ∷ "the damage: most applications will not attempt IPv6 at all." ∷ [])

pub broken_upstream_text : String → String
broken_upstream_text extra = concat (
    "IPv6 is fully configured on this device: a global address is assigned "
    ∷ "and a default route exists. IPv4 works end to end. But no TCP "
    ∷ "connection completes over IPv6.\n\nThat combination points upstream, "
    ∷ "not at the device. The local configuration is what it should be, so the "
    ∷ "packets are being dropped somewhere beyond the first hop." ∷ extra ∷ [])

-- `confidence` before `.min(100)`
abbrev pub broken_upstream_confidence : Bool → Bool → ℕ
broken_upstream_confidence aaaa_returned gateway =
    75 + (if aaaa_returned then 15 else 0) + (if gateway then 5 else 0)

unfoldable pub rule_broken_upstream_ipv6 : CheckIndex → DiagState → Option Finding
rule_broken_upstream_ipv6 index state =
    let configured = passed index "addr.v6" && passed index "route.v6.default" in
    let v6_transport_broken = failed index "tcp.v6" in
    let v4_works = passed index "tcp.v4" in
    if not (configured && (v6_transport_broken && v4_works))
    then none
    else let aaaa_returned = passed index "dns.aaaa" in
      let confidence =
        broken_upstream_confidence aaaa_returned
          (passed index "gateway.v6" || warned index "gateway.v6") in
      some (
        finding FindingId.broken_upstream_ipv6 "broken_upstream_ipv6" Severity.high
          "Suspected problem: broken upstream IPv6"
          (broken_upstream_text (if aaaa_returned then aaaa_note else no_aaaa_note))
          ("addr.v6" ∷ "route.v6.default" ∷ "dns.aaaa" ∷ "tcp.v6" ∷ "tcp.v4" ∷ [])
          (concat (
              "Test the same device on a different network to confirm the problem follows "
              ∷ "the network" ∷ [])
            ∷ concat (
                "If this is a home network, check whether the router's IPv6 delegation is "
                ∷ "still valid" ∷ [])
            ∷ concat (
                "As a workaround, disabling IPv6 on this network removes the stall at the cost "
                ∷ "of IPv6 connectivity" ∷ [])
            ∷ [])
          (min confidence 100))

pub no_route_text : String → String
no_route_text about = concat (
    "The interface has a global IPv6 address but there is no IPv6 default "
    ∷ "route in the table this traffic uses.\n\nAn address without a route "
    ∷ "usually means the router advertisement carried a prefix but no router "
    ∷ "lifetime, or the route expired and was not refreshed. Only on-link IPv6 "
    ∷ "destinations are reachable in this state.\n\n" ∷ about ∷ [])

unfoldable pub rule_ipv6_configured_no_route : CheckIndex → DiagState → Option Finding
rule_ipv6_configured_no_route index state =
    if not (passed index "addr.v6" && failed index "route.v6.default")
    then none
    else some (
        finding FindingId.ipv6_configured_no_route "ipv6_no_default_route" Severity.medium
          "IPv6 address assigned but no default route"
          (no_route_text (detail index "route.v6.default")) ("addr.v6" ∷ "route.v6.default" ∷ [])
          ("Check whether router advertisements are still arriving on this link"
            ∷ "Confirm accept_ra is not disabled for this interface" ∷ [])
          85)

pub ipv6_disabled_text : String
ipv6_disabled_text = concat (
    "The `disable_ipv6` sysctl is set for the egress interface, so the "
    ∷ "kernel will not configure or use IPv6 on it regardless of what the "
    ∷ "network offers.\n\nThis is a local setting, not a network problem. "
    ∷ "Something on the device set it: a VPN app, a tethering configuration, "
    ∷ "or a manual change." ∷ [])

unfoldable pub rule_ipv6_disabled_by_sysctl : CheckIndex → DiagState → Option Finding
rule_ipv6_disabled_by_sysctl index state =
    if not (evidence_is (evidence index "addr.v6" "disable_ipv6") "true")
    then none
    else some (
        finding FindingId.ipv6_disabled_by_sysctl "ipv6_disabled_sysctl" Severity.medium
          "IPv6 is administratively disabled on this interface" ipv6_disabled_text ("addr.v6" ∷ [])
          ("Identify what set disable_ipv6; VPN apps are the most common cause" ∷ []) 95)

pub gateway_text : String → String → String
gateway_text which about = concat (
    "The " ∷ which ∷ " gateway does not answer, and the kernel has no usable neighbour entry "
    ∷ "for it.\n\nThis is a link-layer problem rather than a routing one: the "
    ∷ "device has a route pointing at a gateway that is not responding to ARP "
    ∷ "or neighbour discovery. The association may look fine while the access "
    ∷ "point has actually stopped forwarding, which is common right after a "
    ∷ "roam or when a router is rebooting.\n\n" ∷ about ∷ [])

abbrev pub which_families : Bool → Bool → String
which_families true true = "both IPv4 and IPv6"
which_families true false = "IPv4"
which_families false _ = "IPv6"

unfoldable pub rule_gateway_unreachable : CheckIndex → DiagState → Option Finding
rule_gateway_unreachable index state =
    let v4 = failed index "gateway.v4" in
    let v6 = failed index "gateway.v6" in
    if not (v4 || v6)
    then none
    else some (
        finding FindingId.gateway_unreachable "gateway_unreachable"
          (if v4 && v6 then Severity.critical else Severity.high)
          "Suspected problem: the first hop is not reachable"
          (gateway_text (which_families v4 v6)
            (detail index (if v4 then "gateway.v4" else "gateway.v6")))
          ("gateway.v4" ∷ "gateway.v6" ∷ [])
          (concat (
              "Re-associate with the network (toggle Wi-Fi) and see whether the neighbour "
              ∷ "entry recovers" ∷ [])
            ∷ "Check whether the router is up and forwarding for other devices"
            ∷ [])
          85)
