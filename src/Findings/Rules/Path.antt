-- ===== src/Findings/Rules/Path.antt =====
-- daemon/src/diag/rules.rs: the rules on path MTU, NAT64 and the per-uid firewall.
use netdiag.Prelude.{
  ℕ, String, not, ◌&&◌, ◌||◌, Option, none, some, [], ◌∷◌, concat, str_eq, if◌then◌else◌,
}
use netdiag.Findings.Model.{Severity, FindingId, Finding, DiagState, finding, or_text, is_some}
use netdiag.Findings.Index.{CheckIndex, passed, failed, warned, detail, evidence}

pub mtu_text : String → String → String
mtu_text interface_mtu about = concat (
    "TCP connections establish but the TLS handshake never completes. That "
    ∷ "is the classic signature of a path MTU problem.\n\nThe three-way "
    ∷ "handshake uses small packets and gets through. The ClientHello is the "
    ∷ "first substantial packet, and if something on the path cannot carry it "
    ∷ "and does not send back an ICMP \"fragmentation needed\" or \"packet too "
    ∷ "big\" message, the packet simply disappears. Path MTU discovery has "
    ∷ "nothing to learn from, so the connection hangs rather than "
    ∷ "failing.\n\nInterface MTU is " ∷ interface_mtu ∷ ". " ∷ about ∷ [])

unfoldable pub rule_mtu_blackhole : CheckIndex → DiagState → Option Finding
rule_mtu_blackhole index state =
    let tcp_ok = passed index "tcp.v4" || passed index "tcp.v6" in
    let tls_broken = failed index "tls.handshake" in
    if not (tcp_ok && tls_broken)
    then none
    else if passed index "mtu.pmtu"
    then none
    else let mtu_detail = detail index "mtu.pmtu" in
      let measured = evidence index "mtu.pmtu" "measured_path_mtu" in
      let interface_mtu = or_text (evidence index "mtu.pmtu" "interface_mtu") "?" in
      let confidence : ℕ = if is_some measured then 80 else 55 in
      some (
        finding FindingId.mtu_blackhole "mtu_blackhole" Severity.high
          "Suspected problem: large packets are being dropped (MTU black hole)"
          (mtu_text interface_mtu
            (if str_eq mtu_detail "" then "The MTU probe produced no measurement." else mtu_detail))
          ("tcp.v4" ∷ "tcp.v6" ∷ "tls.handshake" ∷ "mtu.pmtu" ∷ [])
          ("Lower the interface MTU (1400 is a safe test value) and retry"
            ∷ "If a VPN is active, its encapsulation overhead is the most likely cause" ∷ [])
          confidence)

pub nat64_text : String → String
nat64_text about = concat (
    about ∷ "\n\nOn an IPv6-only network Android normally starts clatd, which "
    ∷ "presents a synthetic IPv4 interface so that IPv4-only applications keep "
    ∷ "working. Without it, anything that uses a hard-coded IPv4 literal or a "
    ∷ "raw IPv4 socket has no path out, while everything that resolves names "
    ∷ "keeps working through DNS64. Apps failing selectively, with no obvious "
    ∷ "pattern, is what that looks like from the outside." ∷ [])

unfoldable pub rule_nat64_without_clat : CheckIndex → DiagState → Option Finding
rule_nat64_without_clat index state =
    if not (warned index "nat64.dns64")
    then none
    else if state.clat_active || passed index "addr.v4"
    then none
    else some (
        finding FindingId.nat64_without_clat "nat64_without_clat" Severity.medium
          "DNS64 is active but 464XLAT is not running" (nat64_text (detail index "nat64.dns64"))
          ("nat64.dns64" ∷ "addr.v4" ∷ [])
          ("Toggle the network; clatd is started as part of network setup" ∷ []) 75)

pub firewall_text : String → String
firewall_text about = concat (
    about ∷ "\n\nAndroid enforces per-app network restrictions in eBPF rather than "
    ∷ "in netfilter, so this does not appear in any iptables dump. Data Saver, "
    ∷ "background restriction, battery optimisation and OEM-specific power "
    ∷ "managers all write into the same map. The app sees ordinary connection "
    ∷ "failures with no indication that policy, rather than the network, is " ∷ "the cause." ∷ [])

unfoldable pub rule_firewall_blocking_uid : CheckIndex → DiagState → Option Finding
rule_firewall_blocking_uid index state =
    if not (failed index "firewall.anomaly")
    then none
    else some (
        finding FindingId.firewall_blocking_uid "firewall_blocking_uid" Severity.high
          "This app is blocked by a firewall rule" (firewall_text (detail index "firewall.anomaly"))
          ("firewall.anomaly" ∷ [])
          ("Check Data Saver and background data restrictions for this app"
            ∷ "Check battery optimisation and any OEM power-saving list" ∷ [])
          85)
