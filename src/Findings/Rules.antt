-- ===== src/Findings/Rules.antt =====
-- daemon/src/diag/rules.rs: the table `RULES`, in its order.
mod Transport
mod Resolver
mod Vpn
mod Path
mod Sockets
use netdiag.Prelude.{Option, List, [], ◌∷◌}
use netdiag.Findings.Model.{DiagState, Finding}
use netdiag.Findings.Index.{CheckIndex}
unfoldable pub use Transport.{
  rule_no_connectivity_at_all, rule_broken_upstream_ipv6, rule_ipv6_configured_no_route,
  rule_ipv6_disabled_by_sysctl, rule_gateway_unreachable,
}
unfoldable pub use Resolver.{
  rule_dns_broken_transport_ok, rule_private_dns_blocking, rule_captive_portal,
  rule_validated_but_broken, rule_framework_kernel_disagreement,
}
unfoldable pub use Vpn.{rule_vpn_leak, rule_vpn_ipv6_blackhole}
unfoldable pub use Path.{rule_mtu_blackhole, rule_nat64_without_clat, rule_firewall_blocking_uid}
pub use Sockets.{close_wait_count}
unfoldable pub use Sockets.{
  rule_sockets_stuck_syn_sent, rule_sockets_stuck_close_wait, rule_multiple_default_routes,
  rule_metered_restriction,
}

abbrev pub Rule : Type 0
Rule = CheckIndex → DiagState → Option Finding

abbrev pub rules : List Rule
rules =
    rule_no_connectivity_at_all ∷ rule_broken_upstream_ipv6 ∷ rule_ipv6_configured_no_route
    ∷ rule_ipv6_disabled_by_sysctl ∷ rule_gateway_unreachable ∷ rule_dns_broken_transport_ok
    ∷ rule_private_dns_blocking ∷ rule_captive_portal ∷ rule_validated_but_broken
    ∷ rule_framework_kernel_disagreement ∷ rule_vpn_leak ∷ rule_vpn_ipv6_blackhole
    ∷ rule_mtu_blackhole ∷ rule_nat64_without_clat ∷ rule_firewall_blocking_uid
    ∷ rule_sockets_stuck_syn_sent ∷ rule_sockets_stuck_close_wait ∷ rule_multiple_default_routes
    ∷ rule_metered_restriction ∷ []
