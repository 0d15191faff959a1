-- ===== src/Findings/Emits.antt =====
-- What each rule emits, and on what evidence: one lemma for each rule, from which the theorems about
-- a whole report follow.
use netdiag.Prelude.{◌≡◌, ◌≤◌, true, false, ◌&&◌, ◌||◌, not, some, arith, is_empty, str_eq}
use netdiag.Findings.Model.{
  DiagState, Finding, FindingId, id_code, finding, is_validated, is_restricted, evidence_is,
  is_some, or_text, text_contains,
}
use netdiag.Findings.Index.{CheckIndex, passed, failed, warned, skipped, detail, evidence}
use netdiag.Findings.Rules.{
  close_wait_count, rule_no_connectivity_at_all, rule_broken_upstream_ipv6,
  rule_ipv6_configured_no_route, rule_ipv6_disabled_by_sysctl, rule_gateway_unreachable,
  rule_dns_broken_transport_ok, rule_private_dns_blocking, rule_captive_portal,
  rule_validated_but_broken, rule_framework_kernel_disagreement, rule_vpn_leak,
  rule_vpn_ipv6_blackhole, rule_mtu_blackhole, rule_nat64_without_clat, rule_firewall_blocking_uid,
  rule_sockets_stuck_syn_sent, rule_sockets_stuck_close_wait, rule_multiple_default_routes,
  rule_metered_restriction,
}

-- A finding as it may be shown: its id, a real severity, a percentage, and no empty lists.
pub record Presents (id : FindingId) (f : Finding) : Type 0 where
  pub identified : f.id ≡ id_code id
  pub severe : 1 ≤ f.severity
  pub scaled : f.severity ≤ 5
  pub percent : f.confidence ≤ 100
  pub supported : is_empty f.supporting_checks ≡ false
  pub actionable : is_empty f.suggested_actions ≡ false

module _ (index : CheckIndex) (state : DiagState) (f : Finding) where
  pub no_connectivity_emits :
      rule_no_connectivity_at_all index state ≡ some f
      → Presents FindingId.no_connectivity_at_all f
        × (passed index "tcp.v4" ≡ false)
        × (passed index "tcp.v6" ≡ false)
        × (failed index "dns.a" ≡ true)
        × (failed index "dns.aaaa" ≡ true)
        × ((failed index "tcp.v4" || skipped index "tcp.v4") ≡ true)
        × ((failed index "tcp.v6" || skipped index "tcp.v6") ≡ true)
        × ((skipped index "tcp.v4" && skipped index "tcp.v6" && failed index "iface.active")
            ≡ false)
  unfolding rule_no_connectivity_at_all finding passed failed skipped
  no_connectivity_emits h = ground arith

  pub broken_upstream_emits :
      rule_broken_upstream_ipv6 index state ≡ some f
      → Presents FindingId.broken_upstream_ipv6 f
        × (passed index "addr.v6" ≡ true)
        × (passed index "route.v6.default" ≡ true)
        × (failed index "tcp.v6" ≡ true)
        × (passed index "tcp.v4" ≡ true)
  unfolding rule_broken_upstream_ipv6 finding
  broken_upstream_emits h = ground arith

  pub no_route_emits :
      rule_ipv6_configured_no_route index state ≡ some f
      → Presents FindingId.ipv6_configured_no_route f
        × (passed index "addr.v6" ≡ true)
        × (failed index "route.v6.default" ≡ true)
  unfolding rule_ipv6_configured_no_route finding
  no_route_emits h = ground arith

  pub ipv6_disabled_emits :
      rule_ipv6_disabled_by_sysctl index state ≡ some f
      → Presents FindingId.ipv6_disabled_by_sysctl f
        × (evidence_is (evidence index "addr.v6" "disable_ipv6") "true" ≡ true)
  unfolding rule_ipv6_disabled_by_sysctl finding
  ipv6_disabled_emits h = ground arith

  pub gateway_emits :
      rule_gateway_unreachable index state ≡ some f
      → Presents FindingId.gateway_unreachable f
        × ((failed index "gateway.v4" || failed index "gateway.v6") ≡ true)
  unfolding rule_gateway_unreachable finding
  gateway_emits h = ground arith

  pub dns_broken_emits :
      rule_dns_broken_transport_ok index state ≡ some f
      → Presents FindingId.dns_broken_transport_ok f
        × (failed index "dns.a" ≡ true)
        × (failed index "dns.aaaa" ≡ true)
        × ((passed index "tcp.v4" || passed index "tcp.v6") ≡ true)
  unfolding rule_dns_broken_transport_ok finding
  dns_broken_emits h = ground arith

  pub private_dns_emits :
      rule_private_dns_blocking index state ≡ some f
      → Presents FindingId.private_dns_blocking f × (failed index "dns.private" ≡ true)
  unfolding rule_private_dns_blocking finding
  private_dns_emits h = ground arith

  pub captive_portal_emits :
      rule_captive_portal index state ≡ some f
      → Presents FindingId.captive_portal f × (failed index "captive.portal" ≡ true)
  unfolding rule_captive_portal finding
  captive_portal_emits h = ground arith

  pub validated_emits :
      rule_validated_but_broken index state ≡ some f
      → Presents FindingId.validated_but_broken f
        × (is_validated state ≡ true)
        × (((failed index "tcp.v4" && failed index "tcp.v6")
              || (failed index "dns.a" && failed index "dns.aaaa"))
            ≡ true)
  unfolding rule_validated_but_broken finding
  validated_emits h = ground arith

  pub disagreement_emits :
      rule_framework_kernel_disagreement index state ≡ some f
      → Presents FindingId.framework_kernel_disagreement f
        × (failed index "framework.kernel" ≡ true)
  unfolding rule_framework_kernel_disagreement finding
  disagreement_emits h = ground arith

  pub vpn_leak_emits :
      rule_vpn_leak index state ≡ some f
      → Presents FindingId.vpn_leak f
        × (evidence_is (evidence index "vpn.routing" "egress_is_vpn") "false" ≡ true)
        × (str_eq (or_text (evidence index "vpn.routing" "vpn_interfaces") "") "" ≡ false)
  unfolding rule_vpn_leak finding
  vpn_leak_emits h = ground arith

  pub vpn_blackhole_emits :
      rule_vpn_ipv6_blackhole index state ≡ some f
      → Presents FindingId.vpn_blackhole f
        × (evidence_is (evidence index "vpn.routing" "egress_is_vpn") "true" ≡ true)
        × (evidence_is (evidence index "vpn.routing" "vpn_has_ipv6_routes") "false" ≡ true)
  unfolding rule_vpn_ipv6_blackhole finding
  vpn_blackhole_emits h = ground arith

  pub mtu_emits :
      rule_mtu_blackhole index state ≡ some f
      → Presents FindingId.mtu_blackhole f
        × ((passed index "tcp.v4" || passed index "tcp.v6") ≡ true)
        × (failed index "tls.handshake" ≡ true)
        × (passed index "mtu.pmtu" ≡ false)
  unfolding rule_mtu_blackhole finding
  mtu_emits h = ground arith

  pub nat64_emits :
      rule_nat64_without_clat index state ≡ some f
      → Presents FindingId.nat64_without_clat f
        × (warned index "nat64.dns64" ≡ true)
        × (state.clat_active ≡ false)
        × (passed index "addr.v4" ≡ false)
  unfolding rule_nat64_without_clat finding
  nat64_emits h = ground arith

  pub firewall_emits :
      rule_firewall_blocking_uid index state ≡ some f
      → Presents FindingId.firewall_blocking_uid f × (failed index "firewall.anomaly" ≡ true)
  unfolding rule_firewall_blocking_uid finding
  firewall_emits h = ground arith

  pub syn_sent_emits :
      rule_sockets_stuck_syn_sent index state ≡ some f
      → Presents FindingId.sockets_stuck_syn_sent f
        × (failed index "sockets.states" ≡ true)
        × (is_some (evidence index "sockets.states" "syn_sent") ≡ true)
  unfolding rule_sockets_stuck_syn_sent finding
  syn_sent_emits h = ground arith

  pub close_wait_emits :
      rule_sockets_stuck_close_wait index state ≡ some f
      → Presents FindingId.sockets_stuck_close_wait f
        × (warned index "sockets.states" ≡ true)
        × (20 ≤ close_wait_count (evidence index "sockets.states" "close_wait"))
  unfolding rule_sockets_stuck_close_wait finding
  close_wait_emits h = ground arith

  pub default_routes_emits :
      rule_multiple_default_routes index state ≡ some f
      → Presents FindingId.multiple_default_routes f
        × ((warned index "route.v4.default" || warned index "route.v6.default") ≡ true)
        × (((warned index "route.v4.default"
                && text_contains (detail index "route.v4.default") "competing")
              || (not (warned index "route.v4.default")
                  && text_contains (detail index "route.v6.default") "competing"))
            ≡ true)
  unfolding rule_multiple_default_routes finding
  default_routes_emits h = ground arith

  pub metered_emits :
      rule_metered_restriction index state ≡ some f
      → Presents FindingId.metered_restriction f
        × (evidence_is (evidence index "android.state" "metered") "true" ≡ true)
        × (is_restricted state ≡ true)
  unfolding rule_metered_restriction finding
  metered_emits h = ground arith
