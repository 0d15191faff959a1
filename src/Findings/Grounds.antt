-- ===== src/Findings/Grounds.antt =====
-- Why a finding may stand in a report: a relation with one case for each rule.
use netdiag.Prelude.{◌≡◌, ◌≤◌, true, false, not, str_eq, ◌&&◌, ◌||◌, List, All}
use netdiag.Findings.Model.{
  Check, DiagState, Finding, FindingId, is_validated, is_restricted, evidence_is, is_some, or_text,
  text_contains,
}
use netdiag.Findings.Index.{CheckIndex, new, passed, failed, warned, skipped, detail, evidence}
use netdiag.Findings.Rules.{close_wait_count, rules}
use netdiag.Findings.Evaluate.{evaluate}
use netdiag.Findings.Lift.{Emits, All-evaluate}
use netdiag.Findings.Emits.{
  Presents, no_connectivity_emits, broken_upstream_emits, no_route_emits, ipv6_disabled_emits,
  gateway_emits, dns_broken_emits, private_dns_emits, captive_portal_emits, validated_emits,
  disagreement_emits, vpn_leak_emits, vpn_blackhole_emits, mtu_emits, nat64_emits, firewall_emits,
  syn_sent_emits, close_wait_emits, default_routes_emits, metered_emits,
}

pub data Grounds (index : CheckIndex) (state : DiagState) (f : Finding) : Type 0 where
  no_connectivity :
      Presents FindingId.no_connectivity_at_all f
      → passed index "tcp.v4" ≡ false
      → passed index "tcp.v6" ≡ false
      → failed index "dns.a" ≡ true
      → failed index "dns.aaaa" ≡ true
      → (failed index "tcp.v4" || skipped index "tcp.v4") ≡ true
      → (failed index "tcp.v6" || skipped index "tcp.v6") ≡ true
      → (skipped index "tcp.v4" && skipped index "tcp.v6" && failed index "iface.active") ≡ false
      → Grounds index state f
  broken_upstream :
      Presents FindingId.broken_upstream_ipv6 f
      → passed index "addr.v6" ≡ true
      → passed index "route.v6.default" ≡ true
      → failed index "tcp.v6" ≡ true
      → passed index "tcp.v4" ≡ true
      → Grounds index state f
  no_route :
      Presents FindingId.ipv6_configured_no_route f
      → passed index "addr.v6" ≡ true
      → failed index "route.v6.default" ≡ true
      → Grounds index state f
  ipv6_disabled :
      Presents FindingId.ipv6_disabled_by_sysctl f
      → evidence_is (evidence index "addr.v6" "disable_ipv6") "true" ≡ true
      → Grounds index state f
  gateway :
      Presents FindingId.gateway_unreachable f
      → (failed index "gateway.v4" || failed index "gateway.v6") ≡ true
      → Grounds index state f
  dns_broken :
      Presents FindingId.dns_broken_transport_ok f
      → failed index "dns.a" ≡ true
      → failed index "dns.aaaa" ≡ true
      → (passed index "tcp.v4" || passed index "tcp.v6") ≡ true
      → Grounds index state f
  private_dns :
      Presents FindingId.private_dns_blocking f
      → failed index "dns.private" ≡ true
      → Grounds index state f
  captive_portal :
      Presents FindingId.captive_portal f
      → failed index "captive.portal" ≡ true
      → Grounds index state f
  validated :
      Presents FindingId.validated_but_broken f
      → is_validated state ≡ true
      → ((failed index "tcp.v4" && failed index "tcp.v6")
          || (failed index "dns.a" && failed index "dns.aaaa"))
        ≡ true
      → Grounds index state f
  disagreement :
      Presents FindingId.framework_kernel_disagreement f
      → failed index "framework.kernel" ≡ true
      → Grounds index state f
  vpn_leak :
      Presents FindingId.vpn_leak f
      → evidence_is (evidence index "vpn.routing" "egress_is_vpn") "false" ≡ true
      → str_eq (or_text (evidence index "vpn.routing" "vpn_interfaces") "") "" ≡ false
      → Grounds index state f
  vpn_blackhole :
      Presents FindingId.vpn_blackhole f
      → evidence_is (evidence index "vpn.routing" "egress_is_vpn") "true" ≡ true
      → evidence_is (evidence index "vpn.routing" "vpn_has_ipv6_routes") "false" ≡ true
      → Grounds index state f
  mtu :
      Presents FindingId.mtu_blackhole f
      → (passed index "tcp.v4" || passed index "tcp.v6") ≡ true
      → failed index "tls.handshake" ≡ true
      → passed index "mtu.pmtu" ≡ false
      → Grounds index state f
  nat64 :
      Presents FindingId.nat64_without_clat f
      → warned index "nat64.dns64" ≡ true
      → state.clat_active ≡ false
      → passed index "addr.v4" ≡ false
      → Grounds index state f
  firewall :
      Presents FindingId.firewall_blocking_uid f
      → failed index "firewall.anomaly" ≡ true
      → Grounds index state f
  syn_sent :
      Presents FindingId.sockets_stuck_syn_sent f
      → failed index "sockets.states" ≡ true
      → is_some (evidence index "sockets.states" "syn_sent") ≡ true
      → Grounds index state f
  close_wait :
      Presents FindingId.sockets_stuck_close_wait f
      → warned index "sockets.states" ≡ true
      → 20 ≤ close_wait_count (evidence index "sockets.states" "close_wait")
      → Grounds index state f
  default_routes :
      Presents FindingId.multiple_default_routes f
      → (warned index "route.v4.default" || warned index "route.v6.default") ≡ true
      → ((warned index "route.v4.default"
            && text_contains (detail index "route.v4.default") "competing")
          || (not (warned index "route.v4.default")
              && text_contains (detail index "route.v6.default") "competing"))
        ≡ true
      → Grounds index state f
  metered :
      Presents FindingId.metered_restriction f
      → evidence_is (evidence index "android.state" "metered") "true" ≡ true
      → is_restricted state ≡ true
      → Grounds index state f

rules-Grounds :
    (index : CheckIndex) (state : DiagState) → All (Emits (Grounds index state) index state) rules
rules-Grounds index state = (
  λ f h.
      let (p, a, b, c, d, e, g, k) = no_connectivity_emits index state f h in
      Grounds.no_connectivity p a b c d e g k,
  (
    λ f h.
        let (p, a, b, c, d) = broken_upstream_emits index state f h in
        Grounds.broken_upstream p a b c d,
    (
      λ f h. let (p, a, b) = no_route_emits index state f h in Grounds.no_route p a b,
      (
        λ f h. let (p, a) = ipv6_disabled_emits index state f h in Grounds.ipv6_disabled p a,
        (
          λ f h. let (p, a) = gateway_emits index state f h in Grounds.gateway p a,
          (
            λ f h.
                let (p, a, b, c) = dns_broken_emits index state f h in Grounds.dns_broken p a b c,
            (
              λ f h. let (p, a) = private_dns_emits index state f h in Grounds.private_dns p a,
              (
                λ f h.
                    let (p, a) = captive_portal_emits index state f h in Grounds.captive_portal p a,
                (
                  λ f h. let (p, a, b) = validated_emits index state f h in Grounds.validated p a b,
                  (
                    λ f h.
                        let (p, a) = disagreement_emits index state f h in Grounds.disagreement p a,
                    (
                      λ f h.
                          let (p, a, b) = vpn_leak_emits index state f h in Grounds.vpn_leak p a b,
                      (
                        λ f h.
                            let (p, a, b) = vpn_blackhole_emits index state f h in
                            Grounds.vpn_blackhole p a b,
                        (
                          λ f h.
                              let (p, a, b, c) = mtu_emits index state f h in Grounds.mtu p a b c,
                          (
                            λ f h.
                                let (p, a, b, c) = nat64_emits index state f h in
                                Grounds.nat64 p a b c,
                            (
                              λ f h.
                                  let (p, a) = firewall_emits index state f h in
                                  Grounds.firewall p a,
                              (
                                λ f h.
                                    let (p, a, b) = syn_sent_emits index state f h in
                                    Grounds.syn_sent p a b,
                                (
                                  λ f h.
                                      let (p, a, b) = close_wait_emits index state f h in
                                      Grounds.close_wait p a b,
                                  (
                                    λ f h.
                                        let (p, a, b) = default_routes_emits index state f h in
                                        Grounds.default_routes p a b,
                                    (
                                      λ f h.
                                          let (p, a, b) = metered_emits index state f h in
                                          Grounds.metered p a b,
                                      tt,
                                    ),
                                  ),
                                ),
                              ),
                            ),
                          ),
                        ),
                      ),
                    ),
                  ),
                ),
              ),
            ),
          ),
        ),
      ),
    ),
  ),
)

-- Every finding of a report is presentable, and all that its rule asks of the checks and of the state holds: the checks
-- that must have passed, failed, warned or been skipped, the evidence and the words of a detail that it needs, and what
-- the framework says of the network.
pub evaluate-Grounds :
    (checks : List Check) (state : DiagState)
    → All (Grounds (new checks) state) (evaluate checks state)
evaluate-Grounds checks state =
    All-evaluate (Grounds (new checks) state) checks state (rules-Grounds (new checks) state)
