-- ===== src/Diag/Builder.antt =====
-- daemon/src/diag/mod.rs: `CheckBuilder`, the keys and the titles of the checks. The evidence of a check is a map;
-- how long a check took is left out.
use netdiag.Prelude.{ℕ, String, Option, none, List, [], ◌∷◌, if◌then◌else◌, str_eq}
use netdiag.Prelude.Maps
use netdiag.Findings.Model
use netdiag.Findings.Model.{CheckStatus}
use netdiag.Probe.Context.{ProbeResult}

pub data CheckId : Type 0 where
  unspecified android_network_state active_interface ipv4_address ipv6_address : CheckId
  ipv4_default_route ipv6_default_route gateway_reachability_v4 gateway_reachability_v6 dns_a :
      CheckId
  dns_aaaa tcp_v4 tcp_v6 tls_handshake private_dns : CheckId
  nat64_dns64 vpn_routing firewall_anomaly mtu_pmtu suspicious_tcp_states : CheckId
  framework_kernel_agreement routing_rule_coverage dns_latency captive_portal route_lookup_v4 :
      CheckId
  route_lookup_v6 : CheckId

unfoldable pub check_key : CheckId → String
check_key CheckId.unspecified = "unspecified"
check_key CheckId.android_network_state = "android.state"
check_key CheckId.active_interface = "iface.active"
check_key CheckId.ipv4_address = "addr.v4"
check_key CheckId.ipv6_address = "addr.v6"
check_key CheckId.ipv4_default_route = "route.v4.default"
check_key CheckId.ipv6_default_route = "route.v6.default"
check_key CheckId.gateway_reachability_v4 = "gateway.v4"
check_key CheckId.gateway_reachability_v6 = "gateway.v6"
check_key CheckId.dns_a = "dns.a"
check_key CheckId.dns_aaaa = "dns.aaaa"
check_key CheckId.tcp_v4 = "tcp.v4"
check_key CheckId.tcp_v6 = "tcp.v6"
check_key CheckId.tls_handshake = "tls.handshake"
check_key CheckId.private_dns = "dns.private"
check_key CheckId.nat64_dns64 = "nat64.dns64"
check_key CheckId.vpn_routing = "vpn.routing"
check_key CheckId.firewall_anomaly = "firewall.anomaly"
check_key CheckId.mtu_pmtu = "mtu.pmtu"
check_key CheckId.suspicious_tcp_states = "sockets.states"
check_key CheckId.framework_kernel_agreement = "framework.kernel"
check_key CheckId.routing_rule_coverage = "rules.coverage"
check_key CheckId.dns_latency = "dns.latency"
check_key CheckId.captive_portal = "captive.portal"
check_key CheckId.route_lookup_v4 = "route.lookup.v4"
check_key CheckId.route_lookup_v6 = "route.lookup.v6"

unfoldable pub probe_check_title : CheckId → String
probe_check_title CheckId.unspecified = "Check"
probe_check_title CheckId.android_network_state = "Check"
probe_check_title CheckId.active_interface = "Check"
probe_check_title CheckId.ipv4_address = "Check"
probe_check_title CheckId.ipv6_address = "Check"
probe_check_title CheckId.ipv4_default_route = "Check"
probe_check_title CheckId.ipv6_default_route = "Check"
probe_check_title CheckId.gateway_reachability_v4 = "IPv4 gateway reachable"
probe_check_title CheckId.gateway_reachability_v6 = "IPv6 gateway reachable"
probe_check_title CheckId.dns_a = "DNS A lookup"
probe_check_title CheckId.dns_aaaa = "DNS AAAA lookup"
probe_check_title CheckId.tcp_v4 = "TCP connection over IPv4"
probe_check_title CheckId.tcp_v6 = "TCP connection over IPv6"
probe_check_title CheckId.tls_handshake = "TLS handshake"
probe_check_title CheckId.private_dns = "Private DNS"
probe_check_title CheckId.nat64_dns64 = "NAT64 / DNS64"
probe_check_title CheckId.vpn_routing = "Check"
probe_check_title CheckId.firewall_anomaly = "Check"
probe_check_title CheckId.mtu_pmtu = "MTU / path MTU"
probe_check_title CheckId.suspicious_tcp_states = "Check"
probe_check_title CheckId.framework_kernel_agreement = "Check"
probe_check_title CheckId.routing_rule_coverage = "Check"
probe_check_title CheckId.dns_latency = "Check"
probe_check_title CheckId.captive_portal = "Check"
probe_check_title CheckId.route_lookup_v4 = "Check"
probe_check_title CheckId.route_lookup_v6 = "Check"

abbrev pub status_code : CheckStatus → ℕ
status_code CheckStatus.unspecified = 0
status_code CheckStatus.pass = 1
status_code CheckStatus.fail = 2
status_code CheckStatus.warn = 3
status_code CheckStatus.skip = 4
status_code CheckStatus.info = 5
status_code CheckStatus.running = 6

pub record Check : Type 0 where
  pub id : CheckId
  pub key : String
  pub title : String
  pub family : ℕ
  pub depends_on : List String
  pub status : ℕ
  pub detail : String
  pub evidence : List (String × String)
  pub error : Option String

-- The part of a check that the rules read.
abbrev pub as_evidence : Check → Model.Check
as_evidence c = record { key = c.key; status = c.status; detail = c.detail; evidence = c.evidence }

unfoldable pub start : CheckId → String → Check
unfolding check_key
start id title = record {
  id = id;
  key = check_key id;
  title = title;
  family = 0;
  depends_on = [];
  status = 0;
  detail = "";
  evidence = [];
  error = none;
}

abbrev pub of_family : ℕ → Check → Check
of_family family c = record c { family = family }

-- `ev`
unfoldable pub ev : String → String → Check → Check
ev key value c = record c { evidence = Maps.put str_eq key value c.evidence }

unfoldable pub finish : CheckStatus → String → Check → Check
finish status detail c = record c { status = status_code status; detail = detail }

abbrev pub pass : String → Check → Check
pass detail c = finish CheckStatus.pass detail c

abbrev pub fail : String → Check → Check
fail detail c = finish CheckStatus.fail detail c

abbrev pub warn : String → Check → Check
warn detail c = finish CheckStatus.warn detail c

abbrev pub skip : String → Check → Check
skip detail c = finish CheckStatus.skip detail c

abbrev pub info : String → Check → Check
info detail c = finish CheckStatus.info detail c

unfoldable pub add_evidence : List (String × String) → Check → Check
unfolding ev
add_evidence [] c = c
add_evidence ((key, value) ∷ rest) c = add_evidence rest (ev key value c)

unfoldable pub with_probe : ProbeResult → Check → Check
unfolding add_evidence finish
with_probe result c =
    let b = add_evidence result.evidence (record c { error = result.error }) in
    if result.is_ok then pass result.detail b else fail result.detail b
