-- ===== src/Diag/Run.antt =====
-- daemon/src/diag/mod.rs: `run`. What the probes and the firewall's surface give are arguments.
use netdiag.Prelude.{
  ℕ, String, Bool, true, false, Option, none, some, List, [], ◌∷◌, ◌++◌, if◌then◌else◌, concat,
}
use netdiag.Firewall.Rule.{Lookup}
use netdiag.Findings.Model
use netdiag.Diag.Builder.{CheckId, Check, start, fail, skip, finish, probe_check_title}
use netdiag.Diag.State.{Network, DiagState}
use netdiag.Diag.Device.{check_android_state, check_active_interface}
use netdiag.Diag.Paths.{check_route_lookup, check_default_route, check_rule_coverage}
use netdiag.Diag.Address.{check_address}
use netdiag.Diag.Vpn.{check_vpn}
use netdiag.Diag.Framework.{check_uid_firewall, check_captive_portal}
use netdiag.Diag.Sockets.{check_socket_states}
use netdiag.Diag.Agreement.{check_framework_agreement}
use netdiag.Diag.Report
use netdiag.Diag.Report.{wanted, DiagnoseResponse}
use netdiag.Diag.Headline.{conclude}

-- The number of an id.
abbrev pub id_code : CheckId → ℕ
id_code CheckId.unspecified = 0
id_code CheckId.android_network_state = 1
id_code CheckId.active_interface = 2
id_code CheckId.ipv4_address = 3
id_code CheckId.ipv6_address = 4
id_code CheckId.ipv4_default_route = 5
id_code CheckId.ipv6_default_route = 6
id_code CheckId.gateway_reachability_v4 = 7
id_code CheckId.gateway_reachability_v6 = 8
id_code CheckId.dns_a = 9
id_code CheckId.dns_aaaa = 10
id_code CheckId.tcp_v4 = 11
id_code CheckId.tcp_v6 = 12
id_code CheckId.tls_handshake = 13
id_code CheckId.private_dns = 14
id_code CheckId.nat64_dns64 = 15
id_code CheckId.vpn_routing = 16
id_code CheckId.firewall_anomaly = 17
id_code CheckId.mtu_pmtu = 18
id_code CheckId.suspicious_tcp_states = 19
id_code CheckId.framework_kernel_agreement = 20
id_code CheckId.routing_rule_coverage = 21
id_code CheckId.dns_latency = 22
id_code CheckId.captive_portal = 23
id_code CheckId.route_lookup_v4 = 24
id_code CheckId.route_lookup_v6 = 25

-- A request to diagnose. `networks` are those of the framework's state, where the app sent one.
pub record DiagnoseRequest : Type 0 where
  pub networks : Option (List Network)
  pub as_uid : Option ℕ
  pub passive_only : Bool
  pub only : List ℕ
  pub skip : List ℕ

-- `run`'s `wanted`, for a request.
abbrev pub is_asked : DiagnoseRequest → CheckId → Bool
is_asked request id = wanted request.skip request.only (id_code id)

-- What the system gives besides the state: the names of the generated code, the firewall's map and surface, and
-- the checks that probe, given those before them.
pub record System : Type 0 where
  pub ip_text : List ℕ → String
  pub kind_text : ℕ → String
  pub oper_text : ℕ → String
  pub scope_text : ℕ → String
  pub firewall_of : ℕ → Lookup
  pub surface : Check
  pub probe : CheckId → List Check → Check

unfoldable pub check_firewall : System → Option ℕ → Check
unfolding check_uid_firewall
check_firewall system none = system.surface
check_firewall system (some uid) = check_uid_firewall uid (system.firewall_of uid)

-- The checks of the collected state, in order.
unfoldable pub structural : System → DiagnoseRequest → DiagState → List (CheckId × Check)
unfolding check_firewall
structural system request state =
    (CheckId.android_network_state, check_android_state state request.networks)
    ∷ (CheckId.active_interface, check_active_interface system.kind_text system.oper_text state)
    ∷ (CheckId.route_lookup_v4, check_route_lookup system.ip_text state false)
    ∷ (CheckId.route_lookup_v6, check_route_lookup system.ip_text state true)
    ∷ (CheckId.ipv4_address, check_address system.ip_text system.scope_text state false)
    ∷ (CheckId.ipv6_address, check_address system.ip_text system.scope_text state true)
    ∷ (CheckId.ipv4_default_route, check_default_route system.ip_text state false)
    ∷ (CheckId.ipv6_default_route, check_default_route system.ip_text state true)
    ∷ (CheckId.routing_rule_coverage, check_rule_coverage state)
    ∷ (CheckId.vpn_routing, check_vpn state)
    ∷ (CheckId.firewall_anomaly, check_firewall system request.as_uid)
    ∷ (CheckId.suspicious_tcp_states, check_socket_states state)
    ∷ (CheckId.framework_kernel_agreement, check_framework_agreement system.ip_text state)
    ∷ (CheckId.captive_portal, check_captive_portal state)
    ∷ []

-- The checks that probe, in order.
abbrev pub probing : List CheckId
probing =
    CheckId.gateway_reachability_v4 ∷ CheckId.gateway_reachability_v6 ∷ CheckId.dns_a
    ∷ CheckId.dns_aaaa ∷ CheckId.tcp_v4 ∷ CheckId.tcp_v6 ∷ CheckId.tls_handshake
    ∷ CheckId.private_dns ∷ CheckId.nat64_dns64 ∷ CheckId.mtu_pmtu ∷ []

unfoldable pub push_structural : DiagnoseRequest → List (CheckId × Check) → List Check → List Check
push_structural request [] checks = checks
push_structural request ((id, check) ∷ rest) checks =
    push_structural request rest (if is_asked request id then checks ++ check ∷ [] else checks)

unfoldable pub push_probes :
    DiagnoseRequest → (CheckId → List Check → Check) → List CheckId → List Check → List Check
push_probes request probe [] checks = checks
push_probes request probe (id ∷ ids) checks =
    push_probes request probe ids
      (if is_asked request id then checks ++ probe id checks ∷ [] else checks)

unfoldable pub skipped : CheckId → List Check → Check
unfolding start finish probe_check_title
skipped id checks =
    skip "skipped: the request asked for passive analysis only" (start id (probe_check_title id))

-- What `gather` returns; the rules read their part of the state.
pub data Gathered : Type 0 where
  failed : String → Gathered
  gathered : DiagState → Model.DiagState → Gathered

unfoldable pub run : System → DiagnoseRequest → Gathered → DiagnoseResponse
unfolding structural push_structural push_probes skipped conclude start finish Report.finish
run system request (Gathered.failed e) =
    Report.finish
      (fail (concat ("could not read kernel networking state: " ∷ e ∷ []))
          (start CheckId.active_interface "Collect kernel state")
        ∷ [])
      []
run system request (Gathered.gathered state for_rules) =
    let probe = if request.passive_only then skipped else system.probe in
    let checks = push_structural request (structural system request state) [] in
    conclude (push_probes request probe probing checks) for_rules
