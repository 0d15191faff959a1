-- ===== src/Diag/Checks.antt =====
-- A device whose VPN the traffic goes around, its checks, and the theorems at it.
use netdiag.Prelude.{
  ℕ, String, ◌≡◌, refl, true, false, none, some, List, [], ◌∷◌, map, first, filter, concat, join,
}
use netdiag.Findings.Model
use netdiag.Findings.Model.{CheckStatus, is_some}
use netdiag.Findings.Evaluate.{evaluate}
use netdiag.Findings.Rules.{rule_framework_kernel_disagreement}
use netdiag.Diag.Builder.{CheckId, start, Check, as_evidence}
use netdiag.Diag.State.{Network, LinkProperties, Interface, SocketSummary, RouteLookup, DiagState}
use netdiag.Diag.Vpn.{is_up_vpn, check_vpn}
use netdiag.Diag.Paths.{check_default_route}
use netdiag.Diag.Sockets.{check_socket_states}
use netdiag.Diag.Framework.{check_captive_portal}
use netdiag.Diag.Report.{wanted}
use netdiag.Diag.Agreement.{check_framework_agreement}
use netdiag.Diag.Agrees.{properties_of, differs_from, check_framework_agreement-differs}
use netdiag.Diag.Device.{check_android_state, check_active_interface}
use netdiag.Diag.Address.{check_address}
use netdiag.Firewall.Rule.{Lookup}
use netdiag.Diag.Run.{System, DiagnoseRequest, Gathered, is_asked, run}
use netdiag.Diag.Asked.{ids_of, all_ids, run-ids}
use netdiag.Diag.Verdicts.{alone, goes_around}
use netdiag.Diag.Headline.{conclude, Headlines, number, conclude-Headlines}

abbrev interface : ℕ → String → ℕ → Interface
interface index name kind = record {
  index = index;
  name = name;
  mtu = 1500;
  kind = kind;
  oper_state = 0;
  flags = some (record { up = true; running = true });
  addresses = [];
  sysctls = none;
}

abbrev sockets : SocketSummary
sockets = record {
  total = 12;
  established = 8;
  syn_sent = 6;
  close_wait = 0;
  fin_wait = 0;
  time_wait = 0;
  retransmitting = 0;
}

abbrev no_lookup : RouteLookup
no_lookup = record { fwmark = 0; uid = 0; route = none; error = none }

-- The traffic leaves by wlan0 though tun0 is up.
abbrev device : DiagState
device = record {
  interfaces = interface 3 "wlan0" 2 ∷ interface 5 "tun0" 5 ∷ [];
  rules = [];
  routes = [];
  sockets = [];
  socket_summary = sockets;
  network = none;
  net_id = 0;
  timeout_ms = 3000;
  lookup_v4 = no_lookup;
  lookup_v6 = no_lookup;
  egress_v4 = some (interface 3 "wlan0" 2);
  egress_v6 = none;
}

abbrev no_state : Model.DiagState
no_state = record { network = none; clat_active = false }

abbrev checks : List Check
checks = check_vpn device ∷ check_socket_states device ∷ check_captive_portal device ∷ []

around : goes_around device (filter is_up_vpn device.interfaces) ≡ true
unfolding goes_around is_up_vpn netdiag.Diag.Vpn.egress_is_vpn join
around = refl

-- A warning, a failure and a check that is skipped.
statuses : map (λ c. c.status) checks ≡ 3 ∷ 2 ∷ 4 ∷ []
unfolding check_vpn check_socket_states check_captive_portal
statuses = refl

no_default :
    (check_default_route (λ a. "") device true).detail
    ≡ "there is no IPv6 default route in any table"
unfolding check_default_route concat
no_default = refl

asked :
    (wanted [] [] 6 ≡ true) × (wanted [] (4 ∷ []) 6 ≡ false) × (wanted (6 ∷ []) (6 ∷ []) 6 ≡ false)
unfolding wanted
asked = (refl, refl, refl)

-- The framework names an interface that the kernel does not have.
abbrev properties : LinkProperties
properties = record {
  interface_name = "rmnet0";
  link_addresses = [];
  routes = [];
  mtu = 1500;
  captive_portal_api_url = "";
}

abbrev network : Network
network = record {
  net_id = 101;
  network_handle = 0;
  is_default = true;
  transports = 1 ∷ [];
  capabilities = none;
  link_properties = some properties;
}

abbrev moved : DiagState
moved = record device { network = some network }

differs : differs_from (λ a. "") moved (properties_of moved.network) ≡ true
unfolding differs_from
differs = refl

-- Failures, but that the interface of the egress is up.
told :
    map
      (λ c. c.status)
      (check_framework_agreement (λ a. "") moved
        ∷ check_android_state moved (some (network ∷ []))
        ∷ check_active_interface (λ n. "") (λ n. "") moved
        ∷ check_address (λ a. "") (λ n. "") moved true
        ∷ [])
    ≡ 2 ∷ 2 ∷ 1 ∷ 2 ∷ []
unfolding check_framework_agreement check_android_state check_active_interface check_address
told = refl

check_framework_agreement-differs_example :
    is_some (
      rule_framework_kernel_disagreement
        (alone (check_framework_agreement (λ a. "") moved))
        no_state)
    ≡ differs_from (λ a. "") moved (properties_of moved.network)
check_framework_agreement-differs_example =
    check_framework_agreement-differs (λ a. "") moved no_state

conclude-Headlines_example :
    Headlines (first (evaluate (map as_evidence checks) no_state)) (conclude checks no_state)
    × ((conclude checks no_state).counts.passed ≡ number CheckStatus.pass checks)
    × ((conclude checks no_state).counts.failed ≡ number CheckStatus.fail checks)
    × ((conclude checks no_state).counts.warned ≡ number CheckStatus.warn checks)
    × ((conclude checks no_state).counts.skipped ≡ number CheckStatus.skip checks)
conclude-Headlines_example = conclude-Headlines checks no_state

-- The routes and the probes over TCP are asked for.
abbrev some_checks : DiagnoseRequest
some_checks = record {
  networks = none;
  as_uid = none;
  passive_only = true;
  only = 24 ∷ 5 ∷ 11 ∷ 12 ∷ [];
  skip = 12 ∷ [];
}

-- What probes passes.
abbrev kernel : System
kernel = record {
  ip_text = λ a. "";
  kind_text = λ n. "";
  oper_text = λ n. "";
  scope_text = λ n. "";
  firewall_of = λ uid. Lookup.no_map;
  surface = start CheckId.firewall_anomaly "Firewall interaction";
  probe = λ id checks. start id "";
}

kept :
    filter (is_asked some_checks) all_ids
    ≡ CheckId.route_lookup_v4 ∷ CheckId.ipv4_default_route ∷ CheckId.tcp_v4 ∷ []
unfolding wanted
kept = refl

run-ids_example :
    ((state : DiagState) (d : Model.DiagState)
      → ids_of (run kernel some_checks (Gathered.gathered state d)).checks
        ≡ filter (is_asked some_checks) all_ids)
    × ((e : String)
        → ids_of (run kernel some_checks (Gathered.failed e)).checks
          ≡ CheckId.active_interface ∷ [])
unfolding start
run-ids_example = run-ids kernel refl (λ id checks. refl) some_checks
