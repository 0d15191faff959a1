-- ===== src/Diag/Vpn.antt =====
-- daemon/src/diag/mod.rs: `check_vpn`.
use netdiag.Prelude.{
  ℕ, Bool, true, false, not, ◌&&◌, ◌||◌, Option, none, some, List, [], ◌∷◌, ◌==◌, if◌then◌else◌,
  any, filter, contains, str_eq, concat, join,
}
use netdiag.Correlate.Model.{vpn_tun, transport_vpn}
use netdiag.Routes.Model.{NextHop, Route}
use netdiag.Diag.Builder.{CheckId, Check, start, ev, pass, fail, warn, skip, info, finish}
use netdiag.Diag.State.{
  Interface, Network, DiagState, family_code, bool_text, is_up, table_of, is_table, number_or,
  names_of,
}

unfoldable pub is_up_vpn : Interface → Bool
is_up_vpn i = i.kind == vpn_tun && is_up i.flags

abbrev pub reports_vpn : Option Network → Bool
reports_vpn none = false
reports_vpn (some n) = contains n.transports transport_vpn

abbrev pub has_index : ℕ → Option Interface → Bool
has_index index none = false
has_index index (some i) = i.index == index

unfoldable pub egress_is_vpn : DiagState → Interface → Bool
egress_is_vpn state vpn = has_index vpn.index state.egress_v4 || has_index vpn.index state.egress_v6

abbrev pub goes_out : ℕ → Route → Bool
goes_out index r = any (λ h. h.out_interface_index == index) r.next_hops

-- A default route of the family through the VPN.
unfoldable pub vpn_default : Bool → DiagState → Interface → Bool
vpn_default v6 state vpn =
    any (λ r. r.is_default && r.family == family_code v6 && goes_out vpn.index r) state.routes

abbrev pub to_loopback : NextHop → Bool
to_loopback h = str_eq h.out_interface_name "lo" || h.out_interface_index == 1

-- `RouteType::Unreachable`, `RouteType::Blackhole` and `RouteType::Prohibit`
abbrev pub is_refusal : ℕ → Bool
is_refusal kind = kind == 7 || kind == 6 || kind == 8

unfoldable pub ipv6_blackholed : DiagState → Option ℕ → Bool
ipv6_blackholed state vpn_table =
    any
      (λ r.
        r.is_default
        && r.family == family_code true
        && is_table r.table vpn_table
        && any to_loopback r.next_hops)
      state.routes
    || any
        (λ r.
          r.is_default
          && r.family == family_code true
          && is_table r.table vpn_table
          && is_refusal r.kind)
        state.routes

-- What is found of a VPN that is up, and the verdict.
unfoldable pub judge_vpn : Interface → Bool → Bool → Bool → Check → Check
unfolding finish
judge_vpn vpn egress default_v6 blackholed c =
    if not egress
    then warn
        (concat (
          vpn.name
          ∷ " is up but this traffic does not go through it; it is being routed around the VPN"
          ∷ []))
        c
    else if not default_v6
    then (if blackholed
        then info
            (concat (
              vpn.name
              ∷ " carries IPv4 only, and IPv6 is deliberately blackholed inside the VPN's routing table; "
              ∷ "applications fall back to IPv4 cleanly and nothing leaks" ∷ []))
            c
        else warn
            (concat (
              vpn.name
              ∷ " carries IPv4 but has no IPv6 default route and IPv6 is not blackholed; IPv6 traffic may "
              ∷ "leave outside the tunnel" ∷ []))
            c)
    else pass (concat ("traffic is routed through " ∷ vpn.name ∷ ", for both IPv4 and IPv6" ∷ [])) c

unfoldable pub vpn_found : Interface → DiagState → Check → Check
unfolding judge_vpn egress_is_vpn vpn_default ipv6_blackholed ev
vpn_found vpn state c =
    let egress = egress_is_vpn state vpn in
    let default_v6 = vpn_default true state vpn in
    let vpn_table = table_of state.lookup_v4.route in
    let blackholed = ipv6_blackholed state vpn_table in
    judge_vpn vpn egress default_v6 blackholed (
      ev "vpn_table" (number_or "?" vpn_table) (
        ev "ipv6_blackholed_in_vpn_table" (bool_text blackholed) (
          ev "vpn_default_route_v4" (bool_text (vpn_default false state vpn)) (
            ev "vpn_has_ipv6_routes" (bool_text default_v6)
              (ev "egress_is_vpn" (bool_text egress) c)))))

unfoldable pub judge_vpns : List Interface → Bool → DiagState → Check → Check
unfolding vpn_found finish
judge_vpns [] true state c =
    fail "the framework reports a VPN transport but no tun interface is up in the kernel" c
judge_vpns [] false state c = skip "no VPN is active" c
judge_vpns (vpn ∷ vpns) framework_vpn state c = vpn_found vpn state c

unfoldable pub check_vpn : DiagState → Check
unfolding judge_vpns ev start is_up_vpn
check_vpn state =
    let vpn_ifaces = filter is_up_vpn state.interfaces in
    let framework_vpn = reports_vpn state.network in
    judge_vpns vpn_ifaces framework_vpn state (
      ev "framework_reports_vpn" (bool_text framework_vpn) (
        ev "vpn_interfaces" (join ", " (names_of vpn_ifaces))
          (start CheckId.vpn_routing "VPN routing")))
