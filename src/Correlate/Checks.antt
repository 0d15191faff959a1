-- ===== src/Correlate/Checks.antt =====
-- The answer about concrete apps, and the theorems at them.
use netdiag.Prelude.{
  ℕ, zero, suc, ◌+◌, ◌-◌, ◌*◌, ◌/◌, ◌%◌, ◌^◌, ◌≤◌, ◌<◌, min, bit_and, bit_or, String, ◌≡◌, refl,
  sym, ap, ◌∙◌, subst, ◌≢◌, ◌↔◌, ◌⊎◌, inl, inr, Bool, true, false, not, ◌&&◌, ◌||◌, Option, none,
  some, List, [], ◌∷◌, ◌++◌, map, arith, eq_iff, ltb, leb, ◌==◌, ◌!=◌, if◌then◌else◌, test_bit,
  low_bits, ==_iff, leb→le, Bool-cases, Option-cases, length, get_elem?, take, drop, replicate,
  is_empty, first, any, find, filter, All, length-append, length-drop, length-take,
  take-append_self, drop-append_self, All-map, find-some, find-none, any_none, All-filter, All-find,
  any-find, length-pos, contains, contains-filter, str_eq, concat, join, show, show_hex, IsByte,
  IsBytes, IsU16, IsU32, IsU64, u16_be, u32_be, be16, le16, le32,
}
use netdiag.Prelude.Sort.{IsSorted}
use netdiag.Correlate.Model.{
  RoutingRule, RouteLookup, Interface, Socket, AppRef, VpnAssessment, vpn_tun,
}
use netdiag.Correlate.Vpn.{is_up_vpn, differ, bypass_reason, assess_vpn, explain}
use netdiag.Correlate.Sockets.{observed_net_ids}
use netdiag.Correlate.App.{Kernel, app_network_state, describe_mark}
use netdiag.Prelude.First.{IsFirst}
use netdiag.Correlate.Assess.{is_up_tunnel, LeavesThrough, assess_vpn_iff}
use netdiag.Correlate.Observed.{UsedMore, observed_net_ids-IsSorted}

abbrev uid_rule : ℕ → ℕ → ℕ → Bool → ℕ → RoutingRule
uid_rule priority start stop invert table = record {
  priority = priority;
  has_fwmark = false;
  has_uid_range = true;
  uid_range_start = start;
  uid_range_end = stop;
  invert = invert;
  table = table;
}

-- The VPN takes every app except uid 10342.
abbrev gap_rules : List RoutingRule
gap_rules = uid_rule 13000 0 10341 false 1042 ∷ uid_rule 13000 10343 99999 false 1042 ∷ []

abbrev tunnel : Interface
tunnel = record { index = 7; name = "tun0"; kind = vpn_tun; flags = some true }

abbrev by_interface : ℕ → String → RouteLookup
by_interface index name = record {
  route = some (record {
    table = 1042;
    next_hops = record { out_interface_index = index; out_interface_name = name } ∷ [];
  });
}

abbrev no_route : RouteLookup
no_route = record { route = none }

excluded_app :
    explain 10342 (bypass_reason gap_rules (1042 ∷ []) 10342 false)
    ≡ "uid 10342 falls outside all 2 uid range(s) that route into the VPN's table, so the VPN app's per-app list excludes this app"
unfolding explain bypass_reason concat show
excluded_app = refl

inverted_rule :
    explain 10342 (bypass_reason (uid_rule 12000 10000 19999 true 1042 ∷ []) [] 10342 true)
    ≡ "rule priority 12000 explicitly excludes uids 10000-19999 from table 1042"
unfolding explain bypass_reason concat show
inverted_rule = refl

-- A rule into the VPN's own table, cited as one that goes elsewhere.
own_table :
    explain 10342
      (bypass_reason (uid_rule 13000 10000 19999 false 1042 ∷ []) (1042 ∷ []) 10342 false)
    ≡ "rule priority 13000 sends uids 10000-19999 to table 1042 instead of the VPN"
unfolding explain bypass_reason concat show
own_table = refl

marked : describe_mark 0xf0064 ≡ "0xf0064 (netId 100, explicitly selected, protected from VPN)"
unfolding describe_mark netdiag.Fwmark.net_id_from_mark concat netdiag.Prelude.show_hex
    netdiag.Prelude.join show
marked = refl

abbrev vpn_of_gap : VpnAssessment
vpn_of_gap =
    assess_vpn gap_rules (1042 ∷ []) 10342 (by_interface 3 "wlan0") no_route none (tunnel ∷ [])

bypassing : vpn_of_gap.app_bypasses_vpn ≡ true
unfolding assess_vpn netdiag.Correlate.Vpn.assess_vpn_on
bypassing = refl

abbrev pinned_to : ℕ → Socket
pinned_to id = record { has_mark = true; net_id = id }

abbrev some_sockets : List Socket
some_sockets =
    pinned_to 101
    ∷ pinned_to 0
    ∷ pinned_to 100
    ∷ record { has_mark = false; net_id = 9 }
    ∷ pinned_to 103
    ∷ pinned_to 103
    ∷ []

listed : observed_net_ids some_sockets ≡ 103 ∷ 100 ∷ 101 ∷ []
unfolding observed_net_ids netdiag.Prelude.Sort.sort_by
listed = refl

abbrev app_of_gap : AppRef
app_of_gap = record { package_name = "com.example.app"; uid = 10342 }

abbrev kernel_of_gap : Kernel
kernel_of_gap = record {
  interfaces = tunnel ∷ [];
  rules = gap_rules;
  default_routes = some (
      record {
        table = 1042;
        next_hops = record { out_interface_index = 7; out_interface_name = "tun0" } ∷ [];
      }
      ∷ []);
  lookup_v4 = by_interface 3 "wlan0";
  lookup_v6 = no_route;
  sockets = some_sockets;
  socket_summary = record { total = 6; established = 4; syn_sent = 0 };
}

told :
    (app_network_state app_of_gap none kernel_of_gap).summary
    ≡ "com.example.app: IPv4 via wlan0, no IPv6 path; bypasses tun0. 6 socket(s), 4 established, 0 in SYN_SENT."
unfolding app_network_state netdiag.Correlate.App.build_summary concat
    netdiag.Correlate.App.egress_name assess_vpn netdiag.Correlate.Vpn.assess_vpn_on show
told = refl

observed_net_ids-IsSorted_example : IsSorted (UsedMore some_sockets) (observed_net_ids some_sockets)
observed_net_ids-IsSorted_example = observed_net_ids-IsSorted some_sockets

-- IPv4 leaves by wlan0 and IPv6 by the tunnel.
abbrev split : VpnAssessment
split =
    assess_vpn gap_rules (1042 ∷ []) 10342 (by_interface 3 "wlan0") (by_interface 7 "tun0") none
      (tunnel ∷ [])

abbrev Inside4 : Interface → Type 0
Inside4 vpn = LeavesThrough vpn (by_interface 3 "wlan0")

abbrev Inside6 : Interface → Type 0
Inside6 vpn = LeavesThrough vpn (by_interface 7 "tun0")

abbrev SplitTunnel : (Interface → Type 0) → Type 0
SplitTunnel P = (vpn : Interface) × IsFirst is_up_tunnel (tunnel ∷ []) vpn × P vpn

assess_vpn_iff_example :
    ((split.app_uses_vpn ≡ true) ↔ SplitTunnel (λ vpn. Inside4 vpn ⊎ Inside6 vpn))
    × ((split.app_bypasses_vpn ≡ true) ↔ SplitTunnel (λ vpn. ¬ (Inside4 vpn ⊎ Inside6 vpn)))
    × ((split.ipv6_inside_vpn ≡ true) ↔ SplitTunnel Inside6)
    × ((split.split_tunnel ≡ true)
        ↔ SplitTunnel (λ vpn. (Inside4 vpn × (¬ Inside6 vpn)) ⊎ ((¬ Inside4 vpn) × Inside6 vpn)))
assess_vpn_iff_example =
    assess_vpn_iff gap_rules (1042 ∷ []) 10342 (by_interface 3 "wlan0") (by_interface 7 "tun0") none
      (tunnel ∷ [])
