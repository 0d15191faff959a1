-- ===== src/Correlate/App.antt =====
-- daemon/src/correlate.rs: the answer about one app. What the kernel and netd say is the record
-- `Kernel`; the answer is put together from it as `app_network_state` does.
use netdiag.Prelude.{
  ℕ, bit_and, String, Bool, true, false, not, ◌&&◌, ◌||◌, Option, none, some, List, [], ◌∷◌, map,
  ltb, ◌==◌, ◌!=◌, if◌then◌else◌, is_empty, any, find, filter, contains, str_eq, concat, join, show,
  show_hex,
}
use netdiag.Fwmark.{net_id_from_mark, fwmark_explicitly_selected, fwmark_protected_from_vpn}
use netdiag.Correlate.Model.{
  RoutingRule, Route, RouteLookup, Interface, AndroidNetwork, Socket, SocketSummary, AppRef,
  VpnAssessment, vpn_tun,
}
use netdiag.Correlate.Vpn.{rule_can_match_uid, first_hop, assess_vpn}
use netdiag.Correlate.Sockets.{observed_net_ids}

unfoldable pub egress_name : RouteLookup → String
egress_name lookup = elim (first_hop lookup) [ none ↦ "" | some h ↦ h.out_interface_name ]

abbrev pub path_note : String → String → Bool → Bool → String
path_note egress_v4 egress_v6 true true =
    concat ("IPv4 via " ∷ egress_v4 ∷ ", IPv6 via " ∷ egress_v6 ∷ [])
path_note egress_v4 egress_v6 true false = concat ("IPv4 via " ∷ egress_v4 ∷ ", no IPv6 path" ∷ [])
path_note egress_v4 egress_v6 false true = concat ("IPv6 via " ∷ egress_v6 ∷ ", no IPv4 path" ∷ [])
path_note egress_v4 egress_v6 false false = "no route out for either family"

unfoldable pub build_summary :
    AppRef → String → String → SocketSummary → VpnAssessment → Bool → Bool → String
build_summary app egress_v4 egress_v6 sockets vpn ipv4_ok ipv6_ok =
    let name =
      if str_eq app.package_name ""
      then concat ("uid " ∷ show app.uid ∷ [])
      else app.package_name in
    let vpn_note =
      if not vpn.vpn_present
      then ""
      else if vpn.app_uses_vpn
      then concat ("; goes through " ∷ vpn.vpn_interface ∷ [])
      else concat ("; bypasses " ∷ vpn.vpn_interface ∷ []) in
    concat (
      name
      ∷ ": "
      ∷ path_note egress_v4 egress_v6 ipv4_ok ipv6_ok
      ∷ vpn_note
      ∷ ". "
      ∷ show sockets.total
      ∷ " socket(s), "
      ∷ show sockets.established
      ∷ " established, "
      ∷ show sockets.syn_sent
      ∷ " in SYN_SENT."
      ∷ [])

abbrev note_if : Bool → String → List String → List String
note_if true note notes = note ∷ notes
note_if false note notes = notes

unfoldable pub describe_mark : ℕ → String
describe_mark mark =
    let net_id = net_id_from_mark mark in
    let notes = note_if (net_id != 0) (concat ("netId " ∷ show net_id ∷ [])) (
      note_if (bit_and mark fwmark_explicitly_selected != 0) "explicitly selected"
        (note_if (bit_and mark fwmark_protected_from_vpn != 0) "protected from VPN" [])) in
    if mark == 0
    then "0 (unmarked, uses the default network)"
    else if is_empty notes
    then concat ("0x" ∷ show_hex mark ∷ [])
    else concat ("0x" ∷ show_hex mark ∷ " (" ∷ join ", " notes ∷ ")" ∷ [])

-- The rules kept for the answer: those that can match the uid and have a selector.
unfoldable pub matching_rules : ℕ → List RoutingRule → List RoutingRule
matching_rules uid rules =
    filter (λ r. rule_can_match_uid r uid && (r.has_uid_range || r.has_fwmark)) rules

-- `tables.sort_unstable(); tables.dedup()` on numbers: insert each once, in order.
insert_table : ℕ → List ℕ → List ℕ
insert_table t [] = t ∷ []
insert_table t (u ∷ rest) =
    if t == u then u ∷ rest else if ltb t u then t ∷ u ∷ rest else u ∷ insert_table t rest

unfoldable pub sort_dedup : List ℕ → List ℕ
unfolding insert_table
sort_dedup [] = []
sort_dedup (t ∷ rest) = insert_table t (sort_dedup rest)

-- `routes` is what `routes::get_routes` returns for default routes, `none` where it fails.
unfoldable pub vpn_tables : List Interface → Option (List Route) → List ℕ
unfolding sort_dedup
vpn_tables interfaces routes =
    let vpn_indexes = map (λ i. i.index) (filter (λ i. i.kind == vpn_tun) interfaces) in
    let leaving = λ (dump : List Route).
      filter (λ r. any (λ h. contains vpn_indexes h.out_interface_index) r.next_hops) dump in
    if is_empty vpn_indexes
    then []
    else elim routes [ none ↦ [] | some dump ↦ sort_dedup (map (λ r. r.table) (leaving dump)) ]

-- The Network that the app's own sockets are pinned to, or else the system default.
abbrev pub pinned_network : List AndroidNetwork → List ℕ → Option AndroidNetwork
pinned_network networks [] = none
pinned_network networks (net_id ∷ rest) = find (λ n. n.net_id == net_id) networks

abbrev pub or_else : Option AndroidNetwork → Option AndroidNetwork → Option AndroidNetwork
or_else none other = other
or_else (some n) other = some n

unfoldable pub android_network : Option (List AndroidNetwork) → List ℕ → Option AndroidNetwork
android_network none ids = none
android_network (some networks) ids =
    or_else (pinned_network networks ids) (find (λ n. n.is_default) networks)

-- What the kernel answers for this app. `lookup_v4` and `lookup_v6` have no route where
-- `skip_route_lookup` is set.
pub record Kernel : Type 0 where
  pub interfaces : List Interface
  pub rules : List RoutingRule
  pub default_routes : Option (List Route)
  pub lookup_v4 : RouteLookup
  pub lookup_v6 : RouteLookup
  pub sockets : List Socket
  pub socket_summary : SocketSummary

pub record AppNetworkState : Type 0 where
  pub network : Option AndroidNetwork
  pub rules : List RoutingRule
  pub table_v4 : ℕ
  pub table_v6 : ℕ
  pub egress_v4 : String
  pub egress_v6 : String
  pub vpn : VpnAssessment
  pub net_ids : List ℕ
  pub ipv4_path_ok : Bool
  pub ipv6_path_ok : Bool
  pub summary : String

abbrev pub table_of : RouteLookup → ℕ
table_of lookup = elim lookup.route [ none ↦ 0 | some r ↦ r.table ]

abbrev pub has_route : RouteLookup → Bool
has_route lookup = elim lookup.route [ none ↦ false | some r ↦ true ]

unfoldable pub app_network_state : AppRef → Option (List AndroidNetwork) → Kernel → AppNetworkState
unfolding android_network vpn_tables
app_network_state app android_state k =
    let egress_v4 = egress_name k.lookup_v4 in
    let egress_v6 = egress_name k.lookup_v6 in
    let ids = observed_net_ids k.sockets in
    let vpn =
      assess_vpn k.rules (vpn_tables k.interfaces k.default_routes) app.uid k.lookup_v4 k.lookup_v6
        android_state k.interfaces in
    let v4_ok = has_route k.lookup_v4 in
    let v6_ok = has_route k.lookup_v6 in
    record {
      network = android_network android_state ids;
      rules = matching_rules app.uid k.rules;
      table_v4 = table_of k.lookup_v4;
      table_v6 = table_of k.lookup_v6;
      egress_v4 = egress_v4;
      egress_v6 = egress_v6;
      vpn = vpn;
      net_ids = ids;
      ipv4_path_ok = v4_ok;
      ipv6_path_ok = v6_ok;
      summary = build_summary app egress_v4 egress_v6 k.socket_summary vpn v4_ok v6_ok;
    }
