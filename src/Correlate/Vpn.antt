-- ===== src/Correlate/Vpn.antt =====
-- daemon/src/correlate.rs: `assess_vpn`; daemon/src/collect/routes.rs: `rule_can_match_uid`.
use netdiag.Prelude.{
  ℕ, String, Bool, true, false, not, ◌&&◌, ◌||◌, Option, none, some, List, [], ◌∷◌, leb, ◌==◌,
  if◌then◌else◌, length, is_empty, first, any, find, filter, contains, concat, show,
}
use netdiag.Correlate.Model.{
  i32_le, RoutingRule, NextHop, RouteLookup, Interface, UidRange, AndroidNetwork, VpnAssessment,
  vpn_tun, transport_vpn,
}

-- `uid >= r.uid_range_start && uid <= r.uid_range_end`
abbrev pub in_range : ℕ → RoutingRule → Bool
in_range uid r = leb r.uid_range_start uid && leb uid r.uid_range_end

unfoldable pub rule_can_match_uid : RoutingRule → ℕ → Bool
rule_can_match_uid rule uid =
    if not rule.has_uid_range
    then true
    else if rule.invert
    then not (in_range uid rule)
    else in_range uid rule

-- `lookup.route.as_ref().and_then(|r| r.next_hops.first())`
abbrev pub first_hop : RouteLookup → Option NextHop
first_hop lookup = elim lookup.route [ none ↦ none | some r ↦ first r.next_hops ]

abbrev pub leaves_by : ℕ → RouteLookup → Bool
leaves_by index lookup = elim (first_hop lookup) [
  | none ↦ false
  | some h ↦ h.out_interface_index == index
]

abbrev pub is_up_vpn : Interface → Bool
is_up_vpn i = i.kind == vpn_tun && elim i.flags [ none ↦ false | some up ↦ up ]

abbrev pub is_bypass_rule : ℕ → RoutingRule → Bool
is_bypass_rule uid r = r.has_uid_range && (r.invert && in_range uid r)

abbrev pub is_explicit_rule : ℕ → RoutingRule → Bool
is_explicit_rule uid r = r.has_uid_range && (not r.invert && in_range uid r)

abbrev pub is_vpn_uid_rule : List ℕ → RoutingRule → Bool
is_vpn_uid_rule vpn_tables r = r.has_uid_range && contains vpn_tables r.table

abbrev pub covers : ℕ → RoutingRule → Bool
covers uid r = in_range uid r && not r.invert

-- Which of the texts of `bypass_reason` is given, with what it shows.
pub data Reason : Type 0 where
  excluded_by : RoutingRule → Reason
  outside_all : ℕ → Reason
  sent_elsewhere : RoutingRule → Reason
  not_selected : Reason
  no_reason : Reason

unfoldable pub explain : ℕ → Reason → String
explain uid (Reason.excluded_by rule) = concat (
    "rule priority "
    ∷ show rule.priority
    ∷ " explicitly excludes uids "
    ∷ show rule.uid_range_start
    ∷ "-"
    ∷ show rule.uid_range_end
    ∷ " from table "
    ∷ show rule.table
    ∷ [])
explain uid (Reason.outside_all count) = concat (
    "uid "
    ∷ show uid
    ∷ " falls outside all "
    ∷ show count
    ∷ " uid range(s) that route into the VPN's table, so the VPN app's per-app list "
    ∷ "excludes this app"
    ∷ [])
explain uid (Reason.sent_elsewhere rule) = concat (
    "rule priority "
    ∷ show rule.priority
    ∷ " sends uids "
    ∷ show rule.uid_range_start
    ∷ "-"
    ∷ show rule.uid_range_end
    ∷ " to table "
    ∷ show rule.table
    ∷ " instead of the VPN"
    ∷ [])
explain uid Reason.not_selected = "the kernel route lookup does not select the VPN interface"
explain uid Reason.no_reason = ""

abbrev pub explicit_reason : Option RoutingRule → Reason
explicit_reason none = Reason.not_selected
explicit_reason (some rule) = Reason.sent_elsewhere rule

abbrev pub without_bypass_rule : List RoutingRule → List RoutingRule → ℕ → Bool → Reason
without_bypass_rule rules vpn_uid_rules uid uses_vpn =
    if not uses_vpn && (not (is_empty vpn_uid_rules) && not (any (covers uid) vpn_uid_rules))
    then Reason.outside_all (length vpn_uid_rules)
    else if not uses_vpn
    then explicit_reason (find (is_explicit_rule uid) rules)
    else Reason.no_reason

abbrev pub reason_of : Option RoutingRule → Reason → Reason
reason_of none other = other
reason_of (some rule) other = Reason.excluded_by rule

unfoldable pub bypass_reason : List RoutingRule → List ℕ → ℕ → Bool → Reason
bypass_reason rules vpn_tables uid uses_vpn =
    reason_of (find (is_bypass_rule uid) rules)
      (without_bypass_rule rules (filter (is_vpn_uid_rule vpn_tables) rules) uid uses_vpn)

-- `android_state` is its list of networks.
abbrev pub vpn_network : Option (List AndroidNetwork) → Option AndroidNetwork
vpn_network none = none
vpn_network (some networks) = find (λ n. contains n.transports transport_vpn) networks

-- `uid as i32 >= r.start && uid as i32 <= r.stop`: the bit pattern of `uid as i32` is `uid`.
abbrev pub names_uid : ℕ → List UidRange → Bool
names_uid uid ranges = is_empty ranges || any (λ r. i32_le r.start uid && i32_le uid r.stop) ranges

abbrev pub framework_says_in_vpn : ℕ → Option AndroidNetwork → Bool
framework_says_in_vpn uid none = false
framework_says_in_vpn uid (some n) = elim n.capabilities [
  | none ↦ false
  | some ranges ↦ names_uid uid ranges
]

abbrev pub differ : Bool → Bool → Bool
differ true b = not b
differ false b = b

abbrev pub no_assessment : VpnAssessment
no_assessment = record {
  vpn_present = false;
  vpn_interface = "";
  vpn_net_id = 0;
  app_uses_vpn = false;
  app_bypasses_vpn = false;
  bypass_reason = "";
  framework_says_in_vpn = false;
  disagreement = false;
  split_tunnel = false;
  ipv6_inside_vpn = false;
}

module _ (rules : List RoutingRule) (vpn_tables : List ℕ) (uid : ℕ)
    (lookup_v4 lookup_v6 : RouteLookup) (android_state : Option (List AndroidNetwork)) where
  unfoldable pub assess_vpn_on : Interface → VpnAssessment
  assess_vpn_on vpn =
      let v4_in_vpn = leaves_by vpn.index lookup_v4 in
      let ipv6_inside_vpn = leaves_by vpn.index lookup_v6 in
      let uses_vpn = v4_in_vpn || ipv6_inside_vpn in
      let network = vpn_network android_state in
      let says = framework_says_in_vpn uid network in
      record {
        vpn_present = true;
        vpn_interface = vpn.name;
        vpn_net_id = elim network [ none ↦ 0 | some n ↦ n.net_id ];
        app_uses_vpn = uses_vpn;
        app_bypasses_vpn = not uses_vpn;
        bypass_reason = explain uid (bypass_reason rules vpn_tables uid uses_vpn);
        framework_says_in_vpn = says;
        disagreement = differ says uses_vpn;
        split_tunnel = differ v4_in_vpn ipv6_inside_vpn;
        ipv6_inside_vpn = ipv6_inside_vpn;
      }

  abbrev pub assess_with : Option Interface → VpnAssessment
  assess_with none = no_assessment
  assess_with (some vpn) = assess_vpn_on vpn

  unfoldable pub assess_vpn : List Interface → VpnAssessment
  assess_vpn interfaces = assess_with (find is_up_vpn interfaces)
