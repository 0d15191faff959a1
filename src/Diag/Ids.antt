-- ===== src/Diag/Ids.antt =====
-- Which checks a report of daemon/src/diag/mod.rs has.
use netdiag.Prelude.{
  ℕ, String, ◌≡◌, refl, Bool, true, false, Option, none, some, List, [], ◌∷◌, arith,
}
use netdiag.Firewall.Rule.{UidFirewallState}
use netdiag.Routes.Model.{Route, RoutingRule}
use netdiag.Diag.Builder.{Check, ev, finish}
use netdiag.Diag.State.{
  Flags, Interface, SocketSummary, Capabilities, LinkProperties, Network, DiagState, Sysctls,
}
use netdiag.Diag.Device.{
  judge_network, check_network, check_given_state, judge_interface, check_egress,
}
use netdiag.Diag.Paths.{judge_lookup, none_in_table, judge_defaults, judge_rules}
use netdiag.Diag.Address.{judge_address, add_sysctls, check_interface_address}
use netdiag.Diag.Vpn.{judge_vpn, vpn_found, judge_vpns}
use netdiag.Diag.Framework.{judge_portal, check_network_portal, judge_firewall}
use netdiag.Diag.Sockets.{judge_sockets}
use netdiag.Diag.Agreement.{judge_agreement, compare_with, compare_network}

judge_network-id :
    (n : String) (caps : Capabilities) (ts : List String) (c : Check)
    → (judge_network n caps ts c).id ≡ c.id
unfolding judge_network finish
judge_network-id n caps ts c = ground arith

pub check_android_state-id :
    (state : DiagState) (networks : Option (List Network)) (network : Option Network) (c : Check)
    → (check_given_state state networks network c).id ≡ c.id
unfolding check_given_state check_network ev finish
check_android_state-id state none network c = refl
check_android_state-id state (some ns) none c = refl
check_android_state-id state (some ns) (some network) c = ground arith

judge_interface-id :
    (i : Interface) (flags : Flags) (c : Check) → (judge_interface i flags c).id ≡ c.id
unfolding judge_interface finish
judge_interface-id i flags c = ground arith

pub judge_rules-id :
    (rules uids marks : List RoutingRule) (c : Check) → (judge_rules rules uids marks c).id ≡ c.id
unfolding judge_rules finish
judge_rules-id rules uids marks c = ground arith

judge_vpn-id :
    (vpn : Interface) (egress v6 blackholed : Bool) (c : Check)
    → (judge_vpn vpn egress v6 blackholed c).id ≡ c.id
unfolding judge_vpn finish
judge_vpn-id vpn egress v6 blackholed c = ground arith

pub judge_vpns-id :
    (vpns : List Interface) (framework : Bool) (state : DiagState) (c : Check)
    → (judge_vpns vpns framework state c).id ≡ c.id
unfolding judge_vpns vpn_found finish ev
judge_vpns-id [] true state c = refl
judge_vpns-id [] false state c = refl
judge_vpns-id (vpn ∷ vpns) framework state c = ground arith

pub judge_firewall-id :
    (uid : ℕ) (s : UidFirewallState) (c : Check) → (judge_firewall uid s c).id ≡ c.id
unfolding judge_firewall finish
judge_firewall-id uid s c = ground arith

pub judge_sockets-id : (s : SocketSummary) (c : Check) → (judge_sockets s c).id ≡ c.id
unfolding judge_sockets finish
judge_sockets-id s c = ground arith

judge_portal-id : (caps : Capabilities) (c : Check) → (judge_portal caps c).id ≡ c.id
unfolding judge_portal finish
judge_portal-id caps c = ground arith

pub check_network_portal-id :
    (network : Option Network) (c : Check) → (check_network_portal network c).id ≡ c.id
unfolding check_network_portal ev finish
check_network_portal-id none c = refl
check_network_portal-id (some n) c = ground arith

judge_agreement-id : (texts : List String) (c : Check) → (judge_agreement texts c).id ≡ c.id
unfolding judge_agreement finish
judge_agreement-id [] c = refl
judge_agreement-id (text ∷ texts) c = refl

judge_address-id :
    (i : Interface) (v6 : Bool) (addresses : List String) (c : Check)
    → (judge_address i v6 addresses c).id ≡ c.id
unfolding judge_address finish
judge_address-id i v6 addresses c = ground arith

add_sysctls-id : (v6 : Bool) (s : Sysctls) (c : Check) → (add_sysctls v6 s c).id ≡ c.id
unfolding add_sysctls ev
add_sysctls-id true s c = refl
add_sysctls-id false s c = refl

module _ (ip_text : List ℕ → String) where
  pub judge_lookup-id :
      (error : Option String) (route : Option Route) (v6 : Bool) (c : Check)
      → (judge_lookup ip_text error route v6 c).id ≡ c.id
  unfolding judge_lookup ev finish
  judge_lookup-id (some e) route v6 c = refl
  judge_lookup-id none none v6 c = refl
  judge_lookup-id none (some r) v6 c = refl

  none_in_table-id :
      (v6 : Bool) (table : Option ℕ) (routes : List Route) (c : Check)
      → (none_in_table ip_text v6 table routes c).id ≡ c.id
  unfolding none_in_table finish
  none_in_table-id v6 table [] c = refl
  none_in_table-id v6 none (r ∷ rs) c = refl
  none_in_table-id v6 (some t) (r ∷ rs) c = refl

  pub judge_defaults-id :
      (v6 : Bool) (table : Option ℕ) (all chosen : List Route) (c : Check)
      → (judge_defaults ip_text v6 table all chosen c).id ≡ c.id
  unfolding judge_defaults finish
  judge_defaults-id v6 table all [] c = none_in_table-id v6 table all c
  judge_defaults-id v6 table all (r ∷ []) c = refl
  judge_defaults-id v6 table all (r ∷ s ∷ rest) c = refl

  compare_with-id :
      (state : DiagState) (lp : Option LinkProperties) (c : Check)
      → (compare_with ip_text state lp c).id ≡ c.id
  unfolding compare_with ev finish
  compare_with-id state none c = refl
  compare_with-id state (some lp) c = ground arith

  pub compare_network-id :
      (state : DiagState) (network : Option Network) (c : Check)
      → (compare_network ip_text state network c).id ≡ c.id
  unfolding compare_network finish
  compare_network-id state none c = refl
  compare_network-id state (some n) c = compare_with-id state n.link_properties c

module _ (ip_text : List ℕ → String) (scope_text : ℕ → String) where
  pub check_interface_address-id :
      (v6 : Bool) (i : Option Interface) (c : Check)
      → (check_interface_address ip_text scope_text v6 i c).id ≡ c.id
  unfolding check_interface_address ev finish
  check_interface_address-id v6 none c = refl
  check_interface_address-id v6 (some i) c = ground arith

module _ (kind_text oper_text : ℕ → String) where
  pub check_egress-id :
      (state : DiagState) (i : Option Interface) (c : Check)
      → (check_egress kind_text oper_text state i c).id ≡ c.id
  unfolding check_egress ev finish
  check_egress-id state none c = refl
  check_egress-id state (some i) c = ground arith
