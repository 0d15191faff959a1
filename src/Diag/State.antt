-- ===== src/Diag/State.antt =====
-- daemon/src/diag/mod.rs: the part of `DiagState` that the checks here read. Enum fields of a message are numbers.
use netdiag.Prelude.{
  ℕ, ◌-◌, ◌^◌, String, Bool, false, Option, none, some, List, [], ◌∷◌, map, ltb, ◌==◌,
  if◌then◌else◌, length, first, concat, show,
}
use netdiag.Capture.Model.{family_v4, family_v6}
use netdiag.Capture.Shown.{display}
use netdiag.Routes.Model.{IpPrefix, Route, RoutingRule, NextHop}

pub record Flags : Type 0 where
  pub up : Bool
  pub running : Bool

pub record AddressFlags : Type 0 where
  pub tentative : Bool
  pub dadfailed : Bool

pub record LinkAddress : Type 0 where
  pub prefix : Option IpPrefix
  pub scope : ℕ
  pub flags : Option AddressFlags

pub record Sysctls : Type 0 where
  pub ipv6_disabled : Bool
  pub accept_ra : ℕ

pub record Interface : Type 0 where
  pub index : ℕ
  pub name : String
  pub mtu : ℕ
  pub kind : ℕ
  pub oper_state : ℕ
  pub flags : Option Flags
  pub addresses : List LinkAddress
  pub sysctls : Option Sysctls

-- A socket by its state and family.
pub record Socket : Type 0 where
  pub state : ℕ
  pub family : ℕ

pub record SocketSummary : Type 0 where
  pub total : ℕ
  pub established : ℕ
  pub syn_sent : ℕ
  pub close_wait : ℕ
  pub fin_wait : ℕ
  pub time_wait : ℕ
  pub retransmitting : ℕ

pub record Capabilities : Type 0 where
  pub internet : Bool
  pub validated : Bool
  pub captive_portal : Bool
  pub not_metered : Bool
  pub partial_connectivity : Bool

pub record AndroidRoute : Type 0 where
  pub destination : Option IpPrefix
  pub is_default : Bool

pub record LinkProperties : Type 0 where
  pub interface_name : String
  pub link_addresses : List IpPrefix
  pub routes : List AndroidRoute
  pub mtu : ℕ
  pub captive_portal_api_url : String

-- A signed number is its bit pattern.
pub record Network : Type 0 where
  pub net_id : ℕ
  pub network_handle : ℕ
  pub is_default : Bool
  pub transports : List ℕ
  pub capabilities : Option Capabilities
  pub link_properties : Option LinkProperties

pub record RouteLookup : Type 0 where
  pub fwmark : ℕ
  pub uid : ℕ
  pub route : Option Route
  pub error : Option String

pub record DiagState : Type 0 where
  pub interfaces : List Interface
  pub rules : List RoutingRule
  pub routes : List Route
  pub sockets : List Socket
  pub socket_summary : SocketSummary
  pub network : Option Network
  pub net_id : ℕ
  pub timeout_ms : ℕ
  pub lookup_v4 : RouteLookup
  pub lookup_v6 : RouteLookup
  pub egress_v4 : Option Interface
  pub egress_v6 : Option Interface

-- `true` is IPv6.
abbrev pub family_code : Bool → ℕ
family_code v6 = if v6 then family_v6 else family_v4

abbrev pub family_label : Bool → String
family_label v6 = if v6 then "IPv6" else "IPv4"

abbrev pub lookup_of : Bool → DiagState → RouteLookup
lookup_of v6 state = if v6 then state.lookup_v6 else state.lookup_v4

abbrev pub bool_text : Bool → String
bool_text b = if b then "true" else "false"

-- `f.up` where there are flags.
abbrev pub is_up : Option Flags → Bool
is_up none = false
is_up (some f) = f.up

abbrev pub table_of : Option Route → Option ℕ
table_of none = none
table_of (some r) = some r.table

-- `Some(t) == table`
abbrev pub is_table : ℕ → Option ℕ → Bool
is_table t none = false
is_table t (some table) = t == table

abbrev pub number_or : String → Option ℕ → String
number_or default none = default
number_or default (some n) = show n

abbrev pub names_of : List Interface → List String
names_of ifaces = map (λ i. i.name) ifaces

abbrev pub default_hop : NextHop
default_hop = record {
  gateway = none;
  out_interface_index = 0;
  out_interface_name = "";
  weight = 0;
  flags = 0;
}

-- `route.next_hops.first().cloned().unwrap_or_default()`
abbrev pub hop_or_default : Option NextHop → NextHop
hop_or_default none = default_hop
hop_or_default (some hop) = hop

abbrev pub gateway_text : (List ℕ → String) → Option (List ℕ) → String
gateway_text ip_text none = "on-link"
gateway_text ip_text (some g) = display ip_text g

abbrev pub first_hop : Route → NextHop
first_hop r = hop_or_default (first r.next_hops)

-- The text of a signed number, from its bit pattern.
abbrev pub signed_text : ℕ → ℕ → String
signed_text bits n =
    if ltb n (2 ^ (bits - 1)) then show n else concat ("-" ∷ show (2 ^ bits - n) ∷ [])

-- Whether `IpPrefix::ip` is an address of the family.
abbrev pub address_is : Bool → Option (List ℕ) → Bool
address_is v6 none = false
address_is v6 (some addr) = length addr == (if v6 then 16 else 4)

abbrev pub prefix_is : Bool → Option IpPrefix → Bool
prefix_is v6 none = false
prefix_is v6 (some p) = address_is v6 p.address
