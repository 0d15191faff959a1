-- ===== src/Routes/Convert.antt =====
-- daemon/src/collect/routes.rs: `route_to_proto` and `rule_to_proto`. The variables that the loops over the
-- attributes assign are the fields of an accumulator, one clause for each arm of the match.
use netdiag.Prelude.{
  ℕ, ◌+◌, bit_and, String, Bool, true, false, ◌&&◌, Option, none, some, List, [], ◌∷◌, ◌++◌, map,
  ◌==◌, ◌!=◌, if◌then◌else◌, is_empty, concat, show,
}
use netdiag.Prelude.Maps
use netdiag.Fwmark.{well_known_table_name}
use netdiag.Capture.Model.{family_v4, family_v6}
use netdiag.Routes.Model.{
  IpAddr, octets, family_unspecified, AddressFamily, IpPrefix, new_prefix, NextHop, RouteMetrics,
  Route, RouteAddress, RouteMetric, Hop, RouteAttribute, Protocol, Scope, RouteType, RouteMessage,
}

abbrev pub Names : Type 0
Names = List (ℕ × String)

-- `if_names.get(&index).cloned().unwrap_or_default()`
abbrev pub name_or : String → Option String → String
name_or default none = default
name_or default (some name) = name

unfoldable pub interface_name : Names → ℕ → String
interface_name names index = name_or "" (Maps.get (λ a b. a == b) names index)

abbrev pub family_to_proto : AddressFamily → ℕ
family_to_proto AddressFamily.inet = family_v4
family_to_proto AddressFamily.inet6 = family_v6
family_to_proto AddressFamily.other = family_unspecified

abbrev pub route_address_to_ip : RouteAddress → Option IpAddr
route_address_to_ip (RouteAddress.inet bytes) = some (IpAddr.v4 bytes)
route_address_to_ip (RouteAddress.inet6 bytes) = some (IpAddr.v6 bytes)
route_address_to_ip RouteAddress.other = none

-- `map(proto::IpAddress::from_ip)`
abbrev pub from_ip : Option IpAddr → Option (List ℕ)
from_ip none = none
from_ip (some ip) = some (octets ip)

unfoldable pub table_name : ℕ → String
table_name table = name_or (concat ("net" ∷ show table ∷ [])) (well_known_table_name table)

abbrev pub route_protocol_to_proto : Protocol → ℕ
route_protocol_to_proto Protocol.icmp_redirect = 1
route_protocol_to_proto Protocol.kernel = 2
route_protocol_to_proto Protocol.boot = 3
route_protocol_to_proto Protocol.static_ = 4
route_protocol_to_proto Protocol.ra = 5
route_protocol_to_proto Protocol.dhcp = 6
route_protocol_to_proto Protocol.unspec = 0
route_protocol_to_proto Protocol.other = 7

abbrev pub route_scope_to_proto : Scope → ℕ
route_scope_to_proto Scope.universe = 1
route_scope_to_proto Scope.site = 2
route_scope_to_proto Scope.link = 3
route_scope_to_proto Scope.host = 4
route_scope_to_proto Scope.nowhere = 5
route_scope_to_proto Scope.other = 0

abbrev pub route_type_to_proto : RouteType → ℕ
route_type_to_proto RouteType.unicast = 1
route_type_to_proto RouteType.local = 2
route_type_to_proto RouteType.broadcast = 3
route_type_to_proto RouteType.anycast = 4
route_type_to_proto RouteType.multicast = 5
route_type_to_proto RouteType.blackhole = 6
route_type_to_proto RouteType.unreachable = 7
route_type_to_proto RouteType.prohibit = 8
route_type_to_proto RouteType.throw = 9
route_type_to_proto RouteType.nat = 10
route_type_to_proto RouteType.other = 0

abbrev pub default_metrics : RouteMetrics
default_metrics = record {
  mtu = 0;
  mtu_locked = false;
  advmss = 0;
  window = 0;
  hoplimit = 0;
  initcwnd = 0;
  initrwnd = 0;
  rtt_ms = 0;
}

-- RTAX_MTU is bit 2 of the lock mask.
abbrev pub set_metric : RouteMetric → RouteMetrics → RouteMetrics
set_metric (RouteMetric.mtu v) m = record m { mtu = v }
set_metric (RouteMetric.lock v) m = record m { mtu_locked = bit_and v 4 != 0 }
set_metric (RouteMetric.advmss v) m = record m { advmss = v }
set_metric (RouteMetric.window v) m = record m { window = v }
set_metric (RouteMetric.hoplimit v) m = record m { hoplimit = v }
set_metric (RouteMetric.init_cwnd v) m = record m { initcwnd = v }
set_metric (RouteMetric.init_rwnd v) m = record m { initrwnd = v }
set_metric (RouteMetric.rtt v) m = record m { rtt_ms = v }
set_metric RouteMetric.other m = m

unfoldable pub set_metrics : List RouteMetric → RouteMetrics → RouteMetrics
set_metrics [] m = m
set_metrics (r ∷ rs) m = set_metrics rs (set_metric r m)

-- The last gateway attribute of a hop.
unfoldable pub last_gateway : List RouteAddress → Option IpAddr → Option IpAddr
last_gateway [] gw = gw
last_gateway (g ∷ gs) gw = last_gateway gs (route_address_to_ip g)

unfoldable pub next_hop : Names → Hop → NextHop
unfolding last_gateway
next_hop names hop = record {
  gateway = from_ip (last_gateway hop.gateways none);
  out_interface_index = hop.interface_index;
  out_interface_name = interface_name names hop.interface_index;
  weight = hop.hops + 1;
  flags = hop.flags;
}

-- The variables of `route_to_proto`.
pub record RouteVariables : Type 0 where
  pub table : ℕ
  pub destination : Option IpAddr
  pub preferred_source : Option IpAddr
  pub gateway : Option IpAddr
  pub oif : ℕ
  pub priority : ℕ
  pub metrics : RouteMetrics
  pub expires : ℕ
  pub multipath : List NextHop

unfoldable pub read_attribute : Names → RouteAttribute → RouteVariables → RouteVariables
unfolding set_metrics next_hop
read_attribute names (RouteAttribute.table t) v = record v { table = t }
read_attribute names (RouteAttribute.destination a) v = record v {
  destination = route_address_to_ip a;
}
read_attribute names (RouteAttribute.pref_source a) v = record v {
  preferred_source = route_address_to_ip a;
}
read_attribute names (RouteAttribute.gateway a) v = record v { gateway = route_address_to_ip a }
read_attribute names (RouteAttribute.oif i) v = record v { oif = i }
read_attribute names (RouteAttribute.priority p) v = record v { priority = p }
read_attribute names (RouteAttribute.expires e) v = record v { expires = e }
read_attribute names (RouteAttribute.cache_info e) v =
    if e != 0 then record v { expires = e } else v
read_attribute names (RouteAttribute.metrics ms) v = record v { metrics = set_metrics ms v.metrics }
read_attribute names (RouteAttribute.multi_path hops) v = record v {
  multipath = v.multipath ++ map (next_hop names) hops;
}
read_attribute names RouteAttribute.other v = v

unfoldable pub read_attributes : Names → List RouteAttribute → RouteVariables → RouteVariables
unfolding read_attribute
read_attributes names [] v = v
read_attributes names (a ∷ rest) v = read_attributes names rest (read_attribute names a v)

abbrev pub start : RouteMessage → RouteVariables
start msg = record {
  table = msg.table;
  destination = none;
  preferred_source = none;
  gateway = none;
  oif = 0;
  priority = 0;
  metrics = default_metrics;
  expires = 0;
  multipath = [];
}

-- A route without RTA_MULTIPATH has one hop.
unfoldable pub hops_of : Names → RouteVariables → List NextHop
hops_of names v =
    let single : NextHop = record {
      gateway = from_ip v.gateway;
      out_interface_index = v.oif;
      out_interface_name = interface_name names v.oif;
      weight = 1;
      flags = 0;
    } in
    if is_empty v.multipath then single ∷ [] else v.multipath

abbrev pub destination_of : Option IpAddr → ℕ → IpPrefix
destination_of none len = record { address = none; prefix_len = len }
destination_of (some ip) len = new_prefix ip len

abbrev pub is_none {ℓ} : {A : Type ℓ} → Option A → Bool
is_none none = true
is_none (some a) = false

unfoldable pub finish_route : Names → RouteMessage → RouteVariables → Route
unfolding hops_of
finish_route names msg v = record {
  family = family_to_proto msg.address_family;
  destination = some (destination_of v.destination msg.destination_prefix_length);
  preferred_source = from_ip v.preferred_source;
  table = v.table;
  table_name = table_name v.table;
  protocol = route_protocol_to_proto msg.protocol;
  protocol_raw = msg.protocol_number;
  scope = route_scope_to_proto msg.scope;
  kind = route_type_to_proto msg.kind;
  priority = v.priority;
  next_hops = hops_of names v;
  metrics = some v.metrics;
  flags = msg.flags;
  expires_sec = v.expires;
  is_default = msg.destination_prefix_length == 0 && is_none v.destination;
}

unfoldable pub route_to_proto : RouteMessage → Names → Route
unfolding read_attributes finish_route
route_to_proto msg names = finish_route names msg (read_attributes names msg.attributes (start msg))
