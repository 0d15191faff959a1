-- ===== src/Routes/Model.antt =====
-- The messages of proto/netdiag/v1/route.proto that daemon/src/collect/routes.rs fills, and the netlink
-- messages that it reads, with the attributes that it looks at; `other` is any further one. Enums
-- that arrive as one type and leave as another keep the constructors of the source.
use netdiag.Prelude.{ℕ, String, Bool, true, false, Option, some, List}

-- `std::net::IpAddr` by its octets.
pub data IpAddr : Type 0 where
  v4 v6 : List ℕ → IpAddr

abbrev pub octets : IpAddr → List ℕ
octets (IpAddr.v4 bytes) = bytes
octets (IpAddr.v6 bytes) = bytes

abbrev pub is_ipv6 : IpAddr → Bool
is_ipv6 (IpAddr.v4 bytes) = false
is_ipv6 (IpAddr.v6 bytes) = true

-- `IpFamily::Unspecified`; the other two are those of Capture.Model.
abbrev pub family_unspecified : ℕ
family_unspecified = 0

pub data AddressFamily : Type 0 where
  inet inet6 other : AddressFamily

-- `IpPrefix`: the bytes of the address, where there is one.
pub record IpPrefix : Type 0 where
  pub address : Option (List ℕ)
  pub prefix_len : ℕ

-- `IpPrefix::new`
abbrev pub new_prefix : IpAddr → ℕ → IpPrefix
new_prefix ip len = record { address = some (octets ip); prefix_len = len }

pub record NextHop : Type 0 where
  pub gateway : Option (List ℕ)
  pub out_interface_index : ℕ
  pub out_interface_name : String
  pub weight : ℕ
  pub flags : ℕ

pub record RouteMetrics : Type 0 where
  pub mtu : ℕ
  pub mtu_locked : Bool
  pub advmss : ℕ
  pub window : ℕ
  pub hoplimit : ℕ
  pub initcwnd : ℕ
  pub initrwnd : ℕ
  pub rtt_ms : ℕ

pub record Route : Type 0 where
  pub family : ℕ
  pub destination : Option IpPrefix
  pub preferred_source : Option (List ℕ)
  pub table : ℕ
  pub table_name : String
  pub protocol : ℕ
  pub protocol_raw : ℕ
  pub scope : ℕ
  pub kind : ℕ
  pub priority : ℕ
  pub next_hops : List NextHop
  pub metrics : Option RouteMetrics
  pub flags : ℕ
  pub expires_sec : ℕ
  pub is_default : Bool

pub record RoutingRule : Type 0 where
  pub family : ℕ
  pub priority : ℕ
  pub source : Option IpPrefix
  pub destination : Option IpPrefix
  pub input_interface : String
  pub output_interface : String
  pub fwmark : ℕ
  pub fwmask : ℕ
  pub has_fwmark : Bool
  pub uid_range_start : ℕ
  pub uid_range_end : ℕ
  pub has_uid_range : Bool
  pub tos : ℕ
  pub table : ℕ
  pub table_name : String
  pub action : ℕ
  pub suppress_prefix_len : ℕ
  pub has_suppress_prefix_len : Bool
  pub suppress_interface_group : ℕ
  pub has_suppress_interface_group : Bool
  pub invert : Bool
  pub protocol : ℕ

-- What arrives from the kernel.
pub data RouteAddress : Type 0 where
  inet inet6 : List ℕ → RouteAddress
  other : RouteAddress

pub data RouteMetric : Type 0 where
  mtu lock advmss window hoplimit init_cwnd init_rwnd rtt : ℕ → RouteMetric
  other : RouteMetric

-- A hop of RTA_MULTIPATH; `gateways` are its gateway attributes, in order.
pub record Hop : Type 0 where
  pub interface_index : ℕ
  pub hops : ℕ
  pub flags : ℕ
  pub gateways : List RouteAddress

-- `cache_info` by its field `expires`.
pub data RouteAttribute : Type 0 where
  table oif priority expires cache_info : ℕ → RouteAttribute
  destination pref_source gateway : RouteAddress → RouteAttribute
  metrics : List RouteMetric → RouteAttribute
  multi_path : List Hop → RouteAttribute
  other : RouteAttribute

pub data Protocol : Type 0 where
  unspec icmp_redirect kernel boot static_ ra dhcp other : Protocol

pub data Scope : Type 0 where
  universe site link host nowhere other : Scope

pub data RouteType : Type 0 where
  unicast local broadcast anycast multicast blackhole unreachable prohibit throw nat other :
      RouteType

-- `protocol_number` is the byte that `protocol` stands for.
pub record RouteMessage : Type 0 where
  pub address_family : AddressFamily
  pub destination_prefix_length : ℕ
  pub table : ℕ
  pub protocol : Protocol
  pub protocol_number : ℕ
  pub scope : Scope
  pub kind : RouteType
  pub flags : ℕ
  pub attributes : List RouteAttribute

pub data RuleAction : Type 0 where
  to_table goto nop blackhole unreachable prohibit other : RuleAction

pub data RuleAttribute : Type 0 where
  priority table fw_mark fw_mask suppress_prefix_len suppress_if_group protocol goto :
      ℕ → RuleAttribute
  iifname oifname : String → RuleAttribute
  source destination : IpAddr → RuleAttribute
  uid_range : ℕ → ℕ → RuleAttribute
  other : RuleAttribute

-- `invert` is the flag `RuleFlags::Invert`.
pub record RuleMessage : Type 0 where
  pub family : AddressFamily
  pub src_len : ℕ
  pub dst_len : ℕ
  pub tos : ℕ
  pub table : ℕ
  pub action : RuleAction
  pub invert : Bool
  pub attributes : List RuleAttribute
