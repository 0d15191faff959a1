-- ===== src/Correlate/Model.antt =====
-- The messages of proto/netdiag/v1 that daemon/src/correlate.rs reads, with the fields that it reads.
-- An `i32` is its bit pattern, a number below 2 ^ 32.
use netdiag.Prelude.{ℕ, ◌+◌, ◌%◌, ◌^◌, String, Bool, Option, List, leb}

-- a <= b on the i32s of these bit patterns
abbrev pub i32_le : ℕ → ℕ → Bool
i32_le a b = leb ((a + 2 ^ 31) % 2 ^ 32) ((b + 2 ^ 31) % 2 ^ 32)

pub record RoutingRule : Type 0 where
  pub priority : ℕ
  pub has_fwmark : Bool
  pub has_uid_range : Bool
  pub uid_range_start : ℕ
  pub uid_range_end : ℕ
  pub invert : Bool
  pub table : ℕ

pub record NextHop : Type 0 where
  pub out_interface_index : ℕ
  pub out_interface_name : String

pub record Route : Type 0 where
  pub table : ℕ
  pub next_hops : List NextHop

pub record RouteLookup : Type 0 where
  pub route : Option Route

-- `flags` is the field `up` of the flags.
pub record Interface : Type 0 where
  pub index : ℕ
  pub name : String
  pub kind : ℕ
  pub flags : Option Bool

pub record UidRange : Type 0 where
  pub start : ℕ
  pub stop : ℕ

-- `capabilities` is the field `vpn_uid_ranges` of the capabilities.
pub record AndroidNetwork : Type 0 where
  pub net_id : ℕ
  pub is_default : Bool
  pub transports : List ℕ
  pub capabilities : Option (List UidRange)

pub record Socket : Type 0 where
  pub has_mark : Bool
  pub net_id : ℕ

pub record SocketSummary : Type 0 where
  pub total : ℕ
  pub established : ℕ
  pub syn_sent : ℕ

pub record AppRef : Type 0 where
  pub package_name : String
  pub uid : ℕ

pub record VpnAssessment : Type 0 where
  pub vpn_present : Bool
  pub vpn_interface : String
  pub vpn_net_id : ℕ
  pub app_uses_vpn : Bool
  pub app_bypasses_vpn : Bool
  pub bypass_reason : String
  pub framework_says_in_vpn : Bool
  pub disagreement : Bool
  pub split_tunnel : Bool
  pub ipv6_inside_vpn : Bool

-- `LinkKind::VpnTun` and `Transport::Vpn`
abbrev pub vpn_tun : ℕ
vpn_tun = 5

abbrev pub transport_vpn : ℕ
transport_vpn = 5
