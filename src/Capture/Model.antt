-- ===== src/Capture/Model.antt =====
-- proto/netdiag/v1/capture.proto: the messages that daemon/src/capture.rs fills.
use netdiag.Prelude.{ℕ, String, Bool, false, Option, none, List}

pub data LinkType : Type 0 where
  unspecified ethernet raw linux_sll linux_sll2 : LinkType

abbrev pub link_type_code : LinkType → ℕ
link_type_code LinkType.unspecified = 0
link_type_code LinkType.ethernet = 1
link_type_code LinkType.raw = 101
link_type_code LinkType.linux_sll = 113
link_type_code LinkType.linux_sll2 = 276

-- `IpFamily::V4` and `IpFamily::V6`
abbrev pub family_v4 : ℕ
family_v4 = 1

abbrev pub family_v6 : ℕ
family_v6 = 2

-- An address is its bytes.
pub record PacketSummary : Type 0 where
  pub family : ℕ
  pub source : Option (List ℕ)
  pub destination : Option (List ℕ)
  pub source_port : ℕ
  pub destination_port : ℕ
  pub ip_protocol : ℕ
  pub protocol_name : String
  pub ttl : ℕ
  pub syn : Bool
  pub ack : Bool
  pub fin : Bool
  pub rst : Bool
  pub psh : Bool
  pub tcp_seq : ℕ
  pub tcp_window : ℕ
  pub icmp_type : ℕ
  pub icmp_code : ℕ
  pub icmp_mtu : ℕ
  pub description : String

-- `PacketSummary::default()`
abbrev pub default_summary : PacketSummary
default_summary = record {
  family = 0;
  source = none;
  destination = none;
  source_port = 0;
  destination_port = 0;
  ip_protocol = 0;
  protocol_name = "";
  ttl = 0;
  syn = false;
  ack = false;
  fin = false;
  rst = false;
  psh = false;
  tcp_seq = 0;
  tcp_window = 0;
  icmp_type = 0;
  icmp_code = 0;
  icmp_mtu = 0;
  description = "";
}

pub record CaptureFilter : Type 0 where
  pub hosts : List (List ℕ)
  pub ports : List ℕ
  pub families : List ℕ
  pub tcp : Bool
  pub udp : Bool
  pub icmp : Bool
  pub arp : Bool
