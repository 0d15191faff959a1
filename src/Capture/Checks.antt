-- ===== src/Capture/Checks.antt =====
-- Concrete packets, and the theorems at them.
use netdiag.Prelude.{
  ℕ, String, ◌≡◌, refl, true, false, some, List, [], ◌∷◌, ◌++◌, map, arith, length, replicate,
  concat, join, show,
}
use netdiag.Capture.Model.{LinkType, PacketSummary, CaptureFilter, default_summary}
use netdiag.Capture.Decode.{decode}
use netdiag.Capture.Filter.{passes}
use netdiag.Capture.Total.{decode_total}
use netdiag.Capture.Links.{decode-vlan}

abbrev dotted : List ℕ → String
dotted addr = join "." (map show addr)

-- IPv4 TCP SYN from 192.168.1.10:1234 to 1.1.1.1:443.
abbrev v4_tcp_syn : List ℕ
v4_tcp_syn =
    0x45 ∷ 0 ∷ 0 ∷ 0 ∷ 0 ∷ 0 ∷ 0 ∷ 0 ∷ 64 ∷ 6 ∷ 0 ∷ 0 ∷ 192 ∷ 168 ∷ 1 ∷ 10 ∷ 1 ∷ 1 ∷ 1 ∷ 1 ∷ 4 ∷ 210
    ∷ 1 ∷ 187 ∷ 0 ∷ 0 ∷ 0 ∷ 1 ∷ 0 ∷ 0 ∷ 0 ∷ 0 ∷ 0x50 ∷ 2 ∷ 255 ∷ 255 ∷ 0 ∷ 0 ∷ 0 ∷ 0 ∷ []

abbrev syn_summary : PacketSummary
syn_summary = record default_summary {
  family = 1;
  source = some (192 ∷ 168 ∷ 1 ∷ 10 ∷ []);
  destination = some (1 ∷ 1 ∷ 1 ∷ 1 ∷ []);
  source_port = 1234;
  destination_port = 443;
  ip_protocol = 6;
  protocol_name = "TCP";
  ttl = 64;
  syn = true;
  tcp_seq = 1;
  tcp_window = 65535;
  description = "TCP 192.168.1.10:1234 -> 1.1.1.1:443 [SYN]";
}

decoded_syn : decode dotted v4_tcp_syn LinkType.raw ≡ some syn_summary
unfolding decode netdiag.Capture.Decode.payload_of netdiag.Capture.Decode.decode_ip
    netdiag.Capture.Decode.decode_version netdiag.Capture.Decode.by_version
    netdiag.Capture.Layers.decode_v4 netdiag.Capture.Layers.decode_v4_body
    netdiag.Capture.Layers.decode_l4 netdiag.Capture.Layers.decode_tcp netdiag.Prelude.Slices.u16_at
    netdiag.Prelude.Slices.u32_at netdiag.Capture.Shown.describe concat join show
decoded_syn = refl

too_short : decode dotted (0x45 ∷ 0 ∷ []) LinkType.raw ≡ some default_summary
unfolding decode netdiag.Capture.Decode.payload_of netdiag.Capture.Decode.decode_ip
    netdiag.Capture.Decode.decode_version netdiag.Capture.Decode.by_version
    netdiag.Capture.Layers.decode_v4 netdiag.Capture.Shown.describe
too_short = refl

abbrev macs : List ℕ
macs = replicate 12 2

abbrev only_host : CaptureFilter
only_host = record {
  hosts = (1 ∷ 1 ∷ 1 ∷ 1 ∷ []) ∷ [];
  ports = 443 ∷ [];
  families = [];
  tcp = true;
  udp = false;
  icmp = false;
  arp = false;
}

host_passes : passes syn_summary only_host ≡ true
unfolding passes
host_passes = refl

-- An ARP frame behind a VLAN tag is read as an IP packet.
tagged_arp :
    decode dotted (macs ++ 0x81 ∷ 0 ∷ 0 ∷ 5 ∷ 8 ∷ 6 ∷ v4_tcp_syn) LinkType.ethernet
    ≡ some syn_summary
unfolding decode netdiag.Capture.Decode.payload_of netdiag.Capture.Decode.ethernet_payload
    netdiag.Prelude.Slices.u16_at netdiag.Capture.Decode.by_ethertype
    netdiag.Capture.Decode.decode_ip netdiag.Capture.Decode.decode_version
    netdiag.Capture.Decode.by_version netdiag.Capture.Layers.decode_v4
    netdiag.Capture.Layers.decode_v4_body netdiag.Capture.Layers.decode_l4
    netdiag.Capture.Layers.decode_tcp netdiag.Prelude.Slices.u32_at netdiag.Capture.Shown.describe
    concat join show
tagged_arp = refl

decode_total_example :
    (summary : PacketSummary) × (decode dotted v4_tcp_syn LinkType.raw ≡ some summary)
decode_total_example = decode_total dotted v4_tcp_syn LinkType.raw

decode-vlan_example :
    decode dotted (macs ++ 0x81 ∷ 0 ∷ 0 ∷ 5 ∷ 8 ∷ 0 ∷ v4_tcp_syn) LinkType.ethernet
    ≡ decode dotted v4_tcp_syn LinkType.raw
decode-vlan_example = decode-vlan dotted macs refl v4_tcp_syn 0 5 8 0
