-- ===== src/Capture/Layers.antt =====
-- daemon/src/capture.rs: `decode_v4`, `decode_v6` and `decode_l4`.
use netdiag.Prelude.{
  ℕ, ◌*◌, String, Bool, true, false, not, ◌&&◌, ◌||◌, Option, some, List, [], ◌∷◌, ltb, ◌==◌,
  if◌then◌else◌, test_bit, low_bits, length, get_elem?, concat, show,
}
use netdiag.Prelude.Slices.{◌>>=◌, slice_from, slice, u16_at, u32_at}
use netdiag.Capture.Model.{PacketSummary, family_v4, family_v6}

unfoldable pub decode_tcp : List ℕ → PacketSummary → Option PacketSummary
decode_tcp payload summary = if ltb (length payload) 20 then some summary else do
  source_port ← u16_at payload 0
  destination_port ← u16_at payload 2
  tcp_seq ← u32_at payload 4
  flags ← get_elem? payload 13
  tcp_window ← u16_at payload 14
  some (record summary {
    source_port = source_port;
    destination_port = destination_port;
    tcp_seq = tcp_seq;
    fin = test_bit flags 0;
    syn = test_bit flags 1;
    rst = test_bit flags 2;
    psh = test_bit flags 3;
    ack = test_bit flags 4;
    tcp_window = tcp_window;
  })

unfoldable pub decode_udp : List ℕ → PacketSummary → Option PacketSummary
decode_udp payload summary = if ltb (length payload) 8 then some summary else do
  source_port ← u16_at payload 0
  destination_port ← u16_at payload 2
  some (record summary { source_port = source_port; destination_port = destination_port })

abbrev pub carries_mtu : Bool → ℕ → ℕ → Bool
carries_mtu v6 kind code = (not v6 && (kind == 3 && code == 4)) || (v6 && kind == 2)

abbrev pub next_hop_mtu : Bool → List ℕ → Option ℕ
next_hop_mtu true payload = u32_at payload 4
next_hop_mtu false payload = u16_at payload 6

unfoldable pub decode_icmp : Bool → List ℕ → PacketSummary → Option PacketSummary
decode_icmp v6 payload summary = if ltb (length payload) 8 then some summary else do
  kind ← get_elem? payload 0
  code ← get_elem? payload 1
  mtu ← if carries_mtu v6 kind code then next_hop_mtu v6 payload else some summary.icmp_mtu
  some (record summary { icmp_type = kind; icmp_code = code; icmp_mtu = mtu })

abbrev pub icmp_name : Bool → String
icmp_name true = "ICMPv6"
icmp_name false = "ICMP"

unfoldable pub decode_l4 : List ℕ → ℕ → PacketSummary → Bool → Option PacketSummary
decode_l4 payload protocol summary v6 =
    if protocol == 6
    then decode_tcp payload (record summary { protocol_name = "TCP" })
    else if protocol == 17
    then decode_udp payload (record summary { protocol_name = "UDP" })
    else if protocol == 1 || protocol == 58
    then decode_icmp v6 payload (record summary { protocol_name = icmp_name v6 })
    else some (record summary { protocol_name = concat ("IP proto " ∷ show protocol ∷ []) })

unfoldable pub decode_v4_body : List ℕ → ℕ → PacketSummary → Option PacketSummary
decode_v4_body ip ihl summary = do
  ttl ← get_elem? ip 8
  protocol ← get_elem? ip 9
  source ← slice ip 12 16
  destination ← slice ip 16 20
  payload ← slice_from ip ihl
  decode_l4 payload protocol
      (record summary {
        family = family_v4;
        ttl = ttl;
        ip_protocol = protocol;
        source = some source;
        destination = some destination;
      })
      false

unfoldable pub decode_v4 : List ℕ → PacketSummary → Option PacketSummary
decode_v4 ip summary = if ltb (length ip) 20 then some summary else do
  first_byte ← get_elem? ip 0
  let ihl = low_bits first_byte 4 * 4 in
      if ltb (length ip) ihl then some summary else decode_v4_body ip ihl summary

unfoldable pub decode_v6 : List ℕ → PacketSummary → Option PacketSummary
decode_v6 ip summary = if ltb (length ip) 40 then some summary else do
  ttl ← get_elem? ip 7
  protocol ← get_elem? ip 6
  source ← slice ip 8 24
  destination ← slice ip 24 40
  payload ← slice_from ip 40
  decode_l4 payload protocol
      (record summary {
        family = family_v6;
        ttl = ttl;
        ip_protocol = protocol;
        source = some source;
        destination = some destination;
      })
      true
