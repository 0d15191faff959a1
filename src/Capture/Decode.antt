-- ===== src/Capture/Decode.antt =====
-- daemon/src/capture.rs: `decode`. The answer is `none` where the program would panic.
use netdiag.Prelude.{
  ℕ, ◌/◌, String, ◌&&◌, ◌||◌, Option, some, List, ltb, leb, ◌==◌, if◌then◌else◌, length, get_elem?,
  is_empty,
}
use netdiag.Prelude.Slices.{◌>>=◌, slice_from, u16_at}
use netdiag.Capture.Model.{LinkType, PacketSummary, default_summary}
use netdiag.Capture.Layers.{decode_v4, decode_v6}
use netdiag.Capture.Shown.{describe}

-- Where the IP packet begins, or what is shown of a frame that has none.
pub data Payload : Type 0 where
  ip : List ℕ → Payload
  other : PacketSummary → Payload

unfoldable pub by_ethertype : List ℕ → ℕ → Option Payload
by_ethertype bytes ethertype =
    if ethertype == 0x0800 || ethertype == 0x86dd
    then (do rest ← slice_from bytes 14; some (Payload.ip rest))
    else if ethertype == 0x0806
    then some
        (Payload.other (record default_summary { protocol_name = "ARP"; description = "ARP" }))
    else if ethertype == 0x8100 && leb 18 (length bytes)
    then (do rest ← slice_from bytes 18; some (Payload.ip rest))
    else some (Payload.other default_summary)

unfoldable pub ethernet_payload : List ℕ → Option Payload
ethernet_payload bytes =
    if ltb (length bytes) 14
    then some (Payload.other default_summary)
    else do ethertype ← u16_at bytes 12; by_ethertype bytes ethertype

unfoldable pub payload_of : List ℕ → LinkType → Option Payload
payload_of bytes LinkType.ethernet = ethernet_payload bytes
payload_of bytes LinkType.unspecified = some (Payload.ip bytes)
payload_of bytes LinkType.raw = some (Payload.ip bytes)
payload_of bytes LinkType.linux_sll = some (Payload.ip bytes)
payload_of bytes LinkType.linux_sll2 = some (Payload.ip bytes)

unfoldable pub by_version : List ℕ → ℕ → Option PacketSummary
by_version packet version =
    if version == 4
    then decode_v4 packet default_summary
    else if version == 6
    then decode_v6 packet default_summary
    else some default_summary

unfoldable pub decode_version : List ℕ → Option PacketSummary
decode_version packet = do first_byte ← get_elem? packet 0; by_version packet (first_byte / 16)

module _ (ip_text : List ℕ → String) where
  unfoldable pub decode_ip : List ℕ → Option PacketSummary
  decode_ip packet = if is_empty packet then some default_summary else do
    summary ← decode_version packet
    some (record summary { description = describe ip_text summary })

  abbrev pub decode_payload : Payload → Option PacketSummary
  decode_payload (Payload.ip packet) = decode_ip packet
  decode_payload (Payload.other summary) = some summary

  unfoldable pub decode : List ℕ → LinkType → Option PacketSummary
  decode bytes link_type = do payload ← payload_of bytes link_type; decode_payload payload
