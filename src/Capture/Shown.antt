-- ===== src/Capture/Shown.antt =====
-- daemon/src/capture.rs: `describe`. `ip_text` is the text that the standard library gives an address of
-- 4 or 16 bytes.
use netdiag.Prelude.{
  ℕ, String, Bool, ◌||◌, Option, none, some, List, [], ◌∷◌, ltb, ◌==◌, if◌then◌else◌, length,
  str_eq, concat, join, show,
}
use text.Mathlib.Text.{starts_with}
use netdiag.Capture.Model.{PacketSummary}

-- `IpAddress::display` of crates/netdiag-ipc/src/proto.rs
abbrev pub display : (List ℕ → String) → List ℕ → String
display ip_text addr = if length addr == 4 || length addr == 16 then ip_text addr else "-"

abbrev pub display_or_default : (List ℕ → String) → Option (List ℕ) → String
display_or_default ip_text none = ""
display_or_default ip_text (some addr) = display ip_text addr

-- The names of the flags that are set, in order.
unfoldable pub flag_names : List (Bool × String) → List String
flag_names [] = []
flag_names ((set, name) ∷ flags) = let rest = flag_names flags in if set then name ∷ rest else rest

unfoldable pub tcp_flags : PacketSummary → String
unfolding flag_names
tcp_flags s = join "," (
    flag_names
      ((s.syn, "SYN") ∷ (s.ack, "ACK") ∷ (s.fin, "FIN") ∷ (s.rst, "RST") ∷ (s.psh, "PSH") ∷ []))

unfoldable pub describe : (List ℕ → String) → PacketSummary → String
unfolding tcp_flags
describe ip_text s =
    let src = display_or_default ip_text s.source in
    let dst = display_or_default ip_text s.destination in
    let name = s.protocol_name in
    let sport = show s.source_port in
    let dport = show s.destination_port in
    if str_eq name "TCP"
    then concat
        ("TCP " ∷ src ∷ ":" ∷ sport ∷ " -> " ∷ dst ∷ ":" ∷ dport ∷ " [" ∷ tcp_flags s ∷ "]" ∷ [])
    else if str_eq name "UDP"
    then concat ("UDP " ∷ src ∷ ":" ∷ sport ∷ " -> " ∷ dst ∷ ":" ∷ dport ∷ [])
    else if starts_with name "ICMP"
    then (if ltb 0 s.icmp_mtu
        then concat (
            name
            ∷ " "
            ∷ src
            ∷ " -> "
            ∷ dst
            ∷ " type "
            ∷ show s.icmp_type
            ∷ " code "
            ∷ show s.icmp_code
            ∷ " next-hop MTU "
            ∷ show s.icmp_mtu
            ∷ [])
        else concat (
            name
            ∷ " "
            ∷ src
            ∷ " -> "
            ∷ dst
            ∷ " type "
            ∷ show s.icmp_type
            ∷ " code "
            ∷ show s.icmp_code
            ∷ []))
    else if str_eq name ""
    then ""
    else concat (name ∷ " " ∷ src ∷ " -> " ∷ dst ∷ [])
