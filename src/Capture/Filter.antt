-- ===== src/Capture/Filter.antt =====
-- daemon/src/capture.rs: `passes`.
use netdiag.Prelude.{
  ℕ, Bool, true, false, not, ◌&&◌, ◌||◌, Option, none, some, List, [], ◌∷◌, ◌==◌, if◌then◌else◌,
  is_empty, any, contains, str_eq,
}
use netdiag.Capture.Model.{PacketSummary, CaptureFilter}

abbrev pub bytes_eq : List ℕ → List ℕ → Bool
bytes_eq [] [] = true
bytes_eq [] (b ∷ bs) = false
bytes_eq (x ∷ xs) [] = false
bytes_eq (x ∷ xs) (b ∷ bs) = x == b && bytes_eq xs bs

-- `Some(&h.addr) == address`
abbrev pub is_address : List ℕ → Option (List ℕ) → Bool
is_address host none = false
is_address host (some addr) = bytes_eq host addr

abbrev pub protocol_selected : CaptureFilter → Bool
protocol_selected f = f.tcp || (f.udp || (f.icmp || f.arp))

abbrev pub protocol_matched : PacketSummary → CaptureFilter → Bool
protocol_matched s f =
    (f.tcp && s.ip_protocol == 6)
    || ((f.udp && s.ip_protocol == 17)
        || ((f.icmp && (s.ip_protocol == 1 || s.ip_protocol == 58))
            || (f.arp && str_eq s.protocol_name "ARP")))

abbrev pub host_matched : PacketSummary → CaptureFilter → Bool
host_matched s f = any (λ h. is_address h s.source || is_address h s.destination) f.hosts

abbrev pub port_matched : PacketSummary → CaptureFilter → Bool
port_matched s f = contains f.ports s.source_port || contains f.ports s.destination_port

unfoldable pub passes : PacketSummary → CaptureFilter → Bool
passes s f =
    if protocol_selected f && not (protocol_matched s f)
    then false
    else if not (is_empty f.families) && not (contains f.families s.family)
    then false
    else if not (is_empty f.hosts) && not (host_matched s f)
    then false
    else if not (is_empty f.ports) && not (port_matched s f)
    then false
    else true
