-- ===== src/Capture/Fields.antt =====
-- daemon/src/capture.rs: what the filter and the header of the capture file promise.
use netdiag.Prelude.{
  ℕ, ◌+◌, ◌*◌, ◌≡◌, refl, Bool, ◌||◌, List, [], ◌∷◌, arith, length, drop, any, contains, IsU32,
}
use netdiag.Capture.Model.{LinkType, link_type_code, PacketSummary, CaptureFilter}
use netdiag.Capture.Filter.{is_address, passes}
use netdiag.Capture.File.{pcap_header}

-- The packet of the other direction.
abbrev pub reversed : PacketSummary → PacketSummary
reversed s = record s {
  source = s.destination;
  destination = s.source;
  source_port = s.destination_port;
  destination_port = s.source_port;
}

||-comm : (a b : Bool) → (a || b) ≡ (b || a)
||-comm a b = ground arith

any-reversed :
    (s : PacketSummary) (hosts : List (List ℕ))
    → any (λ h. is_address h s.destination || is_address h s.source) hosts
      ≡ any (λ h. is_address h s.source || is_address h s.destination) hosts
any-reversed s [] = refl
any-reversed s (h ∷ hosts) =
    rw (||-comm (is_address h s.destination) (is_address h s.source), any-reversed s hosts) refl

-- A filter takes both directions of a conversation or neither: no constraint tells the source of a
-- packet from its destination.
pub passes-reversed : (s : PacketSummary) (f : CaptureFilter) → passes (reversed s) f ≡ passes s f
unfolding passes
passes-reversed s f =
    rw
      (
        any-reversed s f.hosts,
        ||-comm (contains f.ports s.destination_port) (contains f.ports s.source_port),
      )
      refl

-- `u16::from_le_bytes` and `u32::from_le_bytes` of the bytes at an index
abbrev pub u16_le_at : List ℕ → ℕ → ℕ
u16_le_at bs i = elim (drop i bs) [ a ∷ b ∷ _ ↦ a + b * 256 | _ ↦ 0 ]

abbrev pub u32_le_at : List ℕ → ℕ → ℕ
u32_le_at bs i = u16_le_at bs i + u16_le_at bs (i + 2) * 65536

-- The header of a capture file has 24 bytes, and these fields in little-endian order: the magic number,
-- version 2.4, no time zone, no accuracy, the longest packet and the link type.
pub pcap_header_fields :
    (link_type : LinkType) (snaplen : ℕ)
    → IsU32 snaplen
    → (length (pcap_header link_type snaplen) ≡ 24)
      × (u32_le_at (pcap_header link_type snaplen) 0 ≡ 0xa1b2c3d4)
      × (u16_le_at (pcap_header link_type snaplen) 4 ≡ 2)
      × (u16_le_at (pcap_header link_type snaplen) 6 ≡ 4)
      × (u32_le_at (pcap_header link_type snaplen) 8 ≡ 0)
      × (u32_le_at (pcap_header link_type snaplen) 12 ≡ 0)
      × (u32_le_at (pcap_header link_type snaplen) 16 ≡ snaplen)
      × (u32_le_at (pcap_header link_type snaplen) 20 ≡ link_type_code link_type)
unfolding pcap_header
pcap_header_fields link_type snaplen h =
    (refl, refl, refl, refl, refl, refl, omega arith, code_fits link_type)
  where
    code_fits : (l : LinkType) → u32_le_at (pcap_header l snaplen) 20 ≡ link_type_code l
    code_fits LinkType.unspecified = refl
    code_fits LinkType.ethernet = refl
    code_fits LinkType.raw = refl
    code_fits LinkType.linux_sll = refl
    code_fits LinkType.linux_sll2 = refl
