-- ===== src/Capture/Total.antt =====
-- daemon/src/capture.rs: the decoder reads no byte past the end of a packet.
use netdiag.Prelude.{
  ℕ, ◌*◌, ◌/◌, ◌≤◌, String, ◌≡◌, Bool, true, false, ◌&&◌, ◌||◌, some, List, arith, ltb, leb, ◌==◌,
  low_bits, length, is_empty, length-pos,
}
use netdiag.Capture.Model.{LinkType, PacketSummary}
use netdiag.Capture.Layers.{
  decode_tcp, decode_udp, decode_icmp, decode_l4, decode_v4_body, decode_v4, decode_v6, carries_mtu,
  next_hop_mtu,
}
use netdiag.Capture.Decode.{
  Payload, by_ethertype, ethernet_payload, payload_of, by_version, decode_version, decode_ip,
  decode_payload, decode,
}
use netdiag.Prelude.Reads.{
  Succeeds, some-Succeeds, >>=-Succeeds, if-Succeeds, get_elem?-Succeeds, slice_from-Succeeds,
  slice-Succeeds, u16_at-Succeeds, u32_at-Succeeds, long_enough,
}

decode_tcp-Succeeds : (bs : List ℕ) (s : PacketSummary) → Succeeds (decode_tcp bs s)
unfolding decode_tcp
decode_tcp-Succeeds bs s =
    if-Succeeds (ltb (length bs) 20) _ _ (λ e. some-Succeeds s)
      (λ e.
        let long = long_enough (length bs) 20 e in
        >>=-Succeeds _ _ (u16_at-Succeeds bs 0 (omega arith)) (λ a.
          >>=-Succeeds _ _ (u16_at-Succeeds bs 2 (omega arith)) (λ b.
            >>=-Succeeds _ _ (u32_at-Succeeds bs 4 (omega arith)) (λ c.
              >>=-Succeeds _ _ (get_elem?-Succeeds bs 13 (omega arith)) (λ d.
                >>=-Succeeds _ _ (u16_at-Succeeds bs 14 (omega arith)) (λ w. some-Succeeds _))))))

decode_udp-Succeeds : (bs : List ℕ) (s : PacketSummary) → Succeeds (decode_udp bs s)
unfolding decode_udp
decode_udp-Succeeds bs s =
    if-Succeeds (ltb (length bs) 8) _ _ (λ e. some-Succeeds s)
      (λ e.
        let long = long_enough (length bs) 8 e in
        >>=-Succeeds _ _ (u16_at-Succeeds bs 0 (omega arith))
          (λ a. >>=-Succeeds _ _ (u16_at-Succeeds bs 2 (omega arith)) (λ b. some-Succeeds _)))

next_hop_mtu-Succeeds : (v6 : Bool) (bs : List ℕ) → 8 ≤ length bs → Succeeds (next_hop_mtu v6 bs)
next_hop_mtu-Succeeds true bs h = u32_at-Succeeds bs 4 (omega arith)
next_hop_mtu-Succeeds false bs h = u16_at-Succeeds bs 6 (omega arith)

decode_icmp-Succeeds :
    (v6 : Bool) (bs : List ℕ) (s : PacketSummary) → Succeeds (decode_icmp v6 bs s)
unfolding decode_icmp
decode_icmp-Succeeds v6 bs s =
    if-Succeeds (ltb (length bs) 8) _ _ (λ e. some-Succeeds s)
      (λ e.
        let long = long_enough (length bs) 8 e in
        >>=-Succeeds _ _ (get_elem?-Succeeds bs 0 (omega arith)) (λ kind.
          >>=-Succeeds _ _ (get_elem?-Succeeds bs 1 (omega arith)) (λ code.
            >>=-Succeeds _ _
              (if-Succeeds (carries_mtu v6 kind code) _ _ (λ e. next_hop_mtu-Succeeds v6 bs long)
                (λ e. some-Succeeds s.icmp_mtu))
              (λ mtu. some-Succeeds _))))

decode_l4-Succeeds :
    (bs : List ℕ) (protocol : ℕ) (s : PacketSummary) (v6 : Bool)
    → Succeeds (decode_l4 bs protocol s v6)
unfolding decode_l4
decode_l4-Succeeds bs protocol s v6 =
    if-Succeeds (protocol == 6) _ _ (λ e. decode_tcp-Succeeds bs _)
      (λ e.
        if-Succeeds (protocol == 17) _ _ (λ e. decode_udp-Succeeds bs _)
          (λ e.
            if-Succeeds (protocol == 1 || protocol == 58) _ _ (λ e. decode_icmp-Succeeds v6 bs _)
              (λ e. some-Succeeds _)))

decode_v4_body-Succeeds :
    (ip : List ℕ) (ihl : ℕ) (s : PacketSummary)
    → 20 ≤ length ip
    → ihl ≤ length ip
    → Succeeds (decode_v4_body ip ihl s)
unfolding decode_v4_body
decode_v4_body-Succeeds ip ihl s long header =
    >>=-Succeeds _ _ (get_elem?-Succeeds ip 8 (omega arith)) (λ ttl.
      >>=-Succeeds _ _ (get_elem?-Succeeds ip 9 (omega arith)) (λ protocol.
        >>=-Succeeds _ _ (slice-Succeeds ip 12 16 (omega arith) (omega arith)) (λ source.
          >>=-Succeeds _ _ (slice-Succeeds ip 16 20 (omega arith) (omega arith)) (λ destination.
            >>=-Succeeds _ _ (slice_from-Succeeds ip ihl header)
              (λ payload. decode_l4-Succeeds payload protocol _ false)))))

decode_v4-Succeeds : (ip : List ℕ) (s : PacketSummary) → Succeeds (decode_v4 ip s)
unfolding decode_v4
decode_v4-Succeeds ip s =
    if-Succeeds (ltb (length ip) 20) _ _ (λ e. some-Succeeds s)
      (λ e.
        let long = long_enough (length ip) 20 e in
        >>=-Succeeds _ _ (get_elem?-Succeeds ip 0 (omega arith)) (λ first_byte.
          if-Succeeds (ltb (length ip) (low_bits first_byte 4 * 4)) _ _ (λ e. some-Succeeds s)
            (λ e.
              decode_v4_body-Succeeds ip (low_bits first_byte 4 * 4) s long
                (long_enough (length ip) (low_bits first_byte 4 * 4) e))))

decode_v6-Succeeds : (ip : List ℕ) (s : PacketSummary) → Succeeds (decode_v6 ip s)
unfolding decode_v6
decode_v6-Succeeds ip s =
    if-Succeeds (ltb (length ip) 40) _ _ (λ e. some-Succeeds s)
      (λ e.
        let long = long_enough (length ip) 40 e in
        >>=-Succeeds _ _ (get_elem?-Succeeds ip 7 (omega arith)) (λ ttl.
          >>=-Succeeds _ _ (get_elem?-Succeeds ip 6 (omega arith)) (λ protocol.
            >>=-Succeeds _ _ (slice-Succeeds ip 8 24 (omega arith) (omega arith)) (λ source.
              >>=-Succeeds _ _ (slice-Succeeds ip 24 40 (omega arith) (omega arith)) (λ destination.
                >>=-Succeeds _ _ (slice_from-Succeeds ip 40 long)
                  (λ payload. decode_l4-Succeeds payload protocol _ true))))))

ethernet_payload-Succeeds : (bytes : List ℕ) → Succeeds (ethernet_payload bytes)
unfolding ethernet_payload by_ethertype
ethernet_payload-Succeeds bytes =
    if-Succeeds (ltb (length bytes) 14) _ _ (λ e. some-Succeeds _)
      (λ e.
        let long = long_enough (length bytes) 14 e in
        >>=-Succeeds _ _ (u16_at-Succeeds bytes 12 (omega arith)) (λ ethertype.
          if-Succeeds (ethertype == 0x0800 || ethertype == 0x86dd) _ _
            (λ e. >>=-Succeeds _ _ (slice_from-Succeeds bytes 14 long) (λ rest. some-Succeeds _))
            (λ e.
              if-Succeeds (ethertype == 0x0806) _ _ (λ e. some-Succeeds _)
                (λ e.
                  if-Succeeds (ethertype == 0x8100 && leb 18 (length bytes)) _ _
                    (λ e.
                      >>=-Succeeds _ _ (slice_from-Succeeds bytes 18 (ground arith))
                        (λ rest. some-Succeeds _))
                    (λ e. some-Succeeds _)))))

payload_of-Succeeds :
    (bytes : List ℕ) (link_type : LinkType) → Succeeds (payload_of bytes link_type)
unfolding payload_of
payload_of-Succeeds bytes LinkType.ethernet = ethernet_payload-Succeeds bytes
payload_of-Succeeds bytes LinkType.unspecified = some-Succeeds _
payload_of-Succeeds bytes LinkType.raw = some-Succeeds _
payload_of-Succeeds bytes LinkType.linux_sll = some-Succeeds _
payload_of-Succeeds bytes LinkType.linux_sll2 = some-Succeeds _

decode_version-Succeeds :
    (packet : List ℕ) → is_empty packet ≡ false → Succeeds (decode_version packet)
unfolding decode_version by_version
decode_version-Succeeds packet h =
    >>=-Succeeds _ _ (get_elem?-Succeeds packet 0 (length-pos packet h)) (λ first_byte.
      if-Succeeds (first_byte / 16 == 4) _ _ (λ e. decode_v4-Succeeds packet _)
        (λ e.
          if-Succeeds (first_byte / 16 == 6) _ _ (λ e. decode_v6-Succeeds packet _)
            (λ e. some-Succeeds _)))

module _ (ip_text : List ℕ → String) where
  decode_ip-Succeeds : (packet : List ℕ) → Succeeds (decode_ip ip_text packet)
  unfolding decode_ip
  decode_ip-Succeeds packet =
      if-Succeeds (is_empty packet) _ _ (λ e. some-Succeeds _)
        (λ e. >>=-Succeeds _ _ (decode_version-Succeeds packet e) (λ s. some-Succeeds _))

  decode_payload-Succeeds : (payload : Payload) → Succeeds (decode_payload ip_text payload)
  decode_payload-Succeeds (Payload.ip packet) = decode_ip-Succeeds packet
  decode_payload-Succeeds (Payload.other s) = some-Succeeds s

  -- Every sequence of bytes, of every link type, has a summary: no index or slice is out of range.
  pub decode_total :
      (bytes : List ℕ) (link_type : LinkType)
      → (summary : PacketSummary) × (decode ip_text bytes link_type ≡ some summary)
  unfolding decode
  decode_total bytes link_type =
      >>=-Succeeds _ _ (payload_of-Succeeds bytes link_type) decode_payload-Succeeds
