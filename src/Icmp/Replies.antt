-- ===== src/Icmp/Replies.antt =====
-- daemon/src/probe/icmp.rs: the test for a reply reads no byte out of range, and tells a reply by its
-- sequence number.
use netdiag.Prelude.{
  [], if◌then◌else◌, ℕ, ◌+◌, ◌*◌, ◌≡◌, Bool, false, ◌&&◌, some, List, ◌∷◌, ◌++◌, arith, ltb, ◌==◌,
  low_bits, length, is_empty, length-pos, IsU16, be16,
}
use netdiag.Prelude.Reads.{
  Succeeds, some-Succeeds, >>=-Succeeds, if-Succeeds, get_elem?-Succeeds, slice_from-Succeeds,
  u16_at-Succeeds, long_enough,
}
use netdiag.Icmp.Echo.{SocketKind, matches_icmp, matches_raw, has_ip_header, matches_reply}

matches_icmp-Succeeds :
    (icmp : List ℕ) (v6 : Bool) (sequence : ℕ) → Succeeds (matches_icmp icmp v6 sequence)
unfolding matches_icmp
matches_icmp-Succeeds icmp v6 sequence =
    if-Succeeds (ltb (length icmp) 8) _ _ (λ e. some-Succeeds _)
      (λ e.
        let long = long_enough (length icmp) 8 e in
        >>=-Succeeds _ _ (get_elem?-Succeeds icmp 0 (omega arith)) (λ kind.
          >>=-Succeeds _ _ (u16_at-Succeeds icmp 6 (omega arith)) (λ answered. some-Succeeds _)))

matches_raw-Succeeds : (buf : List ℕ) (sequence : ℕ) → Succeeds (matches_raw buf sequence)
unfolding matches_raw
matches_raw-Succeeds buf sequence =
    if-Succeeds (is_empty buf) _ _ (λ e. some-Succeeds _)
      (λ e. >>=-Succeeds _ _ (get_elem?-Succeeds buf 0 (length-pos buf e)) (λ first_byte.
        let ihl = low_bits first_byte 4 * 4 in
        if-Succeeds (ltb (length buf) (ihl + 8)) _ _ (λ e. some-Succeeds _)
          (λ e.
            >>=-Succeeds _ _
              (slice_from-Succeeds buf ihl (omega (arith, long_enough (length buf) (ihl + 8) e)))
              (λ icmp. matches_icmp-Succeeds icmp false sequence))))

-- The test for a reply answers on every sequence of bytes: no index or slice is out of range.
pub matches_reply_total :
    (buf : List ℕ) (v6 : Bool) (kind : SocketKind) (sequence : ℕ)
    → (answer : Bool) × (matches_reply buf v6 kind sequence ≡ some answer)
unfolding matches_reply
matches_reply_total buf v6 kind sequence =
    if-Succeeds (has_ip_header v6 kind) _ _ (λ e. matches_raw-Succeeds buf sequence)
      (λ e. matches_icmp-Succeeds buf v6 sequence)

-- An ICMP message with this type, code, checksum, identifier, sequence number and payload.
abbrev pub message : ℕ → ℕ → List ℕ → ℕ → ℕ → List ℕ → List ℕ
message kind code sum id answered payload =
    kind ∷ code ∷ sum ++ (be16 id ++ (be16 answered ++ payload))

-- The answer about a message.
abbrev pub is_ours : Bool → ℕ → ℕ → ℕ → Bool
is_ours v6 kind answered sequence = kind == (if v6 then 129 else 0) && answered == sequence

module _ (kind code high low id answered sequence : ℕ) (payload : List ℕ)
    (fits : IsU16 answered) where
  abbrev pub sent : List ℕ
  sent = message kind code (high ∷ low ∷ []) id answered payload
