-- ===== src/Icmp/Echo.antt =====
-- daemon/src/probe/icmp.rs: `checksum`, `build_echo` and `matches_reply`.
use netdiag.Prelude.{
  ℕ, zero, suc, ◌+◌, ◌-◌, ◌*◌, ◌/◌, ◌%◌, ◌^◌, Bool, true, false, not, ◌&&◌, Option, none, some,
  List, [], ◌∷◌, ◌++◌, ltb, ◌==◌, ◌!=◌, if◌then◌else◌, low_bits, length, get_elem?, take, drop,
  is_empty, u16_be, be16,
}
use netdiag.Prelude.Slices.{◌>>=◌, slice_from, u16_at}

abbrev pub echo_request : Bool → ℕ
echo_request true = 128
echo_request false = 8

abbrev pub echo_reply : Bool → ℕ
echo_reply true = 129
echo_reply false = 0

-- The loops over the pairs and the remainder: additions of a u32.
unfoldable pub sum_words : List ℕ → ℕ → ℕ
sum_words [] sum = sum
sum_words (last ∷ []) sum = (sum + u16_be last 0) % 2 ^ 32
sum_words (a ∷ b ∷ rest) sum = sum_words rest ((sum + u16_be a b) % 2 ^ 32)

-- `while sum >> 16 != 0`, on fuel.
unfoldable pub fold_carries : ℕ → ℕ → Option ℕ
fold_carries zero sum = none
fold_carries (suc fuel) sum =
    let folded = fold_carries fuel ((sum % 65536 + sum / 65536) % 2 ^ 32) in
    if sum / 65536 != 0 then folded else some sum

-- `!(sum as u16)`
abbrev pub complement : ℕ → ℕ
complement sum = 65535 - sum % 65536

abbrev pub complement_of : Option ℕ → Option ℕ
complement_of none = none
complement_of (some sum) = some (complement sum)

-- A u32 is folded in at most four rounds.
unfoldable pub checksum : List ℕ → Option ℕ
unfolding sum_words fold_carries
checksum bytes = complement_of (fold_carries 4 (sum_words bytes 0))

abbrev pub header : Bool → ℕ → ℕ → List ℕ → List ℕ
header v6 id sequence payload = echo_request v6 ∷ 0 ∷ 0 ∷ 0 ∷ be16 id ++ (be16 sequence ++ payload)

-- `packet[2..4].copy_from_slice(&sum.to_be_bytes())`
abbrev pub fill : List ℕ → Option ℕ → Option (List ℕ)
fill packet none = none
fill packet (some sum) = some (take 2 packet ++ (be16 sum ++ drop 4 packet))

unfoldable pub build_echo : Bool → ℕ → ℕ → List ℕ → Bool → Option (List ℕ)
build_echo v6 id sequence payload fill_checksum =
    let packet = header v6 id sequence payload in
    if fill_checksum && not v6 then fill packet (checksum packet) else some packet

pub data SocketKind : Type 0 where
  datagram raw : SocketKind

unfoldable pub matches_icmp : List ℕ → Bool → ℕ → Option Bool
matches_icmp icmp v6 sequence = if ltb (length icmp) 8 then some false else do
  kind ← get_elem? icmp 0
  answered ← u16_at icmp 6
  some (kind == echo_reply v6 && answered == sequence)

-- Behind an IPv4 header, whose length is in the low bits of its first byte.
unfoldable pub matches_raw : List ℕ → ℕ → Option Bool
matches_raw buf sequence = if is_empty buf then some false else do
  first_byte ← get_elem? buf 0
  let ihl = low_bits first_byte 4 * 4 in
      if ltb (length buf) (ihl + 8)
      then some false
      else (do icmp ← slice_from buf ihl; matches_icmp icmp false sequence)

abbrev pub has_ip_header : Bool → SocketKind → Bool
has_ip_header v6 SocketKind.raw = not v6
has_ip_header v6 SocketKind.datagram = false

unfoldable pub matches_reply : List ℕ → Bool → SocketKind → ℕ → Option Bool
matches_reply buf v6 kind sequence =
    if has_ip_header v6 kind then matches_raw buf sequence else matches_icmp buf v6 sequence
