-- ===== src/Dns/Nat64.antt =====
-- daemon/src/probe/dns.rs: `extract_nat64_prefix`. An address is its 16 octets.
use netdiag.Prelude.{
  ℕ, zero, suc, ◌+◌, ◌/◌, Bool, ◌&&◌, Option, none, some, List, [], ◌∷◌, ltb, ◌==◌, ◌!=◌,
  if◌then◌else◌, length, drop, any,
}
use netdiag.Neigh.Table.{same_bytes}

-- RFC 7050's well-known IPv4 addresses.
abbrev pub wka : List (List ℕ)
wka = (192 ∷ 0 ∷ 0 ∷ 170 ∷ []) ∷ (192 ∷ 0 ∷ 0 ∷ 171 ∷ []) ∷ []

-- The offsets and prefix lengths that are tried, in order.
abbrev pub layouts : List (ℕ × ℕ)
layouts = (4, 32) ∷ (5, 40) ∷ (6, 48) ∷ (8, 56) ∷ (9, 64) ∷ (12, 96) ∷ []

-- The loop that fills the candidate: `octets` are those from `idx` on, and `missing` is `4 - filled`.
unfoldable pub fill : ℕ → ℕ → ℕ → List ℕ → List ℕ
fill prefix_len idx zero octets = []
fill prefix_len idx (suc missing) [] = []
fill prefix_len idx (suc missing) (octet ∷ octets) =
    let skipped = fill prefix_len (idx + 1) (suc missing) octets in
    let filled = fill prefix_len (idx + 1) missing octets in
    if idx == 8 && ltb prefix_len 96 && prefix_len != 32 then skipped else octet ∷ filled

-- The bytes from `n` on become zero.
unfoldable pub zero_after : ℕ → List ℕ → List ℕ
zero_after n [] = []
zero_after zero (octet ∷ octets) = 0 ∷ zero_after zero octets
zero_after (suc n) (octet ∷ octets) = octet ∷ zero_after n octets

unfoldable pub is_wka : List ℕ → Bool
unfolding same_bytes
is_wka candidate = any (same_bytes candidate) wka

unfoldable pub try_layouts : List ℕ → List (ℕ × ℕ) → Option (List ℕ × ℕ)
unfolding fill zero_after is_wka
try_layouts octets [] = none
try_layouts octets ((offset, prefix_len) ∷ rest) =
    let candidate = fill prefix_len offset 4 (drop offset octets) in
    let later = try_layouts octets rest in
    if ltb (length candidate) 4
    then later
    else if is_wka candidate
    then some (zero_after (prefix_len / 8) octets, prefix_len)
    else later

unfoldable pub extract_nat64_prefix : List ℕ → Option (List ℕ × ℕ)
unfolding try_layouts
extract_nat64_prefix octets = try_layouts octets layouts
