-- ===== src/Dns/Embed.antt =====
-- Addresses that embed an IPv4 address as RFC 6052 says, and what daemon/src/probe/dns.rs recovers of them.
use netdiag.Prelude.{
  ℕ, ◌-◌, ◌*◌, ◌≡◌, refl, Bool, true, false, none, some, List, [], ◌∷◌, ◌++◌, ◌==◌, if◌then◌else◌,
  length, take, drop, replicate, All,
}
use netdiag.Neigh.Table.{same_bytes}
use netdiag.Dns.Nat64.{fill, zero_after, is_wka, try_layouts, extract_nat64_prefix}

-- RFC 6052, section 2.2: the prefix, the IPv4 address, zeros; octet 8 is zero and belongs to neither, unless the
-- prefix has 96 bits.
unfoldable pub embed : List ℕ → List ℕ → List ℕ
embed prefix address =
    let spread = prefix ++ address ++ replicate (11 - length prefix) 0 in
    if length prefix == 12 then prefix ++ address else take 8 spread ++ 0 ∷ drop 8 spread

-- 192.0.0.170 and 192.0.0.171
abbrev pub well_known : Bool → List ℕ
well_known second = 192 ∷ 0 ∷ 0 ∷ (if second then 171 else 170) ∷ []

abbrev pub IsNot192 : ℕ → Type 0
IsNot192 b = (b == 192) ≡ false

-- The prefix followed by zeros, and its length in bits.
abbrev pub recovered : List ℕ → List ℕ × ℕ
recovered prefix = (prefix ++ replicate (16 - length prefix) 0, 8 * length prefix)

module _ (a b c d e f g h i j k l : ℕ) where
  -- Of an address that embeds a well-known address behind a prefix of 32, 40, 48 or 96 bits, the prefix and its length are
  -- recovered, where none of the octets of the prefix from the fifth on is 192.
  pub extract-embed :
      (second : Bool)
      → All IsNot192 (e ∷ f ∷ g ∷ h ∷ i ∷ j ∷ k ∷ l ∷ [])
      → (extract_nat64_prefix (embed (a ∷ b ∷ c ∷ d ∷ []) (well_known second))
          ≡ some (recovered (a ∷ b ∷ c ∷ d ∷ [])))
        × (extract_nat64_prefix (embed (a ∷ b ∷ c ∷ d ∷ e ∷ []) (well_known second))
            ≡ some (recovered (a ∷ b ∷ c ∷ d ∷ e ∷ [])))
        × (extract_nat64_prefix (embed (a ∷ b ∷ c ∷ d ∷ e ∷ f ∷ []) (well_known second))
            ≡ some (recovered (a ∷ b ∷ c ∷ d ∷ e ∷ f ∷ [])))
        × (extract_nat64_prefix
              (embed (a ∷ b ∷ c ∷ d ∷ e ∷ f ∷ g ∷ h ∷ i ∷ j ∷ k ∷ l ∷ []) (well_known second))
            ≡ some (recovered (a ∷ b ∷ c ∷ d ∷ e ∷ f ∷ g ∷ h ∷ i ∷ j ∷ k ∷ l ∷ [])))
  unfolding extract_nat64_prefix try_layouts embed is_wka same_bytes fill zero_after
  extract-embed true (e_, (f_, (g_, (h_, (i_, (j_, (k_, (l_, end)))))))) =
      (refl, rw e_ refl, rw (e_, f_) refl, rw (e_, f_, g_, j_) refl)
  extract-embed false (e_, (f_, (g_, (h_, (i_, (j_, (k_, (l_, end)))))))) =
      (refl, rw e_ refl, rw (e_, f_) refl, rw (e_, f_, g_, j_) refl)

  -- A prefix of 64 bits is taken for one of 56: its last octet is lost. A prefix of 56 bits is not found.
  pub extract-embed_64 :
      (second : Bool)
      → All IsNot192 (e ∷ f ∷ g ∷ h ∷ [])
      → (extract_nat64_prefix (embed (a ∷ b ∷ c ∷ d ∷ e ∷ f ∷ g ∷ h ∷ []) (well_known second))
          ≡ some (recovered (a ∷ b ∷ c ∷ d ∷ e ∷ f ∷ g ∷ [])))
        × (extract_nat64_prefix (embed (a ∷ b ∷ c ∷ d ∷ e ∷ f ∷ g ∷ []) (well_known second)) ≡ none)
  unfolding extract_nat64_prefix try_layouts embed is_wka same_bytes fill zero_after
  extract-embed_64 true (e_, (f_, (g_, (h_, end)))) = (rw (e_, f_, g_) refl, rw (e_, f_, g_) refl)
  extract-embed_64 false (e_, (f_, (g_, (h_, end)))) = (rw (e_, f_, g_) refl, rw (e_, f_, g_) refl)
