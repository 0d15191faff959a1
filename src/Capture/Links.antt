-- ===== src/Capture/Links.antt =====
-- daemon/src/capture.rs: what a link type has to do with the IP packet that is decoded.
use netdiag.Prelude.{
  ℕ, zero, suc, ◌+◌, ◌≤◌, String, ◌≡◌, refl, ap, ◌∙◌, inl, inr, true, ◌||◌, some, List, [], ◌∷◌,
  ◌++◌, arith, ltb, leb, ◌==◌, Bool-cases, length, get_elem?, drop, length-append, u16_be,
}
use netdiag.Prelude.Slices.{slice_from, u16_at}
use netdiag.Capture.Model.{LinkType}
use netdiag.Capture.Decode.{Payload, by_ethertype, ethernet_payload, payload_of, decode}

get_elem?-append :
    (xs ys : List ℕ) (n i : ℕ) → length xs ≡ n → get_elem? (xs ++ ys) (n + i) ≡ get_elem? ys i
get_elem?-append [] ys n i h = let e : n + i ≡ i = omega (arith, h) in ap (get_elem? ys) e
get_elem?-append (x ∷ xs) ys zero i h = cc
get_elem?-append (x ∷ xs) ys (suc n) i h =
    let e : suc n + i ≡ suc (n + i) = omega arith in
    ap (get_elem? (x ∷ xs ++ ys)) e ∙ get_elem?-append xs ys n i (omega arith)

drop-append : (xs ys : List ℕ) (n i : ℕ) → length xs ≡ n → drop (n + i) (xs ++ ys) ≡ drop i ys
drop-append [] ys n i h = let e : n + i ≡ i = omega (arith, h) in ap (λ k. drop k ys) e
drop-append (x ∷ xs) ys zero i h = cc
drop-append (x ∷ xs) ys (suc n) i h =
    let e : suc n + i ≡ suc (n + i) = omega arith in
    ap (λ k. drop k (x ∷ xs ++ ys)) e ∙ drop-append xs ys n i (omega arith)

slice_from-some :
    (bs rest : List ℕ) (i : ℕ) → i ≤ length bs → drop i bs ≡ rest → slice_from bs i ≡ some rest
slice_from-some bs rest i h e = elim (Bool-cases (leb i (length bs))) [
  | inl fits ↦ rw fits (ap some e)
  | inr short ↦ absurd (ground (arith, short))
]

u16_at-some :
    (bs : List ℕ) (i a b : ℕ)
    → get_elem? bs i ≡ some a
    → get_elem? bs (i + 1) ≡ some b
    → u16_at bs i ≡ some (u16_be a b)
unfolding u16_at
u16_at-some bs i a b h k = rw (h, k) refl

-- A frame long enough for its Ethernet header is taken apart by the type that the header has.
ethernet-by_ethertype :
    (bs : List ℕ) (ethertype : ℕ)
    → 14 ≤ length bs
    → u16_at bs 12 ≡ some ethertype
    → ethernet_payload bs ≡ by_ethertype bs ethertype
unfolding ethernet_payload
ethernet-by_ethertype bs ethertype long e = elim (Bool-cases (ltb (length bs) 14)) [
  | inl short ↦ absurd (ground (arith, short))
  | inr fits ↦ rw (fits, e) refl
]

module _ (macs : List ℕ) (six_and_six : length macs ≡ 12) (hi lo : ℕ) (rest : List ℕ) where
  abbrev frame : List ℕ
  frame = macs ++ hi ∷ lo ∷ rest

  frame-length : length frame ≡ 14 + length rest
  frame-length = omega (arith, length-append macs (hi ∷ lo ∷ rest))

  frame-payload : ethernet_payload frame ≡ by_ethertype frame (u16_be hi lo)
  frame-payload = ethernet-by_ethertype frame (u16_be hi lo) (omega (arith, frame-length)) (
      u16_at-some frame 12 hi lo (get_elem?-append macs (hi ∷ lo ∷ rest) 12 0 six_and_six)
        (get_elem?-append macs (hi ∷ lo ∷ rest) 12 1 six_and_six))

  plain_payload :
      (u16_be hi lo == 0x0800 || u16_be hi lo == 0x86dd) ≡ true
      → ethernet_payload frame ≡ some (Payload.ip rest)
  unfolding by_ethertype
  plain_payload e =
      frame-payload
      ∙ rw
          (
            e,
            slice_from-some frame rest 14 (omega (arith, frame-length))
                (drop-append macs (hi ∷ lo ∷ rest) 12 2 six_and_six),
          )
          refl

module _ (ip_text : List ℕ → String) (macs : List ℕ) (six_and_six : length macs ≡ 12)
    (packet : List ℕ) where
  -- Behind an Ethernet header of type IPv4 or IPv6, a packet is decoded as it is on a raw link.
  pub decode-ethernet :
      (hi lo : ℕ)
      → (u16_be hi lo == 0x0800 || u16_be hi lo == 0x86dd) ≡ true
      → decode ip_text (macs ++ hi ∷ lo ∷ packet) LinkType.ethernet
        ≡ decode ip_text packet LinkType.raw
  unfolding decode payload_of
  decode-ethernet hi lo e = rw (plain_payload macs six_and_six hi lo packet e) refl

  tagged_payload :
      (a b c d : ℕ)
      → ethernet_payload (macs ++ 0x81 ∷ 0 ∷ a ∷ b ∷ c ∷ d ∷ packet) ≡ some (Payload.ip packet)
  unfolding by_ethertype
  tagged_payload a b c d =
      let rest = a ∷ b ∷ c ∷ d ∷ packet in
      let long : leb 18 (length (macs ++ 0x81 ∷ 0 ∷ rest)) ≡ true =
        ground (arith, frame-length macs six_and_six 0x81 0 rest) in
      frame-payload macs six_and_six 0x81 0 rest
      ∙ rw (long, drop-append macs (0x81 ∷ 0 ∷ rest) 12 6 six_and_six) refl

  -- Behind a VLAN tag a packet is decoded as it is on a raw link, whatever type the inner header
  -- has.
  pub decode-vlan :
      (a b c d : ℕ)
      → decode ip_text (macs ++ 0x81 ∷ 0 ∷ a ∷ b ∷ c ∷ d ∷ packet) LinkType.ethernet
        ≡ decode ip_text packet LinkType.raw
  unfolding decode payload_of
  decode-vlan a b c d = rw (tagged_payload a b c d) refl
