-- ===== src/Icmp/Checksum.antt =====
-- daemon/src/probe/icmp.rs: a request carries the checksum that makes it verify.
use netdiag.Prelude.{
  ℕ, ◌+◌, ◌-◌, ◌*◌, ◌%◌, ◌^◌, ◌≤◌, ◌<◌, ◌≡◌, refl, ap, ◌∙◌, true, false, some, List, [], ◌∷◌, ◌++◌,
  arith, length, IsBytes, IsU16, u16_be, be16,
}
use netdiag.Icmp.Echo.{sum_words, checksum, header, build_echo}
use netdiag.Icmp.Folding.{root, fold_four, root-bound, root-complement}

-- The sum of the big-endian words, an odd last byte padded with zero.
abbrev pub word_sum : List ℕ → ℕ
word_sum [] = 0
word_sum (last ∷ []) = u16_be last 0
word_sum (a ∷ b ∷ rest) = u16_be a b + word_sum rest

sum_words_lem :
    (bs : List ℕ) (sum : ℕ) → sum + word_sum bs < 2 ^ 32 → sum_words bs sum ≡ sum + word_sum bs
unfolding sum_words
sum_words_lem [] sum h = omega arith
sum_words_lem (last ∷ []) sum h = omega arith
sum_words_lem (a ∷ b ∷ rest) sum h =
    let fits : (sum + u16_be a b) % 2 ^ 32 ≡ sum + u16_be a b = omega (arith, h) in
    rw fits (omega (arith, sum_words_lem rest (sum + u16_be a b) (omega (arith, h))))

word_sum-bound : (bs : List ℕ) → IsBytes bs → word_sum bs ≤ 65535 * length bs
word_sum-bound [] hs = omega arith
word_sum-bound (last ∷ []) (h, hs) = omega (arith, h)
word_sum-bound (a ∷ b ∷ rest) (ha, (hb, hs)) = omega (arith, ha, hb, word_sum-bound rest hs)

checksum_lem :
    (bs : List ℕ) → word_sum bs < 2 ^ 32 → checksum bs ≡ some (65535 - root (word_sum bs))
unfolding checksum
checksum_lem bs h =
    let small : root (word_sum bs) % 65536 ≡ root (word_sum bs) =
      omega (arith, root-bound (word_sum bs)) in
    let sum_lem : sum_words bs 0 ≡ word_sum bs =
      omega (arith, sum_words_lem bs 0 (omega (arith, h))) in
    rw (sum_lem, fold_four (word_sum bs) h, small) refl

module _ (id sequence : ℕ) (payload : List ℕ) (id_fits : IsU16 id) (sequence_fits : IsU16 sequence)
    (bytes : IsBytes payload) (short : length payload ≤ 65000) where
  abbrev unsigned : List ℕ
  unsigned = header false id sequence payload

  abbrev signed : List ℕ
  signed =
      8 ∷ 0 ∷ be16 (65535 - root (word_sum unsigned)) ++ (be16 id ++ (be16 sequence ++ payload))

  total : word_sum unsigned ≡ 2048 + (id + (sequence + word_sum payload))
  total = omega (arith, id_fits, sequence_fits)

  in_range : word_sum unsigned + 65536 ≤ 2 ^ 32
  in_range = omega (arith, total, id_fits, sequence_fits, short, word_sum-bound payload bytes)

  signed_total : word_sum signed ≡ word_sum unsigned + (65535 - root (word_sum unsigned))
  signed_total = omega (arith, total, root-bound (word_sum unsigned), id_fits, sequence_fits)

  -- An IPv4 request of at most 65000 bytes of payload verifies: the checksum of the whole packet, with
  -- the checksum that it carries, is zero.
  pub build_echo-checksum :
      (packet : List ℕ) × (build_echo false id sequence payload true ≡ some packet)
      × (checksum packet ≡ some 0)
  unfolding build_echo
  build_echo-checksum = (
    signed,
    rw (checksum_lem unsigned (omega (arith, in_range))) refl,
    checksum_lem signed (omega (arith, signed_total, in_range))
        ∙ ap (λ (s : ℕ). some (65535 - s))
            (ap root signed_total ∙ root-complement (word_sum unsigned) (omega (arith, total))),
  )
