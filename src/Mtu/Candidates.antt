-- ===== src/Mtu/Candidates.antt =====
-- daemon/src/probe/mtu.rs: the candidates are strictly falling sizes that the link can carry.
use netdiag.Prelude.{
  ltb, true, false, if◌then◌else◌, ℕ, ◌≤◌, ◌<◌, ◌≡◌, refl, sym, ap, ◌∙◌, inl, inr, Bool, ◌&&◌, ◌||◌,
  List, [], ◌∷◌, arith, leb, ◌==◌, ==_iff, Bool-cases, any, filter, All, All-map, contains,
}
use netdiag.Prelude.Sort.{sort_by, IsSorted, sort_by-IsSorted, All-sort_by, any-sort_by}
use netdiag.Mtu.Search.{
  floor, dedup_after, dedup, larger, worth_probing, common_sizes, candidate_mtus,
}

abbrev AtMost : ℕ → ℕ → Type 0
AtMost a b = b ≤ a

abbrev pub Above : ℕ → ℕ → Type 0
Above a b = b < a

-- The elements that stay satisfy what all of them satisfied.
All-dedup_after : (P : ℕ → Type 0) (last : ℕ) (xs : List ℕ) → All P xs → All P (dedup_after last xs)
unfolding dedup_after
All-dedup_after P last [] ps = tt
All-dedup_after P last (x ∷ xs) (p, ps) = elim (Bool-cases (x == last)) [
  | inl again ↦ rw again (All-dedup_after P last xs ps)
  | inr new ↦ rw new (p, All-dedup_after P x xs ps)
]

below_last :
    (last : ℕ) (xs : List ℕ)
    → All (AtMost last) xs
    → IsSorted AtMost xs
    → All (Above last) (dedup_after last xs)
unfolding dedup_after
below_last last [] hs s = tt
below_last last (x ∷ xs) (h, hs) (ks, s) = elim (Bool-cases (x == last)) [
  | inl again ↦ rw again (below_last last xs hs s)
  | inr new ↦
      let below : x < last = ground (arith, h, new) in
      rw new (
        below,
        All-map (AtMost x) (dedup_after x xs) (λ y k. omega (arith, k, below))
            (All-dedup_after (AtMost x) x xs ks),
      )
]

dedup_after-IsSorted :
    (last : ℕ) (xs : List ℕ) → IsSorted AtMost xs → IsSorted Above (dedup_after last xs)
unfolding dedup_after
dedup_after-IsSorted last [] s = tt
dedup_after-IsSorted last (x ∷ xs) (ks, s) = elim (Bool-cases (x == last)) [
  | inl again ↦ rw again (dedup_after-IsSorted last xs s)
  | inr new ↦ rw new (below_last x xs ks s, dedup_after-IsSorted x xs s)
]

dedup-IsSorted : (xs : List ℕ) → IsSorted AtMost xs → IsSorted Above (dedup xs)
dedup-IsSorted [] s = tt
dedup-IsSorted (x ∷ xs) (ks, s) = (below_last x xs ks s, dedup_after-IsSorted x xs s)

All-dedup : (P : ℕ → Type 0) (xs : List ℕ) → All P xs → All P (dedup xs)
All-dedup P [] ps = tt
All-dedup P (x ∷ xs) (p, ps) = (p, All-dedup_after P x xs ps)

contains-dedup_after :
    (m last : ℕ) (xs : List ℕ)
    → (m == last || contains (dedup_after last xs) m) ≡ (m == last || contains xs m)
unfolding dedup_after
contains-dedup_after m last [] = refl
contains-dedup_after m last (x ∷ xs) = elim (Bool-cases (x == last)) [
  | inl again ↦ rw again (ground (arith, again, contains-dedup_after m last xs))
  | inr new ↦ rw new (ground (arith, contains-dedup_after m x xs))
]

contains-dedup : (m : ℕ) (xs : List ℕ) → contains (dedup xs) m ≡ contains xs m
contains-dedup m [] = refl
contains-dedup m (x ∷ xs) = ground (arith, contains-dedup_after m x xs)

contains-any : (m : ℕ) (xs : List ℕ) → contains xs m ≡ any (λ x. x == m) xs
contains-any m [] = refl
contains-any m (x ∷ xs) = ap (λ b. x == m || b) (contains-any m xs)

contains-filter :
    (p : ℕ → Bool) (m : ℕ) (xs : List ℕ) → contains (filter p xs) m ≡ (p m && contains xs m)
contains-filter p m [] = ground arith
contains-filter p m (x ∷ xs) = elim (Bool-cases (x == m)) [
  | inl same ↦
      let e : p x ≡ p m = ap p ((==_iff x m).0 same) in
      ground (arith, same, e, contains-filter p m xs)
  | inr other ↦ ground (arith, other, contains-filter p m xs)
]

abbrev Anything : ℕ → Type 0
Anything a = Unit

abbrev AnyPair : ℕ → ℕ → Type 0
AnyPair a b = Unit

sort_by-AtMost : (xs : List ℕ) → IsSorted AtMost (sort_by larger xs)
sort_by-AtMost xs =
    sort_by-IsSorted larger AtMost AnyPair (λ a b c h k. omega (arith, h, k))
      (λ a b h. ground (arith, h)) (λ a b d h. ground (arith, h)) xs (all_pairs xs)
  where
    all_units : (xs : List ℕ) → All Anything xs
    all_units [] = tt
    all_units (x ∷ xs) = (tt, all_units xs)

    all_pairs : (xs : List ℕ) → IsSorted AnyPair xs
    all_pairs [] = tt
    all_pairs (x ∷ xs) = (all_units xs, all_pairs xs)

-- A candidate is one of the sizes that the link and the protocol allow.
abbrev pub Allowed : ℕ → Bool → ℕ → Type 0
Allowed interface_mtu v6 m = (floor v6 ≤ m) × (m ≤ interface_mtu)

module _ (interface_mtu : ℕ) (v6 : Bool) where
  filtered-Allowed :
      (xs : List ℕ) → All (Allowed interface_mtu v6) (filter (worth_probing interface_mtu v6) xs)
  filtered-Allowed [] = tt
  filtered-Allowed (x ∷ xs) = elim (Bool-cases (worth_probing interface_mtu v6 x)) [
    | inl kept ↦ rw kept ((ground (arith, kept), ground (arith, kept)), filtered-Allowed xs)
    | inr dropped ↦ rw dropped (filtered-Allowed xs)
  ]

  abbrev sizes : List ℕ
  sizes = filter (worth_probing interface_mtu v6) (common_sizes interface_mtu)

  -- The candidates are probed from the largest to the smallest, each once.
  candidate_mtus-IsSorted : IsSorted Above (candidate_mtus interface_mtu v6)
  unfolding candidate_mtus
  candidate_mtus-IsSorted = dedup-IsSorted (sort_by larger sizes) (sort_by-AtMost sizes)

  pub candidate_mtus-Allowed : All (Allowed interface_mtu v6) (candidate_mtus interface_mtu v6)
  unfolding candidate_mtus
  candidate_mtus-Allowed = All-dedup (Allowed interface_mtu v6) (sort_by larger sizes) (
      All-sort_by larger (Allowed interface_mtu v6) sizes
        (filtered-Allowed (common_sizes interface_mtu)))

  contains-candidate_mtus :
      (m : ℕ)
      → contains (candidate_mtus interface_mtu v6) m
        ≡ ((leb (floor v6) m && leb m interface_mtu) && contains (common_sizes interface_mtu) m)
  unfolding candidate_mtus
  contains-candidate_mtus m =
      contains-dedup m (sort_by larger sizes)
      ∙ contains-any m (sort_by larger sizes)
      ∙ any-sort_by larger (λ x. x == m) sizes
      ∙ sym (contains-any m sizes)
      ∙ contains-filter (worth_probing interface_mtu v6) m (common_sizes interface_mtu)

  -- A size that is worth an echo: from 1280 bytes on for IPv6 and from 576 on for IPv4, and the link's MTU or one of nine
  -- common sizes below it.
  abbrev pub is_candidate : ℕ → Bool
  is_candidate m =
      leb (if v6 then 1280 else 576) m
      && (m == interface_mtu
          || (ltb m interface_mtu
              && contains (576 ∷ 1024 ∷ 1280 ∷ 1400 ∷ 1420 ∷ 1450 ∷ 1480 ∷ 1492 ∷ 1500 ∷ []) m))

-- The sizes below 1500 bytes in rising order, as one of the tests on both sides.
abbrev common : List ℕ
common = 576 ∷ 1024 ∷ 1280 ∷ 1400 ∷ 1420 ∷ 1450 ∷ 1480 ∷ 1492 ∷ 1500 ∷ []

contains-common_sizes :
    (interface_mtu m : ℕ)
    → contains (common_sizes interface_mtu) m ≡ (m == interface_mtu || contains common m)
contains-common_sizes interface_mtu m = ground arith

-- At most the link's MTU, and it or a size of the list.
below_link :
    (least_met listed : Bool) (interface_mtu m : ℕ)
    → ((least_met && leb m interface_mtu) && (m == interface_mtu || listed))
      ≡ (least_met && (m == interface_mtu || (ltb m interface_mtu && listed)))
below_link least_met listed interface_mtu m = ground arith

-- The candidates fall strictly, and a size is one of them exactly where it is at least 1280 for IPv6 and 576 for IPv4, and
-- is the link's MTU or below it and one of 576, 1024, 1280, 1400, 1420, 1450, 1480, 1492 and 1500.
pub candidate_mtus_exact :
    (interface_mtu : ℕ) (v6 : Bool)
    → IsSorted Above (candidate_mtus interface_mtu v6)
      × ((m : ℕ) → contains (candidate_mtus interface_mtu v6) m ≡ is_candidate interface_mtu v6 m)
candidate_mtus_exact interface_mtu true = (
  candidate_mtus-IsSorted interface_mtu true,
  λ m.
      contains-candidate_mtus interface_mtu true m
      ∙ ap (λ b. (leb 1280 m && leb m interface_mtu) && b) (contains-common_sizes interface_mtu m)
      ∙ below_link (leb 1280 m) (contains common m) interface_mtu m,
)
candidate_mtus_exact interface_mtu false = (
  candidate_mtus-IsSorted interface_mtu false,
  λ m.
      contains-candidate_mtus interface_mtu false m
      ∙ ap (λ b. (leb 576 m && leb m interface_mtu) && b) (contains-common_sizes interface_mtu m)
      ∙ below_link (leb 576 m) (contains common m) interface_mtu m,
)
