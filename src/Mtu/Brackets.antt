-- ===== src/Mtu/Brackets.antt =====
-- daemon/src/probe/mtu.rs: what the search says of the path, where an echo is answered exactly if the
-- path carries its packet.
use netdiag.Prelude.{
  ℕ, ◌+◌, ◌≤◌, ◌<◌, ◌≡◌, refl, ap, ◌∙◌, inl, inr, Bool, true, false, Option, none, some, List, [],
  ◌∷◌, arith, leb, Bool-cases, first, All, All-map, contains,
}
use netdiag.Mtu.Search.{overhead, payload_for_mtu, candidate_mtus, search, probed_mtu, measure}
use netdiag.Mtu.Candidates.{Allowed, candidate_mtus-Allowed}

-- What the two sizes of the search say of a path that carries packets of up to `path_mtu` bytes, where
-- `sizes` were probed: one that gets through is within it, one that fails is not, and where none
-- gets through, all are above it.
abbrev pub Brackets : ℕ → List ℕ → Option ℕ × Option ℕ → Type 0
Brackets path_mtu sizes (some passed, some failed) =
    (passed ≤ path_mtu) × (path_mtu < failed) × (contains sizes passed ≡ true)
Brackets path_mtu sizes (some passed, none) = (passed ≤ path_mtu) × (first sizes ≡ some passed)
Brackets path_mtu sizes (none, failed) = All (λ m. path_mtu < m) sizes

abbrev Fails : ℕ → Option ℕ → Type 0
Fails path_mtu none = Unit
Fails path_mtu (some failed) = path_mtu < failed

module _ (path_mtu : ℕ) (gets_through : ℕ → Bool) where
  -- What the search says after a size has failed.
  after_failure :
      (rest : List ℕ) (failed : ℕ)
      → All (λ m. gets_through m ≡ leb m path_mtu) rest
      → path_mtu < failed
      → Brackets path_mtu (failed ∷ rest) (search gets_through rest (some failed))
  unfolding search
  after_failure [] failed hs above = (above, tt)
  after_failure (m ∷ rest) failed (h, hs) above = elim (Bool-cases (gets_through m)) [
    | inl passed ↦ rw passed (ground (arith, passed, h), above, ground arith)
    | inr lost ↦
        let m_above : path_mtu < m = ground (arith, lost, h) in
        rw lost (
          one_more failed m rest (search gets_through rest (some m)) above m_above
            (after_failure rest m hs m_above))
  ]
    where
      one_more :
          (failed m : ℕ) (rest : List ℕ) (r : Option ℕ × Option ℕ)
          → path_mtu < failed
          → path_mtu < m
          → Brackets path_mtu (m ∷ rest) r
          → Brackets path_mtu (failed ∷ m ∷ rest) r
      one_more failed m rest (some passed, some lost) above above_m (le, lt, mem) =
          (le, lt, ground (arith, mem))
      one_more failed m rest (some passed, none) above above_m (le, h) =
          let e : m ≡ passed = cc in absurd (omega (arith, e, le, above_m))
      one_more failed m rest (none, lost) above above_m hs = (above, hs)

  search-Brackets :
      (sizes : List ℕ)
      → All (λ m. gets_through m ≡ leb m path_mtu) sizes
      → Brackets path_mtu sizes (search gets_through sizes none)
  unfolding search
  search-Brackets [] hs = tt
  search-Brackets (m ∷ rest) (h, hs) = elim (Bool-cases (gets_through m)) [
    | inl passed ↦ rw passed (ground (arith, passed, h), refl)
    | inr lost ↦ rw lost (after_failure rest m hs (ground (arith, lost, h)))
  ]

payload_fills :
    (interface_mtu : ℕ) (v6 : Bool) (m : ℕ)
    → Allowed interface_mtu v6 m
    → payload_for_mtu m v6 + overhead v6 ≡ m
unfolding payload_for_mtu
payload_fills interface_mtu true m (low, high) = omega arith
payload_fills interface_mtu false m (low, high) = omega arith

-- Where the path answers exactly the echoes whose packets are of at most `path_mtu` bytes, headers
-- included, the sizes that are measured bracket it: the size that got through is a candidate and at
-- most the path MTU, and the failed one is above it; where nothing failed, the largest candidate
-- gets through; and where nothing got through, every candidate is above the path MTU.
pub measure-Brackets :
    (answered : ℕ → Bool) (path_mtu interface_mtu : ℕ) (v6 : Bool)
    → ((n : ℕ) → answered n ≡ leb (n + overhead v6) path_mtu)
    → Brackets path_mtu
        (candidate_mtus (probed_mtu interface_mtu) v6)
        (measure answered interface_mtu v6)
unfolding measure
measure-Brackets answered path_mtu interface_mtu v6 path =
    let link = probed_mtu interface_mtu in
    search-Brackets path_mtu (λ m. answered (payload_for_mtu m v6)) (candidate_mtus link v6)
      (All-map (Allowed link v6) (candidate_mtus link v6)
        (λ m allowed.
          path (payload_for_mtu m v6) ∙ ap (λ n. leb n path_mtu) (payload_fills link v6 m allowed))
        (candidate_mtus-Allowed link v6))
