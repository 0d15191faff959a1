-- ===== src/Mtu/Search.antt =====
-- daemon/src/probe/mtu.rs: `candidate_mtus`, `payload_for_mtu` and the search of `discover`. Whether an
-- echo of a payload size is answered is an argument.
use netdiag.Prelude.{
  ℕ, ◌-◌, String, Bool, true, false, ◌&&◌, Option, none, some, List, [], ◌∷◌, ltb, leb, ◌==◌,
  if◌then◌else◌, filter, concat, show,
}
use netdiag.Prelude.Sort.{sort_by}

abbrev pub ipv6_min_mtu : ℕ
ipv6_min_mtu = 1280

abbrev pub ethernet_mtu : ℕ
ethernet_mtu = 1500

-- V4_OVERHEAD and V6_OVERHEAD
abbrev pub overhead : Bool → ℕ
overhead true = 48
overhead false = 28

-- `mtu.saturating_sub(overhead)`
unfoldable pub payload_for_mtu : ℕ → Bool → ℕ
payload_for_mtu mtu v6 = mtu - overhead v6

abbrev pub floor : Bool → ℕ
floor true = ipv6_min_mtu
floor false = 576

-- `dedup`: an element equal to the one kept before it is left out.
unfoldable pub dedup_after : ℕ → List ℕ → List ℕ
dedup_after last [] = []
dedup_after last (x ∷ xs) =
    let kept = dedup_after last xs in
    let fresh = dedup_after x xs in if x == last then kept else x ∷ fresh

abbrev pub dedup : List ℕ → List ℕ
dedup [] = []
dedup (x ∷ xs) = x ∷ dedup_after x xs

-- `b.cmp(a)` answers `Less` for `a` against `b`.
abbrev pub larger : ℕ → ℕ → Bool
larger a b = ltb b a

abbrev pub worth_probing : ℕ → Bool → ℕ → Bool
worth_probing interface_mtu v6 m = leb (floor v6) m && leb m interface_mtu

abbrev pub common_sizes : ℕ → List ℕ
common_sizes interface_mtu =
    interface_mtu ∷ ethernet_mtu ∷ 1492 ∷ 1480 ∷ 1450 ∷ 1420 ∷ 1400 ∷ 1280 ∷ 1024 ∷ 576 ∷ []

unfoldable pub candidate_mtus : ℕ → Bool → List ℕ
unfolding dedup_after
candidate_mtus interface_mtu v6 =
    dedup (sort_by larger (filter (worth_probing interface_mtu v6) (common_sizes interface_mtu)))

-- The loop of `discover`: the largest size that got through and the smallest that did not.
unfoldable pub search : (ℕ → Bool) → List ℕ → Option ℕ → Option ℕ × Option ℕ
search gets_through [] smallest_failed = (none, smallest_failed)
search gets_through (mtu ∷ rest) smallest_failed =
    let further = search gets_through rest (some mtu) in
    if gets_through mtu then (some mtu, smallest_failed) else further

abbrev pub probed_mtu : ℕ → ℕ
probed_mtu interface_mtu = if interface_mtu == 0 then ethernet_mtu else interface_mtu

unfoldable pub measure : (ℕ → Bool) → ℕ → Bool → Option ℕ × Option ℕ
unfolding search
measure answered interface_mtu v6 =
    search (λ mtu. answered (payload_for_mtu mtu v6)) (candidate_mtus (probed_mtu interface_mtu) v6)
      none

-- Whether `discover` succeeds, and what it says.
unfoldable pub verdict : String → Option ℕ × Option ℕ → Bool × String
verdict target (some mtu, none) =
    (true, concat (show mtu ∷ " byte packets reach " ∷ target ∷ " without fragmentation" ∷ []))
verdict target (some passed, some failed) = (
  false,
  concat (
      show failed
      ∷ " byte packets do not reach "
      ∷ target
      ∷ " but "
      ∷ show passed
      ∷ " byte packets do; "
      ∷ "the path MTU is between "
      ∷ show passed
      ∷ " and "
      ∷ show failed
      ∷ []),
)
verdict target (none, failed) = (
  false,
  concat (
      "no echo reply from " ∷ target ∷ " at any size; ICMP is probably filtered, "
      ∷ "so path MTU could not be measured" ∷ []),
)

unfoldable pub discover : (ℕ → Bool) → String → ℕ → Bool → Bool × String
unfolding measure verdict
discover answered target interface_mtu v6 = verdict target (measure answered interface_mtu v6)
