-- ===== src/Correlate/Observed.antt =====
-- daemon/src/correlate.rs: what `observed_net_ids` returns, told without the map of counts.
use netdiag.Prelude.{
  ℕ, ◌+◌, ◌<◌, ◌≡◌, refl, ap, ◌∙◌, ◌⊎◌, inl, inr, Bool, true, false, ◌&&◌, ◌||◌, List, [], ◌∷◌, map,
  arith, ltb, ◌==◌, if◌then◌else◌, Bool-cases, any, All, All-map, contains,
}
use netdiag.Prelude.Sort.{sort_by, IsSorted, sort_by-IsSorted, any-sort_by, All-sort_by}
use netdiag.Correlate.Model.{Socket}
use netdiag.Correlate.Sockets.{bump, is_pinned, count_loop, more_used, observed_net_ids}

-- How many of the sockets are pinned to a Network.
abbrev pub uses : ℕ → List Socket → ℕ
uses id [] = 0
uses id (s ∷ sockets) =
    let rest = uses id sockets in if is_pinned s && s.net_id == id then rest + 1 else rest

-- `a` comes before `b`: used by more sockets, or by as many and with the lower id.
abbrev pub UsedMore : List Socket → ℕ → ℕ → Type 0
UsedMore sockets a b =
    (uses b sockets < uses a sockets) ⊎ ((uses a sockets ≡ uses b sockets) × (a < b))

abbrev count_of : ℕ → List (ℕ × ℕ) → ℕ
count_of id [] = 0
count_of id ((key, count) ∷ counts) = if key == id then count else count_of id counts

abbrev has_key : ℕ → List (ℕ × ℕ) → Bool
has_key id counts = any (λ p. p.0 == id) counts

abbrev Apart : ℕ × ℕ → ℕ × ℕ → Type 0
Apart p q = (p.0 == q.0) ≡ false

count_of-bump :
    (k id : ℕ) (counts : List (ℕ × ℕ))
    → count_of id (bump k counts) ≡ (if k == id then count_of id counts + 1 else count_of id counts)
unfolding bump
count_of-bump k id [] = ground arith
count_of-bump k id ((key, count) ∷ counts) = ground (arith, count_of-bump k id counts)

has_key-bump :
    (k id : ℕ) (counts : List (ℕ × ℕ)) → has_key id (bump k counts) ≡ (has_key id counts || k == id)
unfolding bump
has_key-bump k id [] = ground arith
has_key-bump k id ((key, count) ∷ counts) = ground (arith, has_key-bump k id counts)

Apart-bump :
    (p : ℕ × ℕ) (k : ℕ) (counts : List (ℕ × ℕ))
    → (p.0 == k) ≡ false
    → All (Apart p) counts
    → All (Apart p) (bump k counts)
unfolding bump
Apart-bump p k [] h hs = (h, tt)
Apart-bump p k ((key, count) ∷ counts) h (g, hs) = elim (Bool-cases (key == k)) [
  | inl here ↦ rw here (g, hs)
  | inr later ↦ rw later (g, Apart-bump p k counts h hs)
]

bump-IsSorted :
    (k : ℕ) (counts : List (ℕ × ℕ)) → IsSorted Apart counts → IsSorted Apart (bump k counts)
unfolding bump
bump-IsSorted k [] s = (tt, tt)
bump-IsSorted k ((key, count) ∷ counts) (hs, s) = elim (Bool-cases (key == k)) [
  | inl here ↦ rw here (hs, s)
  | inr later ↦ rw later (Apart-bump (key, count) k counts later hs, bump-IsSorted k counts s)
]

count_of-loop :
    (id : ℕ) (sockets : List Socket) (counts : List (ℕ × ℕ))
    → count_of id (count_loop sockets counts) ≡ count_of id counts + uses id sockets
unfolding count_loop
count_of-loop id [] counts = omega arith
count_of-loop id (s ∷ sockets) counts = elim (Bool-cases (is_pinned s)) [
  | inl pinned ↦ rw pinned (
      ground
        (arith, count_of-loop id sockets (bump s.net_id counts), count_of-bump s.net_id id counts))
  | inr free ↦ rw free (count_of-loop id sockets counts)
]

has_key-loop :
    (id : ℕ) (sockets : List Socket) (counts : List (ℕ × ℕ))
    → has_key id (count_loop sockets counts)
      ≡ (has_key id counts || any (λ s. is_pinned s && s.net_id == id) sockets)
unfolding count_loop
has_key-loop id [] counts = ground arith
has_key-loop id (s ∷ sockets) counts = elim (Bool-cases (is_pinned s)) [
  | inl pinned ↦ rw pinned (
      ground
        (arith, has_key-loop id sockets (bump s.net_id counts), has_key-bump s.net_id id counts))
  | inr free ↦ rw free (has_key-loop id sockets counts)
]

count_loop-IsSorted :
    (sockets : List Socket) (counts : List (ℕ × ℕ))
    → IsSorted Apart counts
    → IsSorted Apart (count_loop sockets counts)
unfolding count_loop
count_loop-IsSorted [] counts h = h
count_loop-IsSorted (s ∷ sockets) counts h = elim (Bool-cases (is_pinned s)) [
  | inl pinned ↦
      rw pinned
        (count_loop-IsSorted sockets (bump s.net_id counts) (bump-IsSorted s.net_id counts h))
  | inr free ↦ rw free (count_loop-IsSorted sockets counts h)
]

-- Where the keys are apart, each pair holds the count of its key.
later_count :
    (key count : ℕ) (counts rest : List (ℕ × ℕ))
    → All (Apart (key, count)) rest
    → All (λ p. count_of p.0 counts ≡ p.1) rest
    → All (λ p. count_of p.0 ((key, count) ∷ counts) ≡ p.1) rest
later_count key count counts [] hs es = tt
later_count key count counts (p ∷ rest) (h, hs) (e, es) =
    (rw h e, later_count key count counts rest hs es)

own_counts :
    (counts : List (ℕ × ℕ)) → IsSorted Apart counts → All (λ p. count_of p.0 counts ≡ p.1) counts
own_counts [] s = tt
own_counts ((key, count) ∷ counts) (hs, s) =
    (ground arith, later_count key count counts counts hs (own_counts counts s))

key-any : (id : ℕ) (counts : List (ℕ × ℕ)) → contains (map (λ p. p.0) counts) id ≡ has_key id counts
key-any id [] = refl
key-any id (p ∷ counts) = ap (λ b. p.0 == id || b) (key-any id counts)

abbrev Earlier : ℕ × ℕ → ℕ × ℕ → Type 0
Earlier p q = more_used p q ≡ true

Earlier-trans : (p q r : ℕ × ℕ) → Earlier p q → Earlier q r → Earlier p r
Earlier-trans (a, m) (b, n) (c, k) h g = ground arith

not_later-Earlier : (p q : ℕ × ℕ) → Apart p q → more_used q p ≡ false → Earlier p q
not_later-Earlier (a, m) (b, n) h g = ground arith

module _ (sockets : List Socket) where
  Earlier-UsedMore :
      (a m b n : ℕ)
      → uses a sockets ≡ m
      → uses b sockets ≡ n
      → Earlier (a, m) (b, n)
      → UsedMore sockets a b
  Earlier-UsedMore a m b n e f h = elim (Bool-cases (ltb n m)) [
    | inl more ↦ inl (ground arith)
    | inr same ↦ inr (ground arith)
  ]

  ids_after :
      (p : ℕ × ℕ) (rest : List (ℕ × ℕ))
      → uses p.0 sockets ≡ p.1
      → All (λ q. uses q.0 sockets ≡ q.1) rest
      → All (Earlier p) rest
      → All (UsedMore sockets p.0) (map (λ q. q.0) rest)
  ids_after p [] e es hs = tt
  ids_after p (q ∷ rest) e (f, es) (h, hs) =
      (Earlier-UsedMore p.0 p.1 q.0 q.1 e f h, ids_after p rest e es hs)

  ids-IsSorted :
      (pairs : List (ℕ × ℕ))
      → All (λ q. uses q.0 sockets ≡ q.1) pairs
      → IsSorted Earlier pairs
      → IsSorted (UsedMore sockets) (map (λ q. q.0) pairs)
  ids-IsSorted [] es s = tt
  ids-IsSorted (p ∷ pairs) (e, es) (hs, s) = (ids_after p pairs e es hs, ids-IsSorted pairs es s)

  abbrev counts : List (ℕ × ℕ)
  counts = count_loop sockets []

  counts-uses : All (λ p. uses p.0 sockets ≡ p.1) counts
  counts-uses =
      All-map (λ p. count_of p.0 counts ≡ p.1) counts
        (λ p e. omega (arith, count_of-loop p.0 sockets [], e))
        (own_counts counts (count_loop-IsSorted sockets [] tt))

  -- The observed netIds are listed strictly by use: each is pinned by more sockets than every one
  -- after it, or by as many and is the lower number; none is listed twice.
  pub observed_net_ids-IsSorted : IsSorted (UsedMore sockets) (observed_net_ids sockets)
  unfolding observed_net_ids
  observed_net_ids-IsSorted =
      ids-IsSorted (sort_by more_used counts)
        (All-sort_by more_used (λ p. uses p.0 sockets ≡ p.1) counts counts-uses)
        (sort_by-IsSorted more_used Earlier Apart Earlier-trans (λ p q h. h) not_later-Earlier
          counts (count_loop-IsSorted sockets [] tt))

  -- A netId is observed exactly where a socket is pinned to it.
  pub observed_net_ids-contains :
      (id : ℕ)
      → contains (observed_net_ids sockets) id ≡ any (λ s. is_pinned s && s.net_id == id) sockets
  unfolding observed_net_ids
  observed_net_ids-contains id =
      key-any id (sort_by more_used counts)
      ∙ any-sort_by more_used (λ p. p.0 == id) counts
      ∙ has_key-loop id sockets []
