-- ===== src/Correlate/Sockets.antt =====
-- daemon/src/correlate.rs: `observed_net_ids`. The hash map of counts is an association list; the
-- order in which it is read does not matter, since the sort that follows compares whole pairs.
use netdiag.Prelude.{ℕ, ◌+◌, Bool, ◌&&◌, ◌||◌, List, [], ◌∷◌, map, ltb, ◌==◌, ◌!=◌, if◌then◌else◌}
use netdiag.Prelude.Sort.{sort_by}
use netdiag.Correlate.Model.{Socket}

-- `*counts.entry(id).or_insert(0) += 1`
unfoldable pub bump : ℕ → List (ℕ × ℕ) → List (ℕ × ℕ)
bump id [] = (id, 1) ∷ []
bump id ((key, count) ∷ counts) =
    if key == id then (key, count + 1) ∷ counts else (key, count) ∷ bump id counts

abbrev pub is_pinned : Socket → Bool
is_pinned s = s.has_mark && s.net_id != 0

unfoldable pub count_loop : List Socket → List (ℕ × ℕ) → List (ℕ × ℕ)
unfolding bump
count_loop [] counts = counts
count_loop (s ∷ sockets) counts =
    count_loop sockets (if is_pinned s then bump s.net_id counts else counts)

-- `b.1.cmp(&a.1).then(a.0.cmp(&b.0))` answers `Less`. The ids are the netIds of marks, 16 bits.
abbrev pub more_used : ℕ × ℕ → ℕ × ℕ → Bool
more_used (a, m) (b, n) = ltb n m || (m == n && ltb a b)

unfoldable pub observed_net_ids : List Socket → List ℕ
unfolding count_loop
observed_net_ids app_sockets = map (λ p. p.0) (sort_by more_used (count_loop app_sockets []))
