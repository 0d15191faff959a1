-- ===== src/Watch/Numbers.antt =====
-- The sequence numbers that the bus of daemon/src/watch.rs gives.
use netdiag.Prelude.{
  ℕ, suc, ◌+◌, ◌%◌, ◌^◌, ◌<◌, String, ◌≡◌, Option, none, some, List, [], ◌∷◌, arith, length, All,
  All-map,
}
use netdiag.Prelude.Sort.{IsSorted}
use netdiag.Watch.Model.{NetworkEvent, empty_cache}
use netdiag.Watch.Bus.{
  Clocks, EventBus, publish, publish_some, publish_daemon, Received, Watcher, translate, step,
  watch, run,
}

-- The newest event comes first, and has the greatest number; the next one is greater still.
abbrev pub ComesAfter : NetworkEvent → NetworkEvent → Type 0
ComesAfter a b = b.sequence < a.sequence

abbrev pub IsBelow : ℕ → NetworkEvent → Type 0
IsBelow n event = event.sequence < n

pub IsNumbered : EventBus → Type 0
IsNumbered bus = All (IsBelow bus.sequence) bus.sent × IsSorted ComesAfter bus.sent

next_number : (n : ℕ) → n + 1 < 2 ^ 64 → (n + 1) % 2 ^ 64 ≡ n + 1
next_number n h = omega arith

publish-IsNumbered :
    (now : Clocks) (event : NetworkEvent) (bus : EventBus)
    → bus.sequence + 1 < 2 ^ 64
    → IsNumbered bus
    → IsNumbered (publish now event bus)
unfolding IsNumbered publish
publish-IsNumbered now event bus h (below, sorted) = rw (next_number bus.sequence h) (
  (omega arith, All-map (IsBelow bus.sequence) bus.sent (λ e l. omega arith) below),
  (below, sorted),
)

-- What the loop publishes of one message, and how far the next number moves.
published-IsNumbered :
    (now : Clocks) (event : Option NetworkEvent) (bus : EventBus) (left : ℕ)
    → bus.sequence + suc left < 2 ^ 64
    → IsNumbered bus
    → IsNumbered (publish_some now event bus)
      × ((publish_some now event bus).sequence + left < 2 ^ 64)
unfolding publish
published-IsNumbered now none bus left h numbered = (numbered, omega arith)
published-IsNumbered now (some event) bus left h numbered = (
  publish-IsNumbered now event bus (omega arith) numbered,
  rw (next_number bus.sequence (omega arith)) (omega arith),
)

module _ (ip_text : List ℕ → String) where
  watch-IsNumbered :
      (rs : List Received) (w : Watcher)
      → w.bus.sequence + length rs < 2 ^ 64
      → IsNumbered w.bus
      → IsNumbered (watch ip_text rs w).bus
  unfolding watch step
  watch-IsNumbered [] w h numbered = numbered
  watch-IsNumbered (Received.not_inner ∷ rs) w h numbered =
      watch-IsNumbered rs w (omega arith) numbered
  watch-IsNumbered (Received.inner now msg ∷ rs) w h numbered =
      let published =
        published-IsNumbered now (translate ip_text msg w.cache).0 w.bus (length rs) (omega arith)
          numbered in
      watch-IsNumbered rs (step ip_text (Received.inner now msg) w) published.1 published.0

  -- However many messages the kernel sends, while fewer than 2 ^ 64 - 1 of them have arrived, the events that the
  -- watcher has published on a new bus have sequence numbers that strictly increase in the order of
  -- publication, all below the number that comes next.
  pub run-IsNumbered :
      (now : Clocks) (rs : List Received)
      → length rs + 1 < 2 ^ 64
      → IsNumbered (run ip_text now rs (record { sequence = 0; sent = [] })).bus
  unfolding run publish_daemon publish IsNumbered
  run-IsNumbered now rs h =
      let started =
        publish_daemon now "kernel event monitor started" (record { sequence = 0; sent = [] }) in
      watch-IsNumbered rs (record { cache = empty_cache; bus = started }) (omega arith)
        ((omega arith, tt), (tt, tt))
