-- ===== src/Watch/Bus.antt =====
-- daemon/src/watch.rs: `translate`, the loop of `run`, and `EventBus::publish`. The clocks are what they show
-- when an event is published; the bus is the number it gives next and the events that it has sent.
use netdiag.Prelude.{ℕ, ◌+◌, ◌%◌, ◌^◌, String, true, false, Option, none, some, List, [], ◌∷◌}
use netdiag.Watch.Severity
use netdiag.Watch.Model.{Message, NetworkEvent, source_daemon, StateCache, empty_cache}
use netdiag.Watch.Link.{link_event}
use netdiag.Watch.Address.{address_event}
use netdiag.Watch.Entries.{route_event, rule_event, neighbor_event}

pub record Clocks : Type 0 where
  pub unix_ms : ℕ
  pub monotonic_ns : ℕ

-- The newest event first.
pub record EventBus : Type 0 where
  pub sequence : ℕ
  pub sent : List NetworkEvent

-- `fetch_add` on an `AtomicU64`.
unfoldable pub publish : Clocks → NetworkEvent → EventBus → EventBus
publish now event bus = record {
  sequence = (bus.sequence + 1) % 2 ^ 64;
  sent =
      record event {
        sequence = bus.sequence;
        unix_ms = now.unix_ms;
        monotonic_ns = now.monotonic_ns;
      }
      ∷ bus.sent;
}

abbrev pub daemon_event : String → NetworkEvent
daemon_event message = record {
  unix_ms = 0;
  monotonic_ns = 0;
  source = source_daemon;
  severity = Severity.info;
  summary = message;
  sequence = 0;
  payload = none;
}

unfoldable pub publish_daemon : Clocks → String → EventBus → EventBus
unfolding publish
publish_daemon now message bus = publish now (daemon_event message) bus

-- What the netlink stream gives: a message with the clocks at its arrival, or a payload of another kind.
pub data Received : Type 0 where
  inner : Clocks → Message → Received
  not_inner : Received

pub record Watcher : Type 0 where
  pub cache : StateCache
  pub bus : EventBus

abbrev pub publish_some : Clocks → Option NetworkEvent → EventBus → EventBus
publish_some now none bus = bus
publish_some now (some event) bus = publish now event bus

module _ (ip_text : List ℕ → String) where
  unfoldable pub translate : Message → StateCache → Option NetworkEvent × StateCache
  translate (Message.new_link msg) c = (some (link_event msg true c).0, (link_event msg true c).1)
  translate (Message.del_link msg) c = (some (link_event msg false c).0, (link_event msg false c).1)
  translate (Message.new_address msg) c = address_event ip_text msg true c
  translate (Message.del_address msg) c = address_event ip_text msg false c
  translate (Message.new_route msg) c = (some (route_event ip_text msg true c), c)
  translate (Message.del_route msg) c = (some (route_event ip_text msg false c), c)
  translate (Message.new_rule msg) c = (some (rule_event msg true), c)
  translate (Message.del_rule msg) c = (some (rule_event msg false), c)
  translate (Message.new_neighbour msg) c = neighbor_event ip_text msg true c
  translate (Message.del_neighbour msg) c = neighbor_event ip_text msg false c
  translate Message.other c = (none, c)

  unfoldable pub step : Received → Watcher → Watcher
  unfolding translate publish
  step Received.not_inner w = w
  step (Received.inner now msg) w =
      let result = translate msg w.cache in
      record { cache = result.1; bus = publish_some now result.0 w.bus }

  unfoldable pub watch : List Received → Watcher → Watcher
  unfolding step
  watch [] w = w
  watch (r ∷ rs) w = watch rs (step r w)

  -- The state when the stream ends.
  unfoldable pub run : Clocks → List Received → EventBus → Watcher
  unfolding watch publish_daemon
  run now rs bus =
      watch rs (record {
        cache = empty_cache;
        bus = publish_daemon now "kernel event monitor started" bus;
      })
