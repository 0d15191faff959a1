-- ===== src/Watch/Checks.antt =====
-- Concrete notifications, and the theorems at some.
use netdiag.Prelude.{
  ℕ, String, ◌≡◌, refl, Bool, true, false, not, ◌&&◌, ◌||◌, none, List, [], ◌∷◌, map, arith, ◌==◌,
  if◌then◌else◌, concat, show,
}
use netdiag.Prelude.Maps
use netdiag.Routes.Model.{IpAddr}
use netdiag.Neigh.Table.{NeighborState}
use netdiag.Watch.Severity
use netdiag.Watch.Model.{
  LinkAttribute, LinkMessage, AddressAttribute, AddressMessage, Message, NetworkEvent, StateCache,
  index_eq,
}
use netdiag.Watch.Link.{link_event}
use netdiag.Watch.Address.{addresses_of, event_at}
use netdiag.Watch.Bus.{Clocks, EventBus, Received, run}
use netdiag.Watch.Filter.{EventFilter, matches_filter}
use netdiag.Watch.Follow.{follow_all, flag, run-follow}
use netdiag.Watch.Numbers.{IsNumbered, run-IsNumbered}
use netdiag.Watch.Edges.{edges_of, others_left, event_at-edges, link_event-forgets}

abbrev no_text : List ℕ → String
no_text bytes = "a"

abbrev at_once : Clocks
at_once = record { unix_ms = 0; monotonic_ns = 0 }

abbrev wlan : LinkMessage
wlan = record {
  index = 3;
  up = true;
  running = true;
  attributes = LinkAttribute.if_name "wlan0" ∷ LinkAttribute.mtu 1500 ∷ [];
}

-- A global address of interface 3, and a link-local one.
abbrev global_ip : IpAddr
global_ip = IpAddr.v6 (0x20 ∷ 1 ∷ [])

abbrev address : IpAddr → Bool → AddressMessage
address ip is_universe = record {
  index = 3;
  prefix_len = 64;
  is_universe = is_universe;
  attributes = AddressAttribute.address ip ∷ [];
}

abbrev link_local : AddressMessage
link_local = address (IpAddr.v6 (0xfe ∷ 0x80 ∷ [])) false

abbrev global : AddressMessage
global = address global_ip true

abbrev arrives : Message → Received
arrives msg = Received.inner at_once msg

abbrev fresh_bus : EventBus
fresh_bus = record { sequence = 0; sent = [] }

-- The newest comes first.
abbrev session : List Received
session =
    arrives (Message.new_link wlan)
    ∷ arrives (Message.new_address global)
    ∷ Received.not_inner
    ∷ arrives (Message.del_address global)
    ∷ []

reported :
    map (λ e. e.summary) (run no_text at_once session fresh_bus).bus.sent
    ≡ "wlan0 lost IPv6 (last global address a/64 removed)" ∷ "wlan0 gained IPv6 (a/64)" ∷ "wlan0 up"
      ∷ "kernel event monitor started" ∷ []
unfolding run netdiag.Watch.Address.address_event Maps.get link_event Maps.put concat
    netdiag.Neigh.Table.same_bytes show
reported = refl

-- A link-local address keeps the loss of the last global one unreported.
unreported :
    map
      (λ e. e.summary)
      (run no_text at_once
        (arrives (Message.new_address link_local)
          ∷ arrives (Message.new_address global)
          ∷ arrives (Message.del_address global)
          ∷ [])
        fresh_bus).bus.sent
    ≡ "if3 address removed a/64" ∷ "if3 gained IPv6 (a/64)" ∷ "if3 address added a/64"
      ∷ "kernel event monitor started" ∷ []
unfolding run netdiag.Watch.Address.address_event Maps.get concat Maps.put show
    netdiag.Neigh.Table.same_bytes
unreported = refl

-- A global address that was there before the daemon is removed: a gain.
false_gain :
    map
      (λ e. e.summary)
      (run no_text at_once
        (arrives (Message.new_address link_local) ∷ arrives (Message.del_address global) ∷ [])
        fresh_bus).bus.sent
    ≡ "if3 gained IPv6 (a/64)" ∷ "if3 address added a/64" ∷ "kernel event monitor started" ∷ []
unfolding run netdiag.Watch.Address.address_event Maps.get concat Maps.put show
    netdiag.Neigh.Table.same_bytes
false_gain = refl

abbrev seen : StateCache
seen = (run no_text at_once session fresh_bus).cache

run-follow_example :
    follow_all 3 true (run no_text at_once session (record { sequence = 0; sent = [] })).bus.sent
    ≡ flag 3 true (run no_text at_once session (record { sequence = 0; sent = [] })).cache
run-follow_example = run-follow no_text 3 true at_once session 0

event_at-edges_example : edges_of (event_at no_text global false global_ip seen).0.payload ≡ (
  not (flag 3 true seen) && true && (false || others_left global global_ip seen),
  flag 3 true seen && true && true && not (others_left global global_ip seen),
)
event_at-edges_example = event_at-edges no_text global false global_ip seen

run-IsNumbered_example : IsNumbered (run no_text at_once session fresh_bus).bus
run-IsNumbered_example = run-IsNumbered no_text at_once session (omega arith)

link_event-forgets_example :
    (Maps.get index_eq (link_event wlan false seen).1.if_names 3
      ≡ (if 3 == 3 then none else Maps.get index_eq seen.if_names 3))
    × (Maps.get index_eq (link_event wlan false seen).1.if_mtu 3
        ≡ (if 3 == 3 then none else Maps.get index_eq seen.if_mtu 3))
    × (addresses_of 3 (link_event wlan false seen).1 ≡ (if 3 == 3 then [] else addresses_of 3 seen))
    × ((v6 : Bool) → flag 3 v6 (link_event wlan false seen).1 ≡ (not (3 == 3) && flag 3 v6 seen))
link_event-forgets_example = link_event-forgets wlan seen 3

abbrev warnings_of_links : EventFilter
warnings_of_links = record {
  links = true;
  addresses = false;
  routes = false;
  rules = false;
  neighbors = false;
  sockets = false;
  socket_uids = [];
  exclude_neighbor_probe_noise = true;
  min_severity = Severity.notice;
}

abbrev removed : NetworkEvent
removed = (link_event wlan false seen).0

taken :
    (matches_filter removed warnings_of_links ≡ true)
    × (matches_filter (link_event wlan true seen).0 warnings_of_links ≡ false)
unfolding matches_filter link_event
taken = (refl, refl)
