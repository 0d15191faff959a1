-- ===== src/Neigh/Table.antt =====
-- daemon/src/collect/neigh.rs: `neighbor_to_proto`, `is_usable`, `find_gateway`, and what `get_neighbors` does
-- with the messages of the kernel's dump. An attribute that the source does not look at is `other`.
use netdiag.Prelude.{
  ℕ, ◌*◌, min, String, Bool, true, false, not, ◌&&◌, ◌||◌, Option, none, some, List, [], ◌∷◌, ltb,
  ◌==◌, ◌!=◌, if◌then◌else◌, length, find,
}
use netdiag.Prelude.Sort.{sort_by}
use netdiag.Routes.Model.{IpAddr, octets, AddressFamily, RouteAddress}
use netdiag.Routes.Convert.{Names, interface_name, family_to_proto, route_address_to_ip, from_ip}

-- proto/netdiag/v1/route.proto
pub data NeighborState : Type 0 where
  unspecified incomplete reachable stale delay probe failed noarp permanent none_ : NeighborState

pub record Neighbor : Type 0 where
  pub family : ℕ
  pub address : Option (List ℕ)
  pub link_address : List ℕ
  pub interface_index : ℕ
  pub interface_name : String
  pub state : NeighborState
  pub is_router : Bool
  pub flags : ℕ
  pub confirmed_ms : ℕ
  pub used_ms : ℕ
  pub updated_ms : ℕ
  pub probes : ℕ

-- The states of the netlink library, of which the source names these.
pub data NeighbourState : Type 0 where
  incomplete reachable stale delay probe failed noarp permanent none_ other : NeighbourState

-- `cache_info confirmed used updated`
pub data NeighbourAttribute : Type 0 where
  destination : RouteAddress → NeighbourAttribute
  link_layer_address : List ℕ → NeighbourAttribute
  probes : ℕ → NeighbourAttribute
  cache_info : ℕ → ℕ → ℕ → NeighbourAttribute
  other : NeighbourAttribute

-- `is_router` is the flag `NeighbourFlags::Router` of `flags`.
pub record NeighbourMessage : Type 0 where
  pub family : AddressFamily
  pub ifindex : ℕ
  pub state : NeighbourState
  pub is_router : Bool
  pub flags : ℕ
  pub attributes : List NeighbourAttribute

abbrev pub neighbour_state_to_proto : NeighbourState → NeighborState
neighbour_state_to_proto NeighbourState.incomplete = NeighborState.incomplete
neighbour_state_to_proto NeighbourState.reachable = NeighborState.reachable
neighbour_state_to_proto NeighbourState.stale = NeighborState.stale
neighbour_state_to_proto NeighbourState.delay = NeighborState.delay
neighbour_state_to_proto NeighbourState.probe = NeighborState.probe
neighbour_state_to_proto NeighbourState.failed = NeighborState.failed
neighbour_state_to_proto NeighbourState.noarp = NeighborState.noarp
neighbour_state_to_proto NeighbourState.permanent = NeighborState.permanent
neighbour_state_to_proto NeighbourState.none_ = NeighborState.none_
neighbour_state_to_proto NeighbourState.other = NeighborState.unspecified

unfoldable pub is_usable : NeighborState → Bool
is_usable NeighborState.unspecified = false
is_usable NeighborState.incomplete = false
is_usable NeighborState.reachable = true
is_usable NeighborState.stale = true
is_usable NeighborState.delay = true
is_usable NeighborState.probe = true
is_usable NeighborState.failed = false
is_usable NeighborState.noarp = true
is_usable NeighborState.permanent = true
is_usable NeighborState.none_ = false

-- `saturating_mul(10)` of a u32
abbrev pub centiseconds : ℕ → ℕ
centiseconds n = min (n * 10) 0xffffffff

unfoldable pub read_neighbour_attribute : NeighbourAttribute → Neighbor → Neighbor
read_neighbour_attribute (NeighbourAttribute.destination a) n = record n {
  address = from_ip (route_address_to_ip a);
}
read_neighbour_attribute (NeighbourAttribute.link_layer_address mac) n = record n {
  link_address = mac;
}
read_neighbour_attribute (NeighbourAttribute.probes p) n = record n { probes = p }
read_neighbour_attribute (NeighbourAttribute.cache_info confirmed used updated) n = record n {
  confirmed_ms = centiseconds confirmed;
  used_ms = centiseconds used;
  updated_ms = centiseconds updated;
}
read_neighbour_attribute NeighbourAttribute.other n = n

unfoldable pub read_neighbour_attributes : List NeighbourAttribute → Neighbor → Neighbor
unfolding read_neighbour_attribute
read_neighbour_attributes [] n = n
read_neighbour_attributes (a ∷ rest) n =
    read_neighbour_attributes rest (read_neighbour_attribute a n)

abbrev pub start_neighbor : NeighbourMessage → Names → Neighbor
start_neighbor msg names = record {
  family = family_to_proto msg.family;
  address = none;
  link_address = [];
  interface_index = msg.ifindex;
  interface_name = interface_name names msg.ifindex;
  state = neighbour_state_to_proto msg.state;
  is_router = msg.is_router;
  flags = msg.flags;
  confirmed_ms = 0;
  used_ms = 0;
  updated_ms = 0;
  probes = 0;
}

unfoldable pub neighbor_to_proto : NeighbourMessage → Names → Neighbor
unfolding read_neighbour_attributes
neighbor_to_proto msg names = read_neighbour_attributes msg.attributes (start_neighbor msg names)

-- Two addresses, equal byte for byte.
unfoldable pub same_bytes : List ℕ → List ℕ → Bool
same_bytes [] [] = true
same_bytes [] (b ∷ bs) = false
same_bytes (a ∷ as_) [] = false
same_bytes (a ∷ as_) (b ∷ bs) = a == b && same_bytes as_ bs

-- `IpAddress::to_ip` is defined for 4 and for 16 bytes.
abbrev pub is_address : List ℕ → Option (List ℕ) → Bool
is_address gateway none = false
is_address gateway (some addr) = (length addr == 4 || length addr == 16) && same_bytes addr gateway

unfoldable pub find_gateway : List Neighbor → IpAddr → ℕ → Option Neighbor
unfolding same_bytes
find_gateway neighbors gateway index =
    find (λ n. is_address (octets gateway) n.address && (index == 0 || n.interface_index == index))
      neighbors

-- What `get_neighbors` is asked for; zero means any interface.
pub record NeighborQuery : Type 0 where
  pub interface_index : ℕ
  pub only_routers : Bool

unfoldable pub is_wanted : NeighborQuery → Neighbor → Bool
is_wanted q n =
    if q.interface_index != 0 && n.interface_index != q.interface_index
    then false
    else if q.only_routers && not n.is_router
    then false
    else true

-- Rust's order of byte strings, and of options: none comes first.
unfoldable pub bytes_before : List ℕ → List ℕ → Bool
bytes_before as_ [] = false
bytes_before [] (b ∷ bs) = true
bytes_before (a ∷ as_) (b ∷ bs) = if a == b then bytes_before as_ bs else ltb a b

abbrev pub address_before : Option (List ℕ) → Option (List ℕ) → Bool
address_before a none = false
address_before none (some b) = true
address_before (some a) (some b) = bytes_before a b

unfoldable pub is_before : Neighbor → Neighbor → Bool
unfolding bytes_before
is_before a b =
    if a.interface_index == b.interface_index
    then address_before a.address b.address
    else ltb a.interface_index b.interface_index

unfoldable pub collect_neighbors : NeighborQuery → Names → List NeighbourMessage → List Neighbor
unfolding neighbor_to_proto is_wanted
collect_neighbors q names [] = []
collect_neighbors q names (msg ∷ msgs) =
    let n = neighbor_to_proto msg names in
    let rest = collect_neighbors q names msgs in if is_wanted q n then n ∷ rest else rest

unfoldable pub get_neighbors : NeighborQuery → Names → List NeighbourMessage → List Neighbor
unfolding is_before collect_neighbors
get_neighbors q names msgs = sort_by is_before (collect_neighbors q names msgs)
