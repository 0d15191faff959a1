-- ===== src/Watch/Model.antt =====
-- daemon/src/watch.rs: `StateCache`, and the messages of proto/netdiag/v1/event.proto with the fields that the
-- watcher fills. Of the netlink messages, the attributes that it looks at; `other` is any further one.
use netdiag.Prelude.{
  ℕ, String, Bool, false, ◌&&◌, Option, none, some, List, [], ◌∷◌, ◌==◌, ◌!=◌, filter, concat, show,
}
use netdiag.Routes.Model.{IpAddr, IpPrefix, Route, RoutingRule, RouteMessage, RuleMessage}
use netdiag.Routes.Convert.{Names}
use netdiag.Neigh.Table.{NeighborState, Neighbor, NeighbourMessage, same_bytes}

-- `EventSource::Kernel` and `EventSource::Daemon`
abbrev pub source_kernel : ℕ
source_kernel = 1

abbrev pub source_daemon : ℕ
source_daemon = 3

pub data LinkAttribute : Type 0 where
  if_name : String → LinkAttribute
  mtu : ℕ → LinkAttribute
  other : LinkAttribute

-- `up` and `running` are flags of the header.
pub record LinkMessage : Type 0 where
  pub index : ℕ
  pub up : Bool
  pub running : Bool
  pub attributes : List LinkAttribute

pub data AddressAttribute : Type 0 where
  local address : IpAddr → AddressAttribute
  other : AddressAttribute

-- `is_universe` says that the scope is `AddressScope::Universe`.
pub record AddressMessage : Type 0 where
  pub index : ℕ
  pub prefix_len : ℕ
  pub is_universe : Bool
  pub attributes : List AddressAttribute

pub data Message : Type 0 where
  new_link del_link : LinkMessage → Message
  new_address del_address : AddressMessage → Message
  new_route del_route : RouteMessage → Message
  new_rule del_rule : RuleMessage → Message
  new_neighbour del_neighbour : NeighbourMessage → Message
  other : Message

-- `Interface` with the fields that `link_event` fills.
pub record Interface : Type 0 where
  pub index : ℕ
  pub name : String
  pub mtu : ℕ

pub record LinkEvent : Type 0 where
  pub added : Bool
  pub interface : Option Interface
  pub went_up : Bool
  pub went_down : Bool
  pub mtu_changed : Bool
  pub previous_mtu : ℕ

-- `LinkAddress` with the fields that `address_event` fills; `is_global` stands for its scope.
pub record LinkAddress : Type 0 where
  pub prefix : Option IpPrefix
  pub is_global : Bool

pub record AddressEvent : Type 0 where
  pub added : Bool
  pub interface_index : ℕ
  pub interface_name : String
  pub address : Option LinkAddress
  pub family_gained : Bool
  pub family_lost : Bool
  pub family : ℕ

pub record RouteEvent : Type 0 where
  pub added : Bool
  pub default_route_changed : Bool
  pub route : Option Route

pub record RuleEvent : Type 0 where
  pub added : Bool
  pub rule : Option RoutingRule

pub record NeighborEvent : Type 0 where
  pub added : Bool
  pub neighbor : Option Neighbor
  pub previous_state : NeighborState
  pub is_gateway : Bool

-- A socket event by the uid of its socket; of a framework event and of a daemon event nothing is read.
pub data Payload : Type 0 where
  link : LinkEvent → Payload
  address : AddressEvent → Payload
  route : RouteEvent → Payload
  rule : RuleEvent → Payload
  neighbor : NeighborEvent → Payload
  socket : Option ℕ → Payload
  framework daemon : Payload

pub record NetworkEvent : Type 0 where
  pub unix_ms : ℕ
  pub monotonic_ns : ℕ
  pub source : ℕ
  pub severity : ℕ
  pub summary : String
  pub sequence : ℕ
  pub payload : Option Payload

-- `base_event`, with its payload.
unfoldable pub base_event : ℕ → String → Payload → NetworkEvent
base_event severity summary payload = record {
  unix_ms = 0;
  monotonic_ns = 0;
  source = source_kernel;
  severity = severity;
  summary = summary;
  sequence = 0;
  payload = some payload;
}

-- An address with its prefix length. The cache keeps the text `{ip}/{len}`, which has the two parts.
abbrev pub Tracked : Type 0
Tracked = IpAddr × ℕ

abbrev pub ip_eq : IpAddr → IpAddr → Bool
ip_eq (IpAddr.v4 a) (IpAddr.v4 b) = same_bytes a b
ip_eq (IpAddr.v6 a) (IpAddr.v6 b) = same_bytes a b
ip_eq (IpAddr.v4 a) (IpAddr.v6 b) = false
ip_eq (IpAddr.v6 a) (IpAddr.v4 b) = false

abbrev pub tracked_eq : Tracked → Tracked → Bool
tracked_eq (a, n) (b, m) = ip_eq a b && n == m

-- The key of a neighbour: the interface and the address's bytes, of which the source keeps the text.
abbrev pub NeighborKey : Type 0
NeighborKey = ℕ × List ℕ

abbrev pub key_eq : NeighborKey → NeighborKey → Bool
key_eq (i, a) (j, b) = i == j && same_bytes a b

pub record StateCache : Type 0 where
  pub if_names : Names
  pub if_mtu : List (ℕ × ℕ)
  pub has_global_v4 : List ℕ
  pub has_global_v6 : List ℕ
  pub addresses : List (ℕ × List Tracked)
  pub neighbor_states : List (NeighborKey × NeighborState)

-- `StateCache::default()`
abbrev pub empty_cache : StateCache
empty_cache = record {
  if_names = [];
  if_mtu = [];
  has_global_v4 = [];
  has_global_v6 = [];
  addresses = [];
  neighbor_states = [];
}

abbrev pub index_eq : ℕ → ℕ → Bool
index_eq a b = a == b

abbrev pub value_or {ℓ} : {A : Type ℓ} → A → Option A → A
value_or default none = default
value_or default (some a) = a

-- `HashSet::remove` and `HashSet::insert` of indices.
abbrev pub without : ℕ → List ℕ → List ℕ
without index set = filter (λ i. i != index) set

abbrev pub with_index : ℕ → List ℕ → List ℕ
with_index index set = index ∷ without index set

-- `if{index}`
abbrev pub if_index : ℕ → String
if_index index = concat ("if" ∷ show index ∷ [])
