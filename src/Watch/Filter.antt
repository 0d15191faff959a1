-- ===== src/Watch/Filter.antt =====
-- daemon/src/watch.rs: `matches_filter`. Severities are i32s, by their bit patterns.
use netdiag.Prelude.{
  ℕ, Bool, true, false, not, ◌&&◌, ◌||◌, Option, none, some, List, if◌then◌else◌, is_empty,
  contains,
}
use netdiag.Correlate.Model.{i32_le}
use netdiag.Neigh.Table.{NeighborState, Neighbor}
use netdiag.Watch.Model.{NeighborEvent, Payload, NetworkEvent}

pub record EventFilter : Type 0 where
  pub links : Bool
  pub addresses : Bool
  pub routes : Bool
  pub rules : Bool
  pub neighbors : Bool
  pub sockets : Bool
  pub socket_uids : List ℕ
  pub exclude_neighbor_probe_noise : Bool
  pub min_severity : ℕ

unfoldable pub nothing_selected : EventFilter → Bool
nothing_selected f =
    not f.links
    && not f.addresses
    && not f.routes
    && not f.rules
    && not f.neighbors
    && not f.sockets

unfoldable pub state_of : Option Neighbor → NeighborState
state_of none = NeighborState.unspecified
state_of (some n) = n.state

unfoldable pub is_probing : NeighborState → Bool
is_probing NeighborState.unspecified = false
is_probing NeighborState.incomplete = false
is_probing NeighborState.reachable = false
is_probing NeighborState.stale = false
is_probing NeighborState.delay = true
is_probing NeighborState.probe = true
is_probing NeighborState.failed = false
is_probing NeighborState.noarp = false
is_probing NeighborState.permanent = false
is_probing NeighborState.none_ = false

unfoldable pub takes_neighbor : NeighborEvent → EventFilter → Bool
unfolding state_of is_probing nothing_selected
takes_neighbor e f =
    if not (nothing_selected f || f.neighbors)
    then false
    else if f.exclude_neighbor_probe_noise
    then (if is_probing (state_of e.neighbor) then false else true)
    else true

abbrev pub has_uid : Option ℕ → List ℕ → Bool
has_uid none uids = false
has_uid (some uid) uids = contains uids uid

unfoldable pub takes_socket : Option ℕ → EventFilter → Bool
unfolding nothing_selected
takes_socket socket f =
    if not (nothing_selected f || f.sockets)
    then false
    else if is_empty f.socket_uids
    then true
    else has_uid socket f.socket_uids

unfoldable pub takes_payload : Option Payload → EventFilter → Bool
unfolding takes_neighbor takes_socket nothing_selected
takes_payload none f = true
takes_payload (some (Payload.link e)) f = nothing_selected f || f.links
takes_payload (some (Payload.address e)) f = nothing_selected f || f.addresses
takes_payload (some (Payload.route e)) f = nothing_selected f || f.routes
takes_payload (some (Payload.rule e)) f = nothing_selected f || f.rules
takes_payload (some (Payload.neighbor e)) f = takes_neighbor e f
takes_payload (some (Payload.socket s)) f = takes_socket s f
takes_payload (some Payload.framework) f = true
takes_payload (some Payload.daemon) f = true

unfoldable pub matches_filter : NetworkEvent → EventFilter → Bool
unfolding takes_payload
matches_filter event f =
    if not (i32_le f.min_severity event.severity) then false else takes_payload event.payload f
