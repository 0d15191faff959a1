-- ===== src/Watch/Entries.antt =====
-- daemon/src/watch.rs: `route_event`, `rule_event` and `neighbor_event`.
use netdiag.Prelude.{
  ℕ, String, Bool, true, false, not, ◌&&◌, ◌||◌, Option, none, some, List, [], ◌∷◌, ◌==◌,
  if◌then◌else◌, length, first, str_eq, concat, show, show_hex,
}
use netdiag.Prelude.Maps
use netdiag.Capture.Shown.{display}
use netdiag.Routes.Model.{IpPrefix, NextHop, Route, RouteMessage, RoutingRule, RuleMessage}
use netdiag.Routes.Convert.{route_to_proto}
use netdiag.Routes.Rules.{rule_to_proto}
use netdiag.Neigh.Table.{NeighborState, is_usable, Neighbor, NeighbourMessage, neighbor_to_proto}
use netdiag.Watch.Severity
use netdiag.Watch.Model.{
  Payload, NetworkEvent, base_event, NeighborKey, key_eq, StateCache, value_or, if_index,
}

abbrev pub verb : Bool → String
verb added = if added then "added" else "removed"

abbrev pub selector : RoutingRule → String
selector rule =
    if rule.has_uid_range
    then concat (" uidrange " ∷ show rule.uid_range_start ∷ "-" ∷ show rule.uid_range_end ∷ [])
    else if rule.has_fwmark
    then concat (" fwmark 0x" ∷ show_hex rule.fwmark ∷ "/0x" ∷ show_hex rule.fwmask ∷ [])
    else ""

unfoldable pub rule_event : RuleMessage → Bool → NetworkEvent
unfolding base_event
rule_event msg added =
    let rule = rule_to_proto msg in
    base_event Severity.notice
      (concat (
        "rule "
        ∷ verb added
        ∷ ": priority "
        ∷ show rule.priority
        ∷ selector rule
        ∷ " lookup "
        ∷ show rule.table
        ∷ []))
      (Payload.rule (record { added = added; rule = some rule }))

-- `{state:?}`
abbrev pub state_name : NeighborState → String
state_name NeighborState.unspecified = "Unspecified"
state_name NeighborState.incomplete = "Incomplete"
state_name NeighborState.reachable = "Reachable"
state_name NeighborState.stale = "Stale"
state_name NeighborState.delay = "Delay"
state_name NeighborState.probe = "Probe"
state_name NeighborState.failed = "Failed"
state_name NeighborState.noarp = "Noarp"
state_name NeighborState.permanent = "Permanent"
state_name NeighborState.none_ = "None"

abbrev pub is_unspecified : NeighborState → Bool
is_unspecified NeighborState.unspecified = true
is_unspecified NeighborState.incomplete = false
is_unspecified NeighborState.reachable = false
is_unspecified NeighborState.stale = false
is_unspecified NeighborState.delay = false
is_unspecified NeighborState.probe = false
is_unspecified NeighborState.failed = false
is_unspecified NeighborState.noarp = false
is_unspecified NeighborState.permanent = false
is_unspecified NeighborState.none_ = false

abbrev pub bool_eq : Bool → Bool → Bool
bool_eq a b = if a then b else not b

-- The transition is not worth an event.
unfoldable pub is_noise : Bool → NeighborState → NeighborState → Bool
unfolding is_usable
is_noise added previous state =
    added && bool_eq (is_usable previous) (is_usable state) && not (is_unspecified previous)

unfoldable pub set_neighbor_state : Bool → NeighborKey → NeighborState → StateCache → StateCache
set_neighbor_state added key state c = record c {
  neighbor_states =
      if added
      then Maps.put key_eq key state c.neighbor_states
      else Maps.remove key_eq key (Maps.put key_eq key state c.neighbor_states);
}

module _ (ip_text : List ℕ → String) where
  -- `IpPrefix::display`
  unfoldable pub display_prefix : IpPrefix → String
  display_prefix p = elim p.address [
    | none ↦ concat ("*/" ∷ show p.prefix_len ∷ [])
    | some addr ↦
        if length addr == 4 || length addr == 16
        then concat (ip_text addr ∷ "/" ∷ show p.prefix_len ∷ [])
        else concat ("*/" ∷ show p.prefix_len ∷ [])
  ]

  unfoldable pub destination_text : Option IpPrefix → Bool → String
  unfolding display_prefix
  destination_text none is_default = "?"
  destination_text (some d) is_default = if is_default then "default" else display_prefix d

  abbrev pub via_text : Option (List ℕ) → String
  via_text none = ""
  via_text (some g) = concat (" via " ∷ display ip_text g ∷ [])

  abbrev pub dev_text : String → String
  dev_text name = if str_eq name "" then "" else concat (" dev " ∷ name ∷ [])

  -- `via` and `dev` of the first hop.
  abbrev pub hop_text : Option NextHop → String
  hop_text none = ""
  hop_text (some hop) = concat (via_text hop.gateway ∷ dev_text hop.out_interface_name ∷ [])

  unfoldable pub event_of_route : Route → Bool → NetworkEvent
  unfolding destination_text base_event
  event_of_route route added =
      base_event (if route.is_default then Severity.notice else Severity.debug)
        (concat (
          "route "
          ∷ verb added
          ∷ ": "
          ∷ destination_text route.destination route.is_default
          ∷ hop_text (first route.next_hops)
          ∷ " table "
          ∷ show route.table
          ∷ []))
        (Payload.route
          (record { added = added; default_route_changed = route.is_default; route = some route }))

  unfoldable pub route_event : RouteMessage → Bool → StateCache → NetworkEvent
  unfolding event_of_route
  route_event msg added c = event_of_route (route_to_proto msg c.if_names) added

  unfoldable pub neighbor_summary : Bool → NeighborState → String → String → String
  unfolding is_usable
  neighbor_summary added state address name =
      if not added
      then concat ("neighbour " ∷ address ∷ " removed on " ∷ name ∷ [])
      else if is_usable state
      then concat ("neighbour " ∷ address ∷ " reachable on " ∷ name ∷ [])
      else concat ("neighbour " ∷ address ∷ " is " ∷ state_name state ∷ " on " ∷ name ∷ [])

  unfoldable pub event_of_neighbor : Neighbor → List ℕ → Bool → NeighborState → NetworkEvent
  unfolding neighbor_summary is_usable base_event
  event_of_neighbor n addr added previous =
      let name =
        if str_eq n.interface_name "" then if_index n.interface_index else n.interface_name in
      base_event (if added && not (is_usable n.state) then Severity.warning else Severity.info)
        (neighbor_summary added n.state (display ip_text addr) name)
        (Payload.neighbor (record {
          added = added;
          neighbor = some n;
          previous_state = previous;
          is_gateway = n.is_router;
        }))

  unfoldable pub report_neighbor :
      Neighbor → List ℕ → Bool → StateCache → Option NetworkEvent × StateCache
  unfolding event_of_neighbor is_noise set_neighbor_state
  report_neighbor n addr added c =
      let key : NeighborKey = (n.interface_index, addr) in
      let previous = value_or NeighborState.unspecified (Maps.get key_eq c.neighbor_states key) in
      let after = set_neighbor_state added key n.state c in
      (
        if is_noise added previous n.state
            then none
            else some (event_of_neighbor n addr added previous),
        after,
      )

  abbrev pub with_address :
      Option (List ℕ) → Neighbor → Bool → StateCache → Option NetworkEvent × StateCache
  with_address none n added c = (none, c)
  with_address (some addr) n added c = report_neighbor n addr added c

  unfoldable pub neighbor_event :
      NeighbourMessage → Bool → StateCache → Option NetworkEvent × StateCache
  unfolding report_neighbor
  neighbor_event msg added c =
      let n = neighbor_to_proto msg c.if_names in with_address n.address n added c
