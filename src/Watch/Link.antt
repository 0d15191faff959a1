-- ===== src/Watch/Link.antt =====
-- daemon/src/watch.rs: `link_event`.
use netdiag.Prelude.{
  ℕ, String, Bool, not, ◌&&◌, ◌||◌, some, List, [], ◌∷◌, ◌!=◌, if◌then◌else◌, str_eq, concat, show,
}
use netdiag.Prelude.Maps
use netdiag.Watch.Severity
use netdiag.Watch.Model.{
  LinkAttribute, LinkMessage, Payload, NetworkEvent, base_event, StateCache, index_eq, value_or,
  without, if_index,
}

-- The name and the MTU that the attributes leave.
unfoldable pub read_link : List LinkAttribute → String → ℕ → String × ℕ
read_link [] name mtu = (name, mtu)
read_link (LinkAttribute.if_name n ∷ rest) name mtu = read_link rest n mtu
read_link (LinkAttribute.mtu m ∷ rest) name mtu = read_link rest name m
read_link (LinkAttribute.other ∷ rest) name mtu = read_link rest name mtu

unfoldable pub link_name : ℕ → String → String
link_name index name = if str_eq name "" then if_index index else name

unfoldable pub remember_link : ℕ → String → ℕ → StateCache → StateCache
remember_link index name mtu c = record c {
  if_names = Maps.put index_eq index name c.if_names;
  if_mtu = if mtu != 0 then Maps.put index_eq index mtu c.if_mtu else c.if_mtu;
}

-- All that is known of the interface but its neighbours.
unfoldable pub forget_link : ℕ → StateCache → StateCache
forget_link index c = record c {
  if_names = Maps.remove index_eq index c.if_names;
  if_mtu = Maps.remove index_eq index c.if_mtu;
  has_global_v4 = without index c.has_global_v4;
  has_global_v6 = without index c.has_global_v6;
  addresses = Maps.remove index_eq index c.addresses;
}

unfoldable pub link_summary : Bool → String → Bool → ℕ → ℕ → Bool → Bool → String
link_summary added name mtu_changed previous_mtu mtu up running =
    if not added
    then concat (name ∷ " removed" ∷ [])
    else if mtu_changed
    then concat (name ∷ " MTU " ∷ show previous_mtu ∷ " -> " ∷ show mtu ∷ [])
    else if up && running
    then concat (name ∷ " up" ∷ [])
    else if up
    then concat (name ∷ " up, no carrier" ∷ [])
    else concat (name ∷ " down" ∷ [])

abbrev pub link_severity : Bool → Bool → ℕ
link_severity added up = if not added || not up then Severity.notice else Severity.info

-- The event of an interface whose name and MTU are known.
unfoldable pub named_link_event : LinkMessage → Bool → String → ℕ → ℕ → NetworkEvent
unfolding link_summary base_event
named_link_event msg added name mtu previous_mtu =
    let mtu_changed = mtu != 0 && previous_mtu != 0 && mtu != previous_mtu in
    base_event (link_severity added msg.up)
      (link_summary added name mtu_changed previous_mtu mtu msg.up msg.running)
      (Payload.link (record {
        added = added;
        interface = some (record { index = msg.index; name = name; mtu = mtu });
        went_up = added && msg.up;
        went_down = added && not msg.up;
        mtu_changed = mtu_changed;
        previous_mtu = previous_mtu;
      }))

unfoldable pub link_event : LinkMessage → Bool → StateCache → NetworkEvent × StateCache
unfolding read_link named_link_event remember_link forget_link link_name
link_event msg added c =
    let known = value_or "" (Maps.get index_eq c.if_names msg.index) in
    let read = read_link msg.attributes known 0 in
    let name = link_name msg.index read.0 in
    let mtu = read.1 in
    let previous_mtu = value_or 0 (Maps.get index_eq c.if_mtu msg.index) in
    (
      named_link_event msg added name mtu previous_mtu,
      if added then remember_link msg.index name mtu c else forget_link msg.index c,
    )
