-- ===== src/Watch/Address.antt =====
-- daemon/src/watch.rs: `address_event`. `ip_text` is the text that the standard library gives an address of 4
-- or 16 bytes.
use netdiag.Prelude.{
  ℕ, String, Bool, true, false, not, ◌&&◌, Option, none, some, List, [], ◌∷◌, if◌then◌else◌, any,
  filter, contains, concat, show,
}
use netdiag.Prelude.Maps
use netdiag.Capture.Model.{family_v4, family_v6}
use netdiag.Routes.Model.{IpAddr, octets, is_ipv6, new_prefix}
use netdiag.Watch.Severity
use netdiag.Watch.Model.{
  AddressAttribute, AddressMessage, Payload, NetworkEvent, base_event, Tracked, tracked_eq,
  StateCache, index_eq, value_or, without, with_index, if_index,
}

-- The last local address, or else the first address of the attributes.
unfoldable pub read_address : List AddressAttribute → Option IpAddr → Option IpAddr
read_address [] ip = ip
read_address (AddressAttribute.local a ∷ rest) ip = read_address rest (some a)
read_address (AddressAttribute.address a ∷ rest) none = read_address rest (some a)
read_address (AddressAttribute.address a ∷ rest) (some ip) = read_address rest (some ip)
read_address (AddressAttribute.other ∷ rest) ip = read_address rest ip

abbrev pub addresses_of : ℕ → StateCache → List Tracked
addresses_of index c = value_or [] (Maps.get index_eq c.addresses index)

-- `HashSet::remove` and `HashSet::insert` of an address.
abbrev pub untrack : Tracked → List Tracked → List Tracked
untrack t set = filter (λ s. not (tracked_eq s t)) set

abbrev pub track_if : Bool → Tracked → List Tracked → List Tracked
track_if added t set = let rest = untrack t set in if added then t ∷ rest else rest

-- `entry(index).or_default()`, with the address inserted or removed.
unfoldable pub track : ℕ → Bool → Tracked → StateCache → StateCache
track index added t c = record c {
  addresses = Maps.put index_eq index (track_if added t (addresses_of index c)) c.addresses;
}

-- The set of the family, read and written.
abbrev pub has_global : Bool → StateCache → List ℕ
has_global v6 c = if v6 then c.has_global_v6 else c.has_global_v4

abbrev pub set_global : Bool → List ℕ → StateCache → StateCache
set_global true set c = record c { has_global_v6 = set }
set_global false set c = record c { has_global_v4 = set }

abbrev pub is_of_family : Bool → Tracked → Bool
is_of_family v6 (ip, len) = if v6 then is_ipv6 ip else not (is_ipv6 ip)

unfoldable pub any_left : ℕ → Bool → StateCache → Bool
any_left index v6 c = any (is_of_family v6) (addresses_of index c)

-- `has_now`, and the cache with the set of the family brought up to date; `c` has the address tracked.
unfoldable pub update_global : ℕ → Bool → Bool → Bool → StateCache → Bool × StateCache
unfolding any_left
update_global index v6 is_global added c =
    let left = any_left index v6 c in
    if not is_global
    then (contains (has_global v6 c) index, c)
    else if added
    then (true, set_global v6 (with_index index (has_global v6 c)) c)
    else (left, if left then c else set_global v6 (without index (has_global v6 c)) c)

abbrev pub family_name : Bool → String
family_name v6 = if v6 then "IPv6" else "IPv4"

unfoldable pub address_summary : Bool → Bool → Bool → Bool → String → String → String
address_summary gained lost added v6 name text =
    if gained
    then concat (name ∷ " gained " ∷ family_name v6 ∷ " (" ∷ text ∷ ")" ∷ [])
    else if lost
    then concat
        (name ∷ " lost " ∷ family_name v6 ∷ " (last global address " ∷ text ∷ " removed)" ∷ [])
    else if added
    then concat (name ∷ " address added " ∷ text ∷ [])
    else concat (name ∷ " address removed " ∷ text ∷ [])

abbrev pub address_severity : Bool → Bool → ℕ
address_severity gained lost =
    if lost then Severity.warning else if gained then Severity.notice else Severity.debug

module _ (ip_text : List ℕ → String) where
  unfoldable pub named_address_event :
      AddressMessage → Bool → IpAddr → String → Bool → Bool → NetworkEvent
  unfolding address_summary base_event
  named_address_event msg added ip name had has_now =
      let gained = not had && has_now in
      let lost = had && not has_now in
      let text = concat (ip_text (octets ip) ∷ "/" ∷ show msg.prefix_len ∷ []) in
      base_event (address_severity gained lost)
        (address_summary gained lost added (is_ipv6 ip) name text)
        (Payload.address (record {
          added = added;
          interface_index = msg.index;
          interface_name = name;
          address = some (record {
            prefix = some (new_prefix ip msg.prefix_len);
            is_global = msg.is_universe;
          });
          family_gained = gained;
          family_lost = lost;
          family = if is_ipv6 ip then family_v6 else family_v4;
        }))

  -- The rest of the handler, where the message has an address.
  unfoldable pub event_at : AddressMessage → Bool → IpAddr → StateCache → NetworkEvent × StateCache
  unfolding track update_global named_address_event
  event_at msg added ip c =
      let name = value_or (if_index msg.index) (Maps.get index_eq c.if_names msg.index) in
      let tracked = track msg.index added (ip, msg.prefix_len) c in
      let had = contains (has_global (is_ipv6 ip) c) msg.index in
      let now = update_global msg.index (is_ipv6 ip) msg.is_universe added tracked in
      (named_address_event msg added ip name had now.0, now.1)

  abbrev pub event_of :
      Option IpAddr → AddressMessage → Bool → StateCache → Option NetworkEvent × StateCache
  event_of none msg added c = (none, c)
  event_of (some ip) msg added c = (some (event_at msg added ip c).0, (event_at msg added ip c).1)

  unfoldable pub address_event :
      AddressMessage → Bool → StateCache → Option NetworkEvent × StateCache
  unfolding read_address event_at
  address_event msg added c = event_of (read_address msg.attributes none) msg added c
