-- ===== src/Watch/Edges.antt =====
-- When an address event of daemon/src/watch.rs says that a family is gained or lost, and what a removed
-- interface leaves in the cache.
use netdiag.Prelude.{
  ℕ, String, ◌≡◌, refl, ap, Bool, true, false, not, ◌&&◌, ◌||◌, Option, none, some, List, [], arith,
  ◌==◌, if◌then◌else◌, any, contains-filter,
}
use netdiag.Prelude.Maps
use netdiag.Routes.Model.{IpAddr, is_ipv6}
use netdiag.Watch.Model.{
  AddressMessage, LinkMessage, Payload, base_event, StateCache, index_eq, value_or,
}
use netdiag.Watch.Link.{link_event, forget_link}
use netdiag.Watch.Address.{
  addresses_of, untrack, track_if, track, is_of_family, any_left, update_global,
  named_address_event, event_at,
}
use netdiag.Watch.Follow.{flag, now-has}

-- `family_gained` and `family_lost` of an event about an address.
unfoldable pub edges_of : Option Payload → Bool × Bool
edges_of none = (false, false)
edges_of (some (Payload.link e)) = (false, false)
edges_of (some (Payload.address e)) = (e.family_gained, e.family_lost)
edges_of (some (Payload.route e)) = (false, false)
edges_of (some (Payload.rule e)) = (false, false)
edges_of (some (Payload.neighbor e)) = (false, false)
edges_of (some (Payload.socket e)) = (false, false)
edges_of (some Payload.framework) = (false, false)
edges_of (some Payload.daemon) = (false, false)

pub index_eq_sound : (a b : ℕ) → index_eq a b ≡ true → a ≡ b
index_eq_sound a b h = ground arith

pub index_eq_self : (a : ℕ) → index_eq a a ≡ true
index_eq_self a = ground arith

-- Whether another address of the family is tracked.
abbrev pub others_left : AddressMessage → IpAddr → StateCache → Bool
others_left msg ip c =
    any (is_of_family (is_ipv6 ip)) (untrack (ip, msg.prefix_len) (addresses_of msg.index c))

left-track :
    (msg : AddressMessage) (added : Bool) (ip : IpAddr) (c : StateCache)
    → added ≡ false
    → any_left msg.index (is_ipv6 ip) (track msg.index added (ip, msg.prefix_len) c)
      ≡ others_left msg ip c
unfolding any_left track
left-track msg true ip c h = cc
left-track msg false ip c h =
    ap (λ o. any (is_of_family (is_ipv6 ip)) (value_or [] o))
      (Maps.get-put index_eq index_eq_sound index_eq_self msg.index
        (track_if false (ip, msg.prefix_len) (addresses_of msg.index c)) c.addresses)

edges-now :
    (had global added left others : Bool)
    → (added ≡ false → left ≡ others)
    → ◌≡◌ {A = Bool × Bool}
        (
          not had && (if global then added || left else had),
          had && not (if global then added || left else had),
        )
        (not had && global && (added || others), had && global && not added && not others)
edges-now true true true left others h = refl
edges-now false true true left others h = refl
edges-now true true false left others h = rw (h refl) refl
edges-now false true false left others h = rw (h refl) refl
edges-now true false added left others h = refl
edges-now false false added left others h = refl

module _ (ip_text : List ℕ → String) where
  -- An event says that a family is gained exactly where the interface was not known to have it and a global address
  -- was added, or was removed while another address of the family, of any scope, is tracked; and that
  -- it is lost exactly where the interface was known to have it and a global address was removed while no other
  -- address of the family, of any scope, is tracked.
  pub event_at-edges :
      (msg : AddressMessage) (added : Bool) (ip : IpAddr) (c : StateCache)
      → edges_of (event_at ip_text msg added ip c).0.payload ≡ (
        not (flag msg.index (is_ipv6 ip) c) && msg.is_universe && (added || others_left msg ip c),
        flag msg.index (is_ipv6 ip) c && msg.is_universe && not added && not (others_left msg ip c),
      )
  unfolding edges_of event_at named_address_event base_event update_global track
  event_at-edges msg added ip c =
      let tracked = track msg.index added (ip, msg.prefix_len) c in
      rw (now-has msg.index (is_ipv6 ip) msg.is_universe added tracked) (
        edges-now (flag msg.index (is_ipv6 ip) c) msg.is_universe added
          (any_left msg.index (is_ipv6 ip) tracked) (others_left msg ip c)
          (left-track msg added ip c))

-- A removed interface leaves no name, no MTU, no addresses and no family behind, and of every other interface
-- the cache keeps what it had.
pub link_event-forgets :
    (msg : LinkMessage) (c : StateCache) (index : ℕ)
    → (let after = (link_event msg false c).1 in
        let gone = msg.index == index in
        (Maps.get index_eq after.if_names index
          ≡ (if gone then none else Maps.get index_eq c.if_names index))
        × (Maps.get index_eq after.if_mtu index
            ≡ (if gone then none else Maps.get index_eq c.if_mtu index))
        × (addresses_of index after ≡ (if gone then [] else addresses_of index c))
        × ((v6 : Bool) → flag index v6 after ≡ (not gone && flag index v6 c)))
unfolding link_event forget_link
link_event-forgets msg c index = (
  Maps.get-remove_if index_eq index_eq_sound index_eq_self msg.index index c.if_names,
  Maps.get-remove_if index_eq index_eq_sound index_eq_self msg.index index c.if_mtu,
  rw (Maps.get-remove_if index_eq index_eq_sound index_eq_self msg.index index c.addresses)
      (ground arith),
  λ v6. ground (
    arith,
    contains-filter msg.index index c.has_global_v6,
    contains-filter msg.index index c.has_global_v4,
  ),
)
