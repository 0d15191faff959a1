-- ===== src/Watch/Follow.antt =====
-- Who reads the events of daemon/src/watch.rs, in order, knows which interfaces have a global address of which
-- family, as far as the watcher's cache does.
use netdiag.Prelude.{
  ℕ, String, ◌≡◌, refl, ap, ◌∙◌, inl, inr, Bool, true, false, not, ◌&&◌, ◌||◌, Option, none, some,
  List, [], ◌∷◌, arith, ◌==◌, if◌then◌else◌, ==_iff, Bool-cases, Option-cases, contains,
  contains-filter,
}
use netdiag.Capture.Model.{family_v4, family_v6}
use netdiag.Routes.Model.{IpAddr, is_ipv6}
use netdiag.Neigh.Table.{Neighbor, neighbor_to_proto}
use netdiag.Watch.Model.{
  AddressMessage, LinkMessage, Message, Interface, Payload, NetworkEvent, base_event, StateCache,
}
use netdiag.Watch.Link.{named_link_event, link_event, remember_link, forget_link}
use netdiag.Watch.Address.{
  read_address, track, has_global, any_left, update_global, event_at, address_event,
  named_address_event,
}
use netdiag.Watch.Entries.{
  bool_eq, report_neighbor, with_address, neighbor_event, set_neighbor_state, event_of_neighbor,
  rule_event, event_of_route, route_event,
}
use netdiag.Watch.Bus.{
  Clocks, EventBus, publish, publish_some, publish_daemon, Received, Watcher, translate, step,
  watch, run,
}

abbrev pub family_code : Bool → ℕ
family_code v6 = if v6 then family_v6 else family_v4

abbrev pub is_index : ℕ → Option Interface → Bool
is_index index none = false
is_index index (some i) = i.index == index

-- What an observer of one interface and one family knows after an event: a removed interface has no address, a
-- gain counts where an address was added.
unfoldable pub follow_payload : ℕ → Bool → Bool → Option Payload → Bool
follow_payload index v6 known none = known
follow_payload index v6 known (some (Payload.link e)) =
    if not e.added && is_index index e.interface then false else known
follow_payload index v6 known (some (Payload.address e)) =
    if e.interface_index == index && e.family == family_code v6
    then (if e.family_gained && e.added then true else if e.family_lost then false else known)
    else known
follow_payload index v6 known (some (Payload.route e)) = known
follow_payload index v6 known (some (Payload.rule e)) = known
follow_payload index v6 known (some (Payload.neighbor e)) = known
follow_payload index v6 known (some (Payload.socket e)) = known
follow_payload index v6 known (some Payload.framework) = known
follow_payload index v6 known (some Payload.daemon) = known

abbrev pub follow : ℕ → Bool → Bool → Option NetworkEvent → Bool
follow index v6 known none = known
follow index v6 known (some event) = follow_payload index v6 known event.payload

-- The newest event comes first.
unfoldable pub follow_all : ℕ → Bool → List NetworkEvent → Bool
follow_all index v6 [] = false
follow_all index v6 (event ∷ events) =
    follow_payload index v6 (follow_all index v6 events) event.payload

-- What the cache has.
abbrev pub flag : ℕ → Bool → StateCache → Bool
flag index v6 c = contains (has_global v6 c) index

link-follow :
    (msg : LinkMessage) (added : Bool) (c : StateCache) (index : ℕ) (v6 : Bool)
    → follow index v6 (flag index v6 c) (some (link_event msg added c).0)
      ≡ flag index v6 (link_event msg added c).1
unfolding link_event named_link_event base_event follow_payload remember_link forget_link
link-follow msg true c index true = refl
link-follow msg true c index false = refl
link-follow msg false c index true = ground (arith, contains-filter msg.index index c.has_global_v6)
link-follow msg false c index false =
    ground (arith, contains-filter msg.index index c.has_global_v4)

-- The flags after an address message, in terms of those before.
update-flag :
    (index : ℕ) (v6 is_global added : Bool) (c : StateCache) (j : ℕ) (w6 : Bool)
    → flag j w6 (update_global index v6 is_global added c).1 ≡ (
        if index == j && bool_eq v6 w6 && is_global
        then added || (any_left index v6 c && flag j w6 c)
        else flag j w6 c)
unfolding update_global
update-flag index v6 false added c j w6 = ground arith
update-flag index v6 true true c j w6 =
    ground (arith, contains-filter index j c.has_global_v6, contains-filter index j c.has_global_v4)
update-flag index v6 true false c j w6 = elim (Bool-cases (any_left index v6 c)) [
  | inl left ↦ ground (arith, left)
  | inr gone ↦ ground (
    arith,
    gone,
    contains-filter index j c.has_global_v6,
    contains-filter index j c.has_global_v4,
  )
]

pub now-has :
    (index : ℕ) (v6 is_global added : Bool) (c : StateCache)
    → (update_global index v6 is_global added c).0
      ≡ (if is_global then added || any_left index v6 c else flag index v6 c)
unfolding update_global
now-has index v6 true true c = refl
now-has index v6 true false c = refl
now-has index v6 false added c = refl

same-follow :
    (v6 w6 is_global added : Bool) (had : Bool → Bool) (left known : Bool)
    → had w6 ≡ known
    → (let now = if is_global then added || left else had v6 in
        if true && family_code v6 == family_code w6
        then (if (not (had v6) && now) && added
            then true
            else if had v6 && not now
            then false
            else known)
        else known)
      ≡ (if true && bool_eq v6 w6 && is_global then added || (left && known) else known)
same-follow true true is_global added had left known e = ground (arith, e)
same-follow false false is_global added had left known e = ground (arith, e)
same-follow true false is_global added had left known e = refl
same-follow false true is_global added had left known e = refl

update-follow :
    (index : ℕ) (v6 is_global added : Bool) (c : StateCache) (j : ℕ) (w6 : Bool)
    → (let now = (update_global index v6 is_global added c).0 in
        if index == j && family_code v6 == family_code w6
        then (if (not (flag index v6 c) && now) && added
            then true
            else if flag index v6 c && not now
            then false
            else flag j w6 c)
        else flag j w6 c)
      ≡ flag j w6 (update_global index v6 is_global added c).1
update-follow index v6 is_global added c j w6 = elim (Bool-cases (index == j)) [
  | inl here ↦
      let e : flag index w6 c ≡ flag j w6 c = ap (λ k. flag k w6 c) ((==_iff index j).0 here) in
      rw (update-flag index v6 is_global added c j w6, now-has index v6 is_global added c, here)
        (same-follow v6 w6 is_global added (λ v. flag index v c) (any_left index v6 c) (flag j w6 c)
          e)
  | inr elsewhere ↦ rw (update-flag index v6 is_global added c j w6, elsewhere) refl
]

module _ (ip_text : List ℕ → String) (index : ℕ) (v6 : Bool) where
  event_at-follow :
      (msg : AddressMessage) (added : Bool) (ip : IpAddr) (c : StateCache)
      → follow index v6 (flag index v6 c) (some (event_at ip_text msg added ip c).0)
        ≡ flag index v6 (event_at ip_text msg added ip c).1
  unfolding follow_payload event_at named_address_event base_event track
  event_at-follow msg added ip c =
      update-follow msg.index (is_ipv6 ip) msg.is_universe added
        (track msg.index added (ip, msg.prefix_len) c) index v6

  address-follow :
      (msg : AddressMessage) (added : Bool) (c : StateCache)
      → follow index v6 (flag index v6 c) (address_event ip_text msg added c).0
        ≡ flag index v6 (address_event ip_text msg added c).1
  unfolding address_event
  address-follow msg added c = elim (Option-cases (read_address msg.attributes none)) [
    | inl absent ↦ rw absent refl
    | inr (ip, e) ↦ rw e (event_at-follow msg added ip c)
  ]

  -- A neighbour's event, where there is one, and the neighbours' part of the cache are not followed.
  report-follow :
      (addr : Option (List ℕ)) (n : Neighbor) (added : Bool) (c : StateCache)
      → follow index v6 (flag index v6 c) (with_address ip_text addr n added c).0
        ≡ flag index v6 (with_address ip_text addr n added c).1
  unfolding report_neighbor event_of_neighbor base_event set_neighbor_state follow_payload
  report-follow none n added c = refl
  report-follow (some addr) n added c = ground arith

  translate-follow :
      (msg : Message) (c : StateCache)
      → follow index v6 (flag index v6 c) (translate ip_text msg c).0
        ≡ flag index v6 (translate ip_text msg c).1
  unfolding translate neighbor_event route_event rule_event event_of_route base_event follow_payload
  translate-follow (Message.new_link msg) c = link-follow msg true c index v6
  translate-follow (Message.del_link msg) c = link-follow msg false c index v6
  translate-follow (Message.new_address msg) c = address-follow msg true c
  translate-follow (Message.del_address msg) c = address-follow msg false c
  translate-follow (Message.new_route msg) c = refl
  translate-follow (Message.del_route msg) c = refl
  translate-follow (Message.new_rule msg) c = refl
  translate-follow (Message.del_rule msg) c = refl
  translate-follow (Message.new_neighbour msg) c =
      report-follow (neighbor_to_proto msg c.if_names).address (neighbor_to_proto msg c.if_names)
        true c
  translate-follow (Message.del_neighbour msg) c =
      report-follow (neighbor_to_proto msg c.if_names).address (neighbor_to_proto msg c.if_names)
        false c
  translate-follow Message.other c = refl

  published-follow :
      (now : Clocks) (event : Option NetworkEvent) (bus : EventBus)
      → follow_all index v6 (publish_some now event bus).sent
        ≡ follow index v6 (follow_all index v6 bus.sent) event
  unfolding publish follow_all
  published-follow now none bus = refl
  published-follow now (some event) bus = refl

  watch-follow :
      (rs : List Received) (w : Watcher)
      → follow_all index v6 w.bus.sent ≡ flag index v6 w.cache
      → follow_all index v6 (watch ip_text rs w).bus.sent ≡ flag index v6 (watch ip_text rs w).cache
  unfolding watch step
  watch-follow [] w h = h
  watch-follow (Received.not_inner ∷ rs) w h = watch-follow rs w h
  watch-follow (Received.inner now msg ∷ rs) w h =
      watch-follow rs (step ip_text (Received.inner now msg) w) (
        published-follow now (translate ip_text msg w.cache).0 w.bus
        ∙ ap (λ known. follow index v6 known (translate ip_text msg w.cache).0) h
        ∙ translate-follow msg w.cache)

  -- Whatever the kernel sends, after any number of messages an observer who has followed the events published
  -- so far, taking a gain only from the addition of an address, holds of an interface and a family what
  -- the watcher's cache holds.
  pub run-follow :
      (now : Clocks) (rs : List Received) (first_number : ℕ)
      → follow_all index v6
          (run ip_text now rs (record { sequence = first_number; sent = [] })).bus.sent
        ≡ flag index v6 (run ip_text now rs (record { sequence = first_number; sent = [] })).cache
  unfolding run publish_daemon publish follow_all follow_payload
  run-follow now rs first_number = watch-follow rs _ (ground arith)
