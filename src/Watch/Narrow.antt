-- ===== src/Watch/Narrow.antt =====
-- What the classes of a filter of daemon/src/watch.rs select.
use netdiag.Prelude.{◌≡◌, refl, Bool, true, false, not, Option, none, some, arith, if◌then◌else◌}
use netdiag.Correlate.Model.{i32_le}
use netdiag.Watch.Model.{Payload, NetworkEvent}
use netdiag.Watch.Filter.{
  EventFilter, nothing_selected, takes_neighbor, takes_socket, takes_payload, matches_filter,
}

-- The filter without its classes.
unfoldable pub unselected : EventFilter → EventFilter
unselected f = record f {
  links = false;
  addresses = false;
  routes = false;
  rules = false;
  neighbors = false;
  sockets = false;
}

takes_payload-unselected :
    (p : Option Payload) (f : EventFilter)
    → takes_payload p f ≡ true
    → takes_payload p (unselected f) ≡ true
unfolding takes_payload takes_neighbor takes_socket nothing_selected unselected
takes_payload-unselected none f h = refl
takes_payload-unselected (some (Payload.link e)) f h = refl
takes_payload-unselected (some (Payload.address e)) f h = refl
takes_payload-unselected (some (Payload.route e)) f h = refl
takes_payload-unselected (some (Payload.rule e)) f h = refl
takes_payload-unselected (some (Payload.neighbor e)) f h = ground arith
takes_payload-unselected (some (Payload.socket s)) f h = ground arith
takes_payload-unselected (some Payload.framework) f h = refl
takes_payload-unselected (some Payload.daemon) f h = refl

keep_floor :
    (floor before after : Bool)
    → (before ≡ true → after ≡ true)
    → (if floor then false else before) ≡ true
    → (if floor then false else after) ≡ true
keep_floor true before after keeps h = h
keep_floor false before after keeps h = keeps h

-- Selecting classes only narrows what a subscription gets: an event that passes a filter passes the filter
-- that has the same severity floor, uids and noise setting but no class selected.
pub matches_filter-unselected :
    (event : NetworkEvent) (f : EventFilter)
    → matches_filter event f ≡ true
    → matches_filter event (unselected f) ≡ true
unfolding matches_filter unselected
matches_filter-unselected event f h =
    keep_floor (not (i32_le f.min_severity event.severity)) (takes_payload event.payload f)
      (takes_payload event.payload (unselected f)) (takes_payload-unselected event.payload f) h
