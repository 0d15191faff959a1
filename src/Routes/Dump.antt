-- ===== src/Routes/Dump.antt =====
-- daemon/src/collect/routes.rs: what `get_routes` and `get_rules` do with the messages of the kernel's dump,
-- and `rule_can_match_uid`. `Names` is the map of the interfaces' names.
use netdiag.Prelude.{
  ℕ, Bool, true, false, not, ◌&&◌, Option, none, some, List, [], ◌∷◌, ltb, leb, ◌==◌, ◌!=◌,
  if◌then◌else◌, any, str_eq,
}
use netdiag.Prelude.Maps
use netdiag.Prelude.Sort.{sort_by}
use netdiag.Routes.Model.{IpPrefix, Route, RouteMessage, RoutingRule, RuleMessage}
use netdiag.Routes.Convert.{Names, route_to_proto}
use netdiag.Routes.Rules.{rule_to_proto}

-- What `get_routes` is asked for; zero means any table or interface.
pub record RouteQuery : Type 0 where
  pub table : ℕ
  pub only_default : Bool
  pub interface_index : ℕ

unfoldable pub leaves_by : ℕ → Route → Bool
leaves_by index route = any (λ nh. nh.out_interface_index == index) route.next_hops

-- The three `continue`s of the loop.
unfoldable pub is_wanted : RouteQuery → Route → Bool
unfolding leaves_by
is_wanted q route =
    if q.table != 0 && route.table != q.table
    then false
    else if q.only_default && not route.is_default
    then false
    else if q.interface_index != 0 && not (leaves_by q.interface_index route)
    then false
    else true

abbrev pub prefix_len_of : Option IpPrefix → ℕ
prefix_len_of none = 0
prefix_len_of (some d) = d.prefix_len

-- The comparison of the sort: table, then the longer prefix first, then metric.
unfoldable pub is_before : Route → Route → Bool
is_before a b =
    if a.table == b.table
    then (if prefix_len_of a.destination == prefix_len_of b.destination
        then ltb a.priority b.priority
        else ltb (prefix_len_of b.destination) (prefix_len_of a.destination))
    else ltb a.table b.table

unfoldable pub collect_routes : RouteQuery → Names → List RouteMessage → List Route
collect_routes q names [] = []
collect_routes q names (msg ∷ msgs) =
    let route = route_to_proto msg names in
    let rest = collect_routes q names msgs in if is_wanted q route then route ∷ rest else rest

-- A later route of the same table replaces the name.
unfoldable pub name_tables : List Route → Names → Names
name_tables [] names = names
name_tables (r ∷ rs) names =
    name_tables rs (
      if str_eq r.table_name "" then names else Maps.put (λ a b. a == b) r.table r.table_name names)

unfoldable pub get_routes : RouteQuery → Names → List RouteMessage → List Route × Names
unfolding collect_routes is_before name_tables
get_routes q names msgs =
    let routes = sort_by is_before (collect_routes q names msgs) in (routes, name_tables routes [])

unfoldable pub rule_can_match_uid : RoutingRule → ℕ → Bool
rule_can_match_uid rule uid =
    let in_range = leb rule.uid_range_start uid && leb uid rule.uid_range_end in
    if not rule.has_uid_range then true else if rule.invert then not in_range else in_range

abbrev pub is_for : Option ℕ → RoutingRule → Bool
is_for none rule = true
is_for (some uid) rule = rule_can_match_uid rule uid

unfoldable pub collect_rules : Option ℕ → List RuleMessage → List RoutingRule
collect_rules uid_filter [] = []
collect_rules uid_filter (msg ∷ msgs) =
    let rule = rule_to_proto msg in
    let rest = collect_rules uid_filter msgs in if is_for uid_filter rule then rule ∷ rest else rest

-- The key `(family, priority)`.
unfoldable pub is_rule_before : RoutingRule → RoutingRule → Bool
is_rule_before a b =
    if a.family == b.family then ltb a.priority b.priority else ltb a.family b.family

unfoldable pub get_rules : Option ℕ → List RuleMessage → List RoutingRule
unfolding collect_rules is_rule_before
get_rules uid_filter msgs = sort_by is_rule_before (collect_rules uid_filter msgs)
