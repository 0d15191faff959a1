-- ===== src/Routes/Checks.antt =====
-- Concrete dumps, and the theorems at one.
use netdiag.Prelude.{
  ℕ, zero, suc, ◌+◌, ◌-◌, ◌*◌, ◌/◌, ◌%◌, ◌^◌, ◌≤◌, ◌<◌, min, bit_and, bit_or, String, ◌≡◌, refl,
  sym, ap, ◌∙◌, subst, ◌≢◌, ◌↔◌, ◌⊎◌, inl, inr, Bool, true, false, not, ◌&&◌, ◌||◌, Option, none,
  some, List, [], ◌∷◌, ◌++◌, map, arith, eq_iff, ltb, leb, ◌==◌, ◌!=◌, if◌then◌else◌, test_bit,
  low_bits, ==_iff, leb→le, Bool-cases, Option-cases, length, get_elem?, take, drop, replicate,
  is_empty, first, any, find, filter, All, length-append, length-drop, length-take,
  take-append_self, drop-append_self, All-map, find-some, find-none, any_none, All-filter, All-find,
  any-find, length-pos, contains, str_eq, concat, join, show, show_hex, IsByte, IsBytes, IsU16,
  IsU32, IsU64, u16_be, u32_be, be16, le16, le32,
}
use mathlib.Core.List.{Perm}
use netdiag.Prelude.Sort.{IsSorted}
use netdiag.Routes.Model.{
  AddressFamily, RouteAddress, RouteAttribute, RouteMessage, Protocol, Scope, RouteType, RuleAction,
  RuleAttribute, RuleMessage,
}
use netdiag.Routes.Convert.{route_to_proto, table_name}
use netdiag.Routes.Rules.{rule_to_proto}
use netdiag.Routes.Dump.{RouteQuery, is_wanted, get_routes, get_rules, rule_can_match_uid}
use netdiag.Routes.Sorted.{InOrder, is_selected, get_routes-IsSorted}

abbrev route : ℕ → ℕ → List RouteAttribute → RouteMessage
route table len attributes = record {
  address_family = AddressFamily.inet;
  destination_prefix_length = len;
  table = table;
  protocol = Protocol.boot;
  protocol_number = 3;
  scope = Scope.universe;
  kind = RouteType.unicast;
  flags = 0;
  attributes = attributes;
}

-- A default route of table 1003, whose header has table 252, and a /24 of the main table.
abbrev default_route : RouteMessage
default_route = route 252 0 (RouteAttribute.oif 5 ∷ RouteAttribute.table 1003 ∷ [])

abbrev local_route : RouteMessage
local_route = route 254 24 (
    RouteAttribute.destination (RouteAddress.inet (10 ∷ 0 ∷ 0 ∷ 0 ∷ []))
    ∷ RouteAttribute.oif 3
    ∷ [])

abbrev all_routes : RouteQuery
all_routes = record { table = 0; only_default = false; interface_index = 0 }

read :
    ((route_to_proto default_route []).is_default ≡ true)
    × ((route_to_proto default_route []).table_name ≡ "vpn_fallthrough")
    × ((route_to_proto local_route []).is_default ≡ false)
unfolding route_to_proto table_name netdiag.Fwmark.well_known_table_name
read = (refl, refl, refl)

in_table_order :
    map (λ r. r.table) (get_routes all_routes [] (default_route ∷ local_route ∷ [])).0
    ≡ 254 ∷ 1003 ∷ []
unfolding get_routes netdiag.Prelude.Sort.sort_by is_wanted route_to_proto
in_table_order = refl

only_default :
    map
      (λ r. r.table)
      (get_routes
        (record { table = 0; only_default = true; interface_index = 5 })
        []
        (default_route ∷ local_route ∷ [])).0
    ≡ 1003 ∷ []
unfolding get_routes netdiag.Prelude.Sort.sort_by is_wanted route_to_proto
only_default = refl

per_network : table_name 101 ≡ "net101"
unfolding table_name netdiag.Fwmark.well_known_table_name concat show
per_network = refl

abbrev rule : ℕ → List RuleAttribute → RuleMessage
rule priority attributes = record {
  family = AddressFamily.inet;
  src_len = 0;
  dst_len = 0;
  tos = 0;
  table = 0;
  action = RuleAction.to_table;
  invert = false;
  attributes = RuleAttribute.priority priority ∷ attributes;
}

abbrev two_rules : List RuleMessage
two_rules = rule 32000 [] ∷ rule 13000 (RuleAttribute.uid_range 10000 10999 ∷ []) ∷ []

carved_out :
    (rule_can_match_uid
        (rule_to_proto (rule 13000 (RuleAttribute.uid_range 10000 10999 ∷ [])))
        10999
      ≡ true)
    × (rule_can_match_uid
          (rule_to_proto (rule 13000 (RuleAttribute.uid_range 10000 10999 ∷ [])))
          11000
        ≡ false)
unfolding rule_can_match_uid rule_to_proto
carved_out = (refl, refl)

for_uid : map (λ r. r.priority) (get_rules (some 10342) two_rules) ≡ 13000 ∷ 32000 ∷ []
unfolding get_rules netdiag.Prelude.Sort.sort_by rule_can_match_uid rule_to_proto
for_uid = refl

get_routes-IsSorted_example :
    IsSorted InOrder (get_routes all_routes [] (default_route ∷ local_route ∷ [])).0
    × Perm (get_routes all_routes [] (default_route ∷ local_route ∷ [])).0 (
        filter
          (is_selected all_routes)
          (map (λ m. route_to_proto m []) (default_route ∷ local_route ∷ [])))
get_routes-IsSorted_example = get_routes-IsSorted all_routes [] (default_route ∷ local_route ∷ [])
