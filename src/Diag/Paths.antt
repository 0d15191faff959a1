-- ===== src/Diag/Paths.antt =====
-- daemon/src/diag/mod.rs: `check_route_lookup`, `check_default_route` and `check_rule_coverage`. `ip_text` is the text of an
-- address.
use netdiag.Prelude.{
  ℕ, String, Bool, ◌&&◌, Option, none, some, List, [], ◌∷◌, map, ◌==◌, if◌then◌else◌, length,
  is_empty, filter, concat, join, show, show_hex,
}
use netdiag.Capture.Shown.{display_or_default}
use netdiag.Correlate.App.{sort_dedup}
use netdiag.Routes.Model.{Route, RoutingRule}
use netdiag.Diag.Builder.{CheckId, Check, start, of_family, ev, pass, fail, warn, info, finish}
use netdiag.Diag.State.{
  DiagState, family_code, family_label, lookup_of, table_of, is_table, number_or, gateway_text,
  first_hop,
}

-- DEFAULT_V4_ENDPOINT and DEFAULT_V6_ENDPOINT
abbrev pub target_text : Bool → String
target_text v6 = if v6 then "2606:4700:4700::1111" else "1.1.1.1"

abbrev pub lookup_id : Bool → CheckId
lookup_id v6 = if v6 then CheckId.route_lookup_v6 else CheckId.route_lookup_v4

abbrev pub default_route_id : Bool → CheckId
default_route_id v6 = if v6 then CheckId.ipv6_default_route else CheckId.ipv4_default_route

-- The default routes of a family, and those of the table that the lookup chose.
unfoldable pub defaults_of : Bool → DiagState → List Route
defaults_of v6 state = filter (λ r. r.is_default && r.family == family_code v6) state.routes

unfoldable pub in_table : Option ℕ → List Route → List Route
in_table table routes = filter (λ r. is_table r.table table) routes

-- `sort_unstable` and `dedup` of the tables, as text.
abbrev pub tables_text : List ℕ → String
tables_text tables = join ", " (map show (sort_dedup tables))

module _ (ip_text : List ℕ → String) where
  unfoldable pub judge_lookup : Option String → Option Route → Bool → Check → Check
  unfolding ev finish
  judge_lookup (some message) route v6 c =
      fail (concat ("the kernel could not route to " ∷ target_text v6 ∷ ": " ∷ message ∷ [])) c
  judge_lookup none none v6 c =
      fail (concat ("the kernel returned no route to " ∷ target_text v6 ∷ [])) c
  judge_lookup none (some route) v6 c =
      let hop = first_hop route in
      let gateway = gateway_text ip_text hop.gateway in
      info
        (concat (
          "packets to "
          ∷ target_text v6
          ∷ " take table "
          ∷ show route.table
          ∷ " out of "
          ∷ hop.out_interface_name
          ∷ " via "
          ∷ gateway
          ∷ []))
        (ev "source" (display_or_default ip_text route.preferred_source) (
          ev "gateway" gateway (
            ev "out_interface" hop.out_interface_name
              (ev "table" (concat (show route.table ∷ " (" ∷ route.table_name ∷ ")" ∷ [])) c))))

  unfoldable pub check_route_lookup : DiagState → Bool → Check
  unfolding judge_lookup start ev
  check_route_lookup state v6 =
      let lookup = lookup_of v6 state in
      judge_lookup lookup.error lookup.route v6 (
        ev "uid" (show lookup.uid) (
          ev "mark" (concat ("0x" ∷ show_hex lookup.fwmark ∷ [])) (
            ev "destination" (target_text v6) (
              of_family (family_code v6) (
                start (lookup_id v6)
                  (concat ("Kernel route lookup (" ∷ family_label v6 ∷ ")" ∷ [])))))))

  unfoldable pub describe_route : Route → String
  describe_route r =
      let hop = first_hop r in
      concat (
        "table "
        ∷ show r.table
        ∷ " via "
        ∷ gateway_text ip_text hop.gateway
        ∷ " dev "
        ∷ hop.out_interface_name
        ∷ " metric "
        ∷ show r.priority
        ∷ [])

  -- Where no default route is in the table that the traffic uses.
  unfoldable pub none_in_table : Bool → Option ℕ → List Route → Check → Check
  unfolding finish
  none_in_table v6 table [] c =
      fail (concat ("there is no " ∷ family_label v6 ∷ " default route in any table" ∷ [])) c
  none_in_table v6 none (r ∷ rs) c =
      fail
        (concat (
          show (length (r ∷ rs))
          ∷ " default route(s) exist (in table(s) "
          ∷ tables_text (map (λ d. d.table) (r ∷ rs))
          ∷ ") but the kernel's policy lookup reaches none of them, so this traffic has no "
          ∷ family_label v6
          ∷ " path at all"
          ∷ []))
        c
  none_in_table v6 (some table) (r ∷ rs) c =
      fail
        (concat (
          "there are "
          ∷ show (length (r ∷ rs))
          ∷ " default route(s) for "
          ∷ family_label v6
          ∷ " but none in table "
          ∷ show table
          ∷ ", which is the table this traffic uses"
          ∷ []))
        c

  unfoldable pub judge_defaults : Bool → Option ℕ → List Route → List Route → Check → Check
  unfolding none_in_table describe_route finish
  judge_defaults v6 table defaults [] c = none_in_table v6 table defaults c
  judge_defaults v6 table defaults (r ∷ []) c =
      pass (concat (family_label v6 ∷ " default route present: " ∷ describe_route r ∷ [])) c
  judge_defaults v6 table defaults (r ∷ s ∷ rest) c =
      warn
        (concat (
          "table "
          ∷ number_or "0" table
          ∷ " has "
          ∷ show (length (r ∷ s ∷ rest))
          ∷ " competing "
          ∷ family_label v6
          ∷ " default routes"
          ∷ []))
        c

  unfoldable pub check_default_route : DiagState → Bool → Check
  unfolding judge_defaults defaults_of in_table describe_route start ev
  check_default_route state v6 =
      let table = table_of (lookup_of v6 state).route in
      let defaults = defaults_of v6 state in
      judge_defaults v6 table defaults (in_table table defaults) (
        ev "all_default_routes" (join " | " (map describe_route defaults)) (
          ev "default_routes_total" (show (length defaults)) (
            ev "selected_table" (number_or "none" table) (
              of_family (family_code v6)
                (start (default_route_id v6) (concat (family_label v6 ∷ " default route" ∷ [])))))))

unfoldable pub judge_rules : List RoutingRule → List RoutingRule → List RoutingRule → Check → Check
unfolding finish
judge_rules rules uid_rules mark_rules c =
    if is_empty rules
    then fail
        (concat (
          "the kernel reports no policy routing rules at all, which is impossible on a healthy "
          ∷ "Android device" ∷ []))
        c
    else if is_empty mark_rules
    then warn
        (concat (
          "no fwmark-based rules are installed; Android normally uses them to bind sockets to "
          ∷ "networks" ∷ []))
        c
    else pass
        (concat (
          show (length rules)
          ∷ " rules installed, "
          ∷ show (length mark_rules)
          ∷ " of them selecting on fwmark and "
          ∷ show (length uid_rules)
          ∷ " on uid ranges"
          ∷ []))
        c

unfoldable pub check_rule_coverage : DiagState → Check
unfolding judge_rules start ev
check_rule_coverage state =
    let uid_rules = filter (λ r. r.has_uid_range) state.rules in
    let mark_rules = filter (λ r. r.has_fwmark) state.rules in
    judge_rules state.rules uid_rules mark_rules (
      ev "tables_referenced" (tables_text (map (λ r. r.table) state.rules)) (
        ev "fwmark_rules" (show (length mark_rules)) (
          ev "uid_range_rules" (show (length uid_rules)) (
            ev "total_rules" (show (length state.rules))
              (start CheckId.routing_rule_coverage "Policy routing rule coverage")))))
