-- ===== src/Routes/Sorted.antt =====
-- What the dumps of daemon/src/collect/routes.rs list, and in which order.
use netdiag.Prelude.{
  Bool, not, ◌&&◌, ◌||◌, ◌==◌, any, ◌∙◌, ℕ, ◌≤◌, ◌<◌, ◌≡◌, refl, subst, ◌⊎◌, true, false, Option,
  List, [], ◌∷◌, map, arith, filter, All,
}
use mathlib.Core.List.{Perm}
use netdiag.Prelude.Sort.{sort_by-perm, sort_by-IsSorted, IsSorted}
use netdiag.Routes.Model.{Route, RouteMessage, RoutingRule, RuleMessage}
use netdiag.Routes.Convert.{Names, route_to_proto}
use netdiag.Routes.Rules.{rule_to_proto}
use netdiag.Routes.Dump.{
  RouteQuery, is_wanted, prefix_len_of, is_before, collect_routes, get_routes, is_for,
  is_rule_before, collect_rules, get_rules,
}

-- The order of `ip route`: by table, then the more specific prefix first, then by metric.
pub InOrder : Route → Route → Type 0
InOrder a b =
    (a.table < b.table)
    ⊎ ((a.table ≡ b.table)
        × ((prefix_len_of b.destination < prefix_len_of a.destination)
            ⊎ ((prefix_len_of a.destination ≡ prefix_len_of b.destination)
                × (a.priority ≤ b.priority))))

InOrder-trans : (a b c : Route) → InOrder a b → InOrder b c → InOrder a c
unfolding InOrder
InOrder-trans a b c h k = ground arith

InOrder-of_before : (a b : Route) → is_before a b ≡ true → InOrder a b
unfolding InOrder is_before
InOrder-of_before a b h = ground arith

InOrder-of_not_before : (a b : Route) → Unit {0} → is_before b a ≡ false → InOrder a b
unfolding InOrder is_before
InOrder-of_not_before a b u h = ground arith

All-tt : {A : Type 0} (xs : List A) → All (λ a. Unit {0}) xs
All-tt [] = tt
All-tt (x ∷ xs) = (tt, All-tt xs)

-- Nothing need be known of the elements of a list.
anything : {A : Type 0} (xs : List A) → IsSorted (λ a b. Unit {0}) xs
anything [] = tt
anything (x ∷ xs) = (All-tt xs, anything xs)

collect_routes-filter :
    (q : RouteQuery) (names : Names) (msgs : List RouteMessage)
    → collect_routes q names msgs ≡ filter (is_wanted q) (map (λ m. route_to_proto m names) msgs)
unfolding collect_routes
collect_routes-filter q names [] = refl
collect_routes-filter q names (msg ∷ msgs) = rw (collect_routes-filter q names msgs) refl

-- A route of the table, a default route, and a route with a hop out of the interface, where these are asked for.
abbrev pub is_selected : RouteQuery → Route → Bool
is_selected q r =
    (q.table == 0 || r.table == q.table)
    && ((not q.only_default || r.is_default)
        && (q.interface_index == 0
            || any (λ h. h.out_interface_index == q.interface_index) r.next_hops))

wanted-selected : (q : RouteQuery) (r : Route) → is_wanted q r ≡ is_selected q r
unfolding is_wanted
wanted-selected q r = ground arith

filter-wanted :
    (q : RouteQuery) (rs : List Route) → filter (is_wanted q) rs ≡ filter (is_selected q) rs
filter-wanted q [] = refl
filter-wanted q (r ∷ rs) = rw (wanted-selected q r, filter-wanted q rs) refl

-- The routes are those of the dump that are of the table, are default routes and have a hop out of the interface, as far
-- as the query asks for each of these, each as often as the kernel reported it, in the order of `ip route`.
pub get_routes-IsSorted :
    (q : RouteQuery) (names : Names) (msgs : List RouteMessage)
    → IsSorted InOrder (get_routes q names msgs).0
      × Perm
          (get_routes q names msgs).0
          (filter (is_selected q) (map (λ m. route_to_proto m names) msgs))
unfolding get_routes
get_routes-IsSorted q names msgs = (
  sort_by-IsSorted is_before InOrder (λ a b. Unit {0}) InOrder-trans InOrder-of_before
      InOrder-of_not_before (collect_routes q names msgs) (anything (collect_routes q names msgs)),
  subst (Perm (get_routes q names msgs).0)
      (collect_routes-filter q names msgs
        ∙ filter-wanted q (map (λ m. route_to_proto m names) msgs))
      (sort_by-perm is_before (collect_routes q names msgs)),
)

-- Rules as the kernel evaluates them: those of a family in ascending priority.
pub IsEvaluatedBefore : RoutingRule → RoutingRule → Type 0
IsEvaluatedBefore a b = (a.family < b.family) ⊎ ((a.family ≡ b.family) × (a.priority ≤ b.priority))

IsEvaluatedBefore-trans :
    (a b c : RoutingRule) → IsEvaluatedBefore a b → IsEvaluatedBefore b c → IsEvaluatedBefore a c
unfolding IsEvaluatedBefore
IsEvaluatedBefore-trans a b c h k = ground arith

IsEvaluatedBefore-of_before :
    (a b : RoutingRule) → is_rule_before a b ≡ true → IsEvaluatedBefore a b
unfolding IsEvaluatedBefore is_rule_before
IsEvaluatedBefore-of_before a b h = ground arith

IsEvaluatedBefore-of_not_before :
    (a b : RoutingRule) → Unit {0} → is_rule_before b a ≡ false → IsEvaluatedBefore a b
unfolding IsEvaluatedBefore is_rule_before
IsEvaluatedBefore-of_not_before a b u h = ground arith

collect_rules-filter :
    (uid_filter : Option ℕ) (msgs : List RuleMessage)
    → collect_rules uid_filter msgs ≡ filter (is_for uid_filter) (map rule_to_proto msgs)
unfolding collect_rules
collect_rules-filter uid_filter [] = refl
collect_rules-filter uid_filter (msg ∷ msgs) = rw (collect_rules-filter uid_filter msgs) refl

-- The rules are those of the dump that can match the uid, where one is asked for, each as often as the kernel
-- reported it, and those of a family in ascending priority.
pub get_rules-IsSorted :
    (uid_filter : Option ℕ) (msgs : List RuleMessage)
    → IsSorted IsEvaluatedBefore (get_rules uid_filter msgs)
      × Perm (get_rules uid_filter msgs) (filter (is_for uid_filter) (map rule_to_proto msgs))
unfolding get_rules
get_rules-IsSorted uid_filter msgs =
    let collected = collect_rules uid_filter msgs in
    (
      sort_by-IsSorted is_rule_before IsEvaluatedBefore (λ a b. Unit {0}) IsEvaluatedBefore-trans
          IsEvaluatedBefore-of_before IsEvaluatedBefore-of_not_before collected
          (anything collected),
      subst (Perm (get_rules uid_filter msgs)) (collect_rules-filter uid_filter msgs)
          (sort_by-perm is_rule_before collected),
    )
