-- ===== src/Findings/Checks.antt =====
-- Reports of concrete checks, and the theorems about reports at them.
use netdiag.Prelude.{ℕ, String, ◌≡◌, refl, false, none, some, List, [], ◌∷◌, map, arith, All}
use mathlib.Core.List.{Nodup, Perm}
use netdiag.Prelude.Sort.{sort_by, IsSorted}
use netdiag.Findings.Model.{Check, DiagState, finding, parse_u32}
use netdiag.Findings.Index.{new, status, passed, failed, warned, skipped, detail, evidence}
use netdiag.Findings.Rules.{
  rules, rule_no_connectivity_at_all, rule_broken_upstream_ipv6, rule_ipv6_configured_no_route,
  rule_ipv6_disabled_by_sysctl, rule_gateway_unreachable, rule_dns_broken_transport_ok,
  rule_private_dns_blocking, rule_captive_portal, rule_validated_but_broken,
  rule_framework_kernel_disagreement, rule_vpn_leak, rule_vpn_ipv6_blackhole, rule_mtu_blackhole,
  rule_nat64_without_clat, rule_firewall_blocking_uid, rule_sockets_stuck_syn_sent,
  rule_sockets_stuck_close_wait, rule_multiple_default_routes, rule_metered_restriction,
}
use netdiag.Findings.Evaluate.{comes_before, fired, evaluate}
use netdiag.Findings.Order.{Precedes, ties, evaluate_order}
use netdiag.Findings.Grounds.{Grounds, evaluate-Grounds}
use netdiag.Findings.Report.{IsQuiet, needs_a_pass, evaluate_none_passed}
use netdiag.Findings.Distinct.{ids_of, evaluate-Nodup}
use netdiag.Findings.Consistent.{exclude, evaluate_consistent}

abbrev check : String → ℕ → Check
check key status = record { key = key; status = status; detail = ""; evidence = [] }

abbrev no_state : DiagState
no_state = record { network = none; clat_active = false }

-- `detects_broken_upstream_ipv6`, with a captive portal beside it.
abbrev broken_ipv6 : List Check
broken_ipv6 =
    check "captive.portal" 2
    ∷ check "addr.v6" 1
    ∷ check "route.v6.default" 1
    ∷ check "dns.aaaa" 1
    ∷ check "tcp.v6" 2
    ∷ check "tcp.v4" 1
    ∷ check "dns.a" 1
    ∷ []

abbrev clean : List Check
clean = check "addr.v4" 1 ∷ check "tcp.v6" 4 ∷ []

abbrev dead : List Check
dead = check "tcp.v4" 2 ∷ check "tcp.v6" 4 ∷ check "dns.a" 2 ∷ check "dns.aaaa" 2 ∷ []

broken_ipv6_report :
    map {B = ℕ × ℕ × ℕ} (λ f. (f.id, f.severity, f.confidence)) (evaluate broken_ipv6 no_state)
    ≡ (1, 4, 90) ∷ (6, 3, 95) ∷ []
unfolding evaluate new sort_by comes_before passed failed warned skipped detail evidence finding
    rule_no_connectivity_at_all rule_broken_upstream_ipv6 rule_ipv6_configured_no_route
    rule_ipv6_disabled_by_sysctl rule_gateway_unreachable rule_dns_broken_transport_ok
    rule_private_dns_blocking rule_captive_portal rule_validated_but_broken
    rule_framework_kernel_disagreement rule_vpn_leak rule_vpn_ipv6_blackhole rule_mtu_blackhole
    rule_nat64_without_clat rule_firewall_blocking_uid rule_sockets_stuck_syn_sent
    rule_sockets_stuck_close_wait rule_multiple_default_routes rule_metered_restriction
broken_ipv6_report = refl

clean-IsQuiet : IsQuiet (new clean)
unfolding new failed warned evidence
clean-IsQuiet = record {
  none_failed = λ key. ground arith;
  none_warned = λ key. ground arith;
  no_evidence = λ key field. ground arith;
}

dead_none_passed : (key : String) → passed (new dead) key ≡ false
unfolding new passed
dead_none_passed key = ground arith

evaluate_order_example :
    IsSorted Precedes (evaluate broken_ipv6 no_state)
    × Perm (evaluate broken_ipv6 no_state) (fired rules (new broken_ipv6) no_state)
    × ((s c : ℕ)
        → ties s c (evaluate broken_ipv6 no_state)
          ≡ ties s c (fired rules (new broken_ipv6) no_state))
evaluate_order_example = evaluate_order broken_ipv6 no_state

evaluate-Grounds_example : All (Grounds (new broken_ipv6) no_state) (evaluate broken_ipv6 no_state)
evaluate-Grounds_example = evaluate-Grounds broken_ipv6 no_state

evaluate_none_passed_example : All (λ f. needs_a_pass f.id ≡ false) (evaluate dead no_state)
evaluate_none_passed_example = evaluate_none_passed dead no_state dead_none_passed

evaluate-Nodup_example : Nodup (ids_of (evaluate broken_ipv6 no_state))
evaluate-Nodup_example = evaluate-Nodup broken_ipv6 no_state

evaluate_consistent_example :
    All
      (λ f. All (λ g. exclude f.id g.id ≡ false) (evaluate dead no_state))
      (evaluate dead no_state)
evaluate_consistent_example = evaluate_consistent dead no_state

parses :
    (parse_u32 "20" ≡ some 20)
    × (parse_u32 "+7" ≡ some 7)
    × (parse_u32 "" ≡ none)
    × (parse_u32 "4294967296" ≡ none)
unfolding parse_u32
parses = (refl, refl, refl, refl)
