-- ===== src/Findings/Report.antt =====
-- What a report as a whole promises: silence on a clean set of checks, and silence of the rules
-- that need a passing check where none passed.
use netdiag.Prelude.{ℕ, String, ◌≡◌, refl, Bool, false, none, List, [], ◌∷◌, arith, All, contains}
use netdiag.Findings.Model.{Check, DiagState, Finding, FindingId, id_code}
use netdiag.Findings.Index.{CheckIndex, new, passed, failed, warned, evidence}
use netdiag.Findings.Evaluate.{evaluate}
use netdiag.Findings.Grounds.{Grounds, evaluate-Grounds}

-- No check failed or warned, and none carries evidence.
pub record IsQuiet (index : CheckIndex) : Type 0 where
  pub none_failed : (key : String) → failed index key ≡ false
  pub none_warned : (key : String) → warned index key ≡ false
  pub no_evidence : (key field : String) → evidence index key field ≡ none

module _ {index : CheckIndex} {state : DiagState} {f : Finding} (quiet : IsQuiet index) where
  quiet_no_grounds : ¬ Grounds index state f
  quiet_no_grounds (Grounds.no_connectivity p a b c d e g k) =
      ground (arith, quiet.none_failed "dns.a")
  quiet_no_grounds (Grounds.broken_upstream p a b c d) = ground (arith, quiet.none_failed "tcp.v6")
  quiet_no_grounds (Grounds.no_route p a b) = ground (arith, quiet.none_failed "route.v6.default")
  quiet_no_grounds (Grounds.ipv6_disabled p a) =
      ground (arith, quiet.no_evidence "addr.v6" "disable_ipv6")
  quiet_no_grounds (Grounds.gateway p a) =
      ground (arith, quiet.none_failed "gateway.v4", quiet.none_failed "gateway.v6")
  quiet_no_grounds (Grounds.dns_broken p a b c) = ground (arith, quiet.none_failed "dns.a")
  quiet_no_grounds (Grounds.private_dns p a) = ground (arith, quiet.none_failed "dns.private")
  quiet_no_grounds (Grounds.captive_portal p a) = ground (arith, quiet.none_failed "captive.portal")
  quiet_no_grounds (Grounds.validated p a b) =
      ground (arith, quiet.none_failed "tcp.v4", quiet.none_failed "dns.a")
  quiet_no_grounds (Grounds.disagreement p a) = ground (arith, quiet.none_failed "framework.kernel")
  quiet_no_grounds (Grounds.vpn_leak p a b) =
      ground (arith, quiet.no_evidence "vpn.routing" "egress_is_vpn")
  quiet_no_grounds (Grounds.vpn_blackhole p a b) =
      ground (arith, quiet.no_evidence "vpn.routing" "egress_is_vpn")
  quiet_no_grounds (Grounds.mtu p a b c) = ground (arith, quiet.none_failed "tls.handshake")
  quiet_no_grounds (Grounds.nat64 p a b c) = ground (arith, quiet.none_warned "nat64.dns64")
  quiet_no_grounds (Grounds.firewall p a) = ground (arith, quiet.none_failed "firewall.anomaly")
  quiet_no_grounds (Grounds.syn_sent p a b) = ground (arith, quiet.none_failed "sockets.states")
  quiet_no_grounds (Grounds.close_wait p a b) = ground (arith, quiet.none_warned "sockets.states")
  quiet_no_grounds (Grounds.default_routes p a b) =
      ground (arith, quiet.none_warned "route.v4.default", quiet.none_warned "route.v6.default")
  quiet_no_grounds (Grounds.metered p a b) =
      ground (arith, quiet.no_evidence "android.state" "metered")

All-empty :
    (P : Finding → Type 0) (fs : List Finding) → ((f : Finding) → ¬ P f) → All P fs → fs ≡ []
All-empty P [] never all = refl
All-empty P (f ∷ fs) never (p, ps) = absurd (never f p)

-- A set of checks none of which failed, warned or carries evidence gives an empty report.
pub evaluate_quiet :
    (checks : List Check) (state : DiagState) → IsQuiet (new checks) → evaluate checks state ≡ []
evaluate_quiet checks state quiet =
    All-empty (Grounds (new checks) state) (evaluate checks state) (λ f. quiet_no_grounds quiet)
      (evaluate-Grounds checks state)

-- The ids of the findings whose rules need a check to have passed.
abbrev pub needs_a_pass : ℕ → Bool
needs_a_pass id =
    contains
      (id_code FindingId.broken_upstream_ipv6
        ∷ id_code FindingId.ipv6_configured_no_route
        ∷ id_code FindingId.dns_broken_transport_ok
        ∷ id_code FindingId.mtu_blackhole
        ∷ [])
      id

module _ {index : CheckIndex} {state : DiagState}
    (none_passed : (key : String) → passed index key ≡ false) where
  no_need : (f : Finding) → Grounds index state f → needs_a_pass f.id ≡ false
  no_need f (Grounds.no_connectivity p a b c d e g k) = ground (arith, p.identified)
  no_need f (Grounds.broken_upstream p a b c d) = ground (arith, none_passed "addr.v6")
  no_need f (Grounds.no_route p a b) = ground (arith, none_passed "addr.v6")
  no_need f (Grounds.ipv6_disabled p a) = ground (arith, p.identified)
  no_need f (Grounds.gateway p a) = ground (arith, p.identified)
  no_need f (Grounds.dns_broken p a b c) =
      ground (arith, none_passed "tcp.v4", none_passed "tcp.v6")
  no_need f (Grounds.private_dns p a) = ground (arith, p.identified)
  no_need f (Grounds.captive_portal p a) = ground (arith, p.identified)
  no_need f (Grounds.validated p a b) = ground (arith, p.identified)
  no_need f (Grounds.disagreement p a) = ground (arith, p.identified)
  no_need f (Grounds.vpn_leak p a b) = ground (arith, p.identified)
  no_need f (Grounds.vpn_blackhole p a b) = ground (arith, p.identified)
  no_need f (Grounds.mtu p a b c) = ground (arith, none_passed "tcp.v4", none_passed "tcp.v6")
  no_need f (Grounds.nat64 p a b c) = ground (arith, p.identified)
  no_need f (Grounds.firewall p a) = ground (arith, p.identified)
  no_need f (Grounds.syn_sent p a b) = ground (arith, p.identified)
  no_need f (Grounds.close_wait p a b) = ground (arith, p.identified)
  no_need f (Grounds.default_routes p a b) = ground (arith, p.identified)
  no_need f (Grounds.metered p a b) = ground (arith, p.identified)

All-map :
    (P Q : Finding → Type 0) (fs : List Finding) → ((f : Finding) → P f → Q f) → All P fs → All Q fs
All-map P Q [] h ps = tt
All-map P Q (f ∷ fs) h (p, ps) = (h f p, All-map P Q fs h ps)

-- Where no check passed, be they failed, skipped, missing or undecided, a report has none of the four findings whose
-- rules need a passing check: broken upstream IPv6, IPv6 configured without a route, DNS broken while the transport
-- works, and the MTU black hole.
pub evaluate_none_passed :
    (checks : List Check) (state : DiagState)
    → ((key : String) → passed (new checks) key ≡ false)
    → All (λ f. needs_a_pass f.id ≡ false) (evaluate checks state)
evaluate_none_passed checks state none_passed =
    All-map (Grounds (new checks) state) (λ f. needs_a_pass f.id ≡ false) (evaluate checks state)
      (no_need none_passed) (evaluate-Grounds checks state)
