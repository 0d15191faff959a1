-- ===== src/Findings/Consistent.antt =====
-- Findings that never stand in one report.
use netdiag.Prelude.{
  ℕ, String, ◌≡◌, ◌≢◌, Bool, true, false, ◌&&◌, ◌||◌, Option, none, some, List, [], ◌∷◌, arith,
  eq_iff, ◌==◌, All,
}
use netdiag.Findings.Model.{Check, DiagState, Finding, FindingId, id_code, evidence_is}
use netdiag.Findings.Index.{CheckIndex, new, passed, evidence}
use netdiag.Findings.Evaluate.{evaluate}
use netdiag.Findings.Grounds.{Grounds, evaluate-Grounds}

-- The ids of the findings that need a TCP connection to have completed.
abbrev pub needs_tcp : ℕ → Bool
needs_tcp id =
    id == id_code FindingId.broken_upstream_ipv6
    || (id == id_code FindingId.dns_broken_transport_ok || id == id_code FindingId.mtu_blackhole)

-- The first finding is that nothing gets through and the other needs a TCP connection, or the first is the VPN leak and
-- the other the VPN without IPv6.
abbrev pub exclude : ℕ → ℕ → Bool
exclude i j =
    (i == id_code FindingId.no_connectivity_at_all && needs_tcp j)
    || (i == id_code FindingId.vpn_leak && j == id_code FindingId.vpn_blackhole)

module _ (index : CheckIndex) (state : DiagState) where
  abbrev connected : Bool
  connected = passed index "tcp.v4" || passed index "tcp.v6"

  -- What a finding commits to.
  record Commits (f : Finding) : Type 0 where
    disconnected : f.id ≡ id_code FindingId.no_connectivity_at_all → connected ≡ false
    connects : needs_tcp f.id ≡ true → connected ≡ true
    bypasses :
        f.id ≡ id_code FindingId.vpn_leak
        → evidence_is (evidence index "vpn.routing" "egress_is_vpn") "false" ≡ true
    tunnelled :
        f.id ≡ id_code FindingId.vpn_blackhole
        → evidence_is (evidence index "vpn.routing" "egress_is_vpn") "true" ≡ true

  Grounds-Commits : (f : Finding) → Grounds index state f → Commits f
  Grounds-Commits f (Grounds.no_connectivity p a b c d e g k) = record {
    disconnected = λ e. ground (arith, p.identified);
    connects = λ e. ground (arith, p.identified);
    bypasses = λ e. ground (arith, p.identified);
    tunnelled = λ e. ground (arith, p.identified);
  }
  Grounds-Commits f (Grounds.broken_upstream p a b c d) = record {
    disconnected = λ e. ground (arith, p.identified);
    connects = λ e. ground (arith, p.identified);
    bypasses = λ e. ground (arith, p.identified);
    tunnelled = λ e. ground (arith, p.identified);
  }
  Grounds-Commits f (Grounds.no_route p a b) = record {
    disconnected = λ e. ground (arith, p.identified);
    connects = λ e. ground (arith, p.identified);
    bypasses = λ e. ground (arith, p.identified);
    tunnelled = λ e. ground (arith, p.identified);
  }
  Grounds-Commits f (Grounds.ipv6_disabled p a) = record {
    disconnected = λ e. ground (arith, p.identified);
    connects = λ e. ground (arith, p.identified);
    bypasses = λ e. ground (arith, p.identified);
    tunnelled = λ e. ground (arith, p.identified);
  }
  Grounds-Commits f (Grounds.gateway p a) = record {
    disconnected = λ e. ground (arith, p.identified);
    connects = λ e. ground (arith, p.identified);
    bypasses = λ e. ground (arith, p.identified);
    tunnelled = λ e. ground (arith, p.identified);
  }
  Grounds-Commits f (Grounds.dns_broken p a b c) = record {
    disconnected = λ e. ground (arith, p.identified);
    connects = λ e. ground (arith, p.identified);
    bypasses = λ e. ground (arith, p.identified);
    tunnelled = λ e. ground (arith, p.identified);
  }
  Grounds-Commits f (Grounds.private_dns p a) = record {
    disconnected = λ e. ground (arith, p.identified);
    connects = λ e. ground (arith, p.identified);
    bypasses = λ e. ground (arith, p.identified);
    tunnelled = λ e. ground (arith, p.identified);
  }
  Grounds-Commits f (Grounds.captive_portal p a) = record {
    disconnected = λ e. ground (arith, p.identified);
    connects = λ e. ground (arith, p.identified);
    bypasses = λ e. ground (arith, p.identified);
    tunnelled = λ e. ground (arith, p.identified);
  }
  Grounds-Commits f (Grounds.validated p a b) = record {
    disconnected = λ e. ground (arith, p.identified);
    connects = λ e. ground (arith, p.identified);
    bypasses = λ e. ground (arith, p.identified);
    tunnelled = λ e. ground (arith, p.identified);
  }
  Grounds-Commits f (Grounds.disagreement p a) = record {
    disconnected = λ e. ground (arith, p.identified);
    connects = λ e. ground (arith, p.identified);
    bypasses = λ e. ground (arith, p.identified);
    tunnelled = λ e. ground (arith, p.identified);
  }
  Grounds-Commits f (Grounds.vpn_leak p a b) = record {
    disconnected = λ e. ground (arith, p.identified);
    connects = λ e. ground (arith, p.identified);
    bypasses = λ e. ground (arith, p.identified);
    tunnelled = λ e. ground (arith, p.identified);
  }
  Grounds-Commits f (Grounds.vpn_blackhole p a b) = record {
    disconnected = λ e. ground (arith, p.identified);
    connects = λ e. ground (arith, p.identified);
    bypasses = λ e. ground (arith, p.identified);
    tunnelled = λ e. ground (arith, p.identified);
  }
  Grounds-Commits f (Grounds.mtu p a b c) = record {
    disconnected = λ e. ground (arith, p.identified);
    connects = λ e. ground (arith, p.identified);
    bypasses = λ e. ground (arith, p.identified);
    tunnelled = λ e. ground (arith, p.identified);
  }
  Grounds-Commits f (Grounds.nat64 p a b c) = record {
    disconnected = λ e. ground (arith, p.identified);
    connects = λ e. ground (arith, p.identified);
    bypasses = λ e. ground (arith, p.identified);
    tunnelled = λ e. ground (arith, p.identified);
  }
  Grounds-Commits f (Grounds.firewall p a) = record {
    disconnected = λ e. ground (arith, p.identified);
    connects = λ e. ground (arith, p.identified);
    bypasses = λ e. ground (arith, p.identified);
    tunnelled = λ e. ground (arith, p.identified);
  }
  Grounds-Commits f (Grounds.syn_sent p a b) = record {
    disconnected = λ e. ground (arith, p.identified);
    connects = λ e. ground (arith, p.identified);
    bypasses = λ e. ground (arith, p.identified);
    tunnelled = λ e. ground (arith, p.identified);
  }
  Grounds-Commits f (Grounds.close_wait p a b) = record {
    disconnected = λ e. ground (arith, p.identified);
    connects = λ e. ground (arith, p.identified);
    bypasses = λ e. ground (arith, p.identified);
    tunnelled = λ e. ground (arith, p.identified);
  }
  Grounds-Commits f (Grounds.default_routes p a b) = record {
    disconnected = λ e. ground (arith, p.identified);
    connects = λ e. ground (arith, p.identified);
    bypasses = λ e. ground (arith, p.identified);
    tunnelled = λ e. ground (arith, p.identified);
  }
  Grounds-Commits f (Grounds.metered p a b) = record {
    disconnected = λ e. ground (arith, p.identified);
    connects = λ e. ground (arith, p.identified);
    bypasses = λ e. ground (arith, p.identified);
    tunnelled = λ e. ground (arith, p.identified);
  }

  not_both : (o : Option String) → evidence_is o "false" ≡ true → evidence_is o "true" ≢ true
  not_both none h k = cc
  not_both (some v) h k = ground (arith, eq_iff v "false", eq_iff v "true", eq_iff "false" "true")

  Commits-consistent : (f g : Finding) → Commits f → Commits g → exclude f.id g.id ≡ false
  Commits-consistent f g cf cg = ground (
    arith,
    cf.disconnected,
    cg.connects,
    cf.bypasses,
    cg.tunnelled,
    not_both (evidence index "vpn.routing" "egress_is_vpn"),
  )

  All-consistent :
      (f : Finding) (fs : List Finding)
      → Commits f
      → All (Grounds index state) fs
      → All (λ g. exclude f.id g.id ≡ false) fs
  All-consistent f [] cf hs = tt
  All-consistent f (g ∷ fs) cf (h, hs) =
      (Commits-consistent f g cf (Grounds-Commits g h), All-consistent f fs cf hs)

  All-consistent-All :
      (fs gs : List Finding)
      → All (Grounds index state) fs
      → All (Grounds index state) gs
      → All (λ f. All (λ g. exclude f.id g.id ≡ false) gs) fs
  All-consistent-All [] gs hs ks = tt
  All-consistent-All (f ∷ fs) gs (h, hs) ks =
      (All-consistent f gs (Grounds-Commits f h) ks, All-consistent-All fs gs hs ks)

-- A report with the finding that there is no connectivity at all has none of the three that need a completed TCP
-- connection: broken upstream IPv6, DNS broken while the transport works, and the MTU black hole; and no report has both
-- the VPN leak and the VPN that lacks IPv6.
pub evaluate_consistent :
    (checks : List Check) (state : DiagState)
    → All
        (λ f. All (λ g. exclude f.id g.id ≡ false) (evaluate checks state))
        (evaluate checks state)
evaluate_consistent checks state =
    let grounds = evaluate-Grounds checks state in
    All-consistent-All (new checks) state (evaluate checks state) (evaluate checks state) grounds
      grounds
