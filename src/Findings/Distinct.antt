-- ===== src/Findings/Distinct.antt =====
-- No report names one problem twice.
use netdiag.Prelude.{ℕ, ◌≡◌, sym, ◌∙◌, ◌≢◌, inl, inr, List, [], ◌∷◌, map, arith, Option-cases, All}
use mathlib.Core.List.{Nodup, Nodup-nil, Nodup-cons, Mem, not-mem-nil, mem-cons}
use mathlib.Core.List.Perm
use mathlib.Core.Logic.Or
use mathlib.Core.HLevel.{⊥_prop}
use netdiag.Findings.Model.{Check, DiagState, Finding, FindingId, id_code}
use netdiag.Findings.Index.{CheckIndex, new}
use netdiag.Findings.Rules.{Rule, rules}
use netdiag.Findings.Evaluate.{fired, evaluate}
use netdiag.Findings.Order.{evaluate_order}
use netdiag.Findings.Lift.{Emits}
use netdiag.Findings.Emits.{
  no_connectivity_emits, broken_upstream_emits, no_route_emits, ipv6_disabled_emits, gateway_emits,
  dns_broken_emits, private_dns_emits, captive_portal_emits, validated_emits, disagreement_emits,
  vpn_leak_emits, vpn_blackhole_emits, mtu_emits, nat64_emits, firewall_emits, syn_sent_emits,
  close_wait_emits, default_routes_emits, metered_emits,
}

-- The id that each rule of the table gives its findings.
abbrev rule_ids : List FindingId
rule_ids =
    FindingId.no_connectivity_at_all ∷ FindingId.broken_upstream_ipv6
    ∷ FindingId.ipv6_configured_no_route ∷ FindingId.ipv6_disabled_by_sysctl
    ∷ FindingId.gateway_unreachable ∷ FindingId.dns_broken_transport_ok
    ∷ FindingId.private_dns_blocking ∷ FindingId.captive_portal ∷ FindingId.validated_but_broken
    ∷ FindingId.framework_kernel_disagreement ∷ FindingId.vpn_leak ∷ FindingId.vpn_blackhole
    ∷ FindingId.mtu_blackhole ∷ FindingId.nat64_without_clat ∷ FindingId.firewall_blocking_uid
    ∷ FindingId.sockets_stuck_syn_sent ∷ FindingId.sockets_stuck_close_wait
    ∷ FindingId.multiple_default_routes ∷ FindingId.metered_restriction ∷ []

abbrev Identifies : CheckIndex → DiagState → List Rule → List FindingId → Type 0
Identifies index state [] ids = Unit
Identifies index state (rule ∷ table) [] = ⊥
Identifies index state (rule ∷ table) (id ∷ ids) =
    Emits (λ f. f.id ≡ id_code id) index state rule × Identifies index state table ids

abbrev pub ids_of : List Finding → List ℕ
ids_of = map (λ f. f.id)

module _ (index : CheckIndex) (state : DiagState) where
  rules-Identifies : Identifies index state rules rule_ids
  rules-Identifies = (
    λ f h. (no_connectivity_emits index state f h).0.identified,
    (
      λ f h. (broken_upstream_emits index state f h).0.identified,
      (
        λ f h. (no_route_emits index state f h).0.identified,
        (
          λ f h. (ipv6_disabled_emits index state f h).0.identified,
          (
            λ f h. (gateway_emits index state f h).0.identified,
            (
              λ f h. (dns_broken_emits index state f h).0.identified,
              (
                λ f h. (private_dns_emits index state f h).0.identified,
                (
                  λ f h. (captive_portal_emits index state f h).0.identified,
                  (
                    λ f h. (validated_emits index state f h).0.identified,
                    (
                      λ f h. (disagreement_emits index state f h).0.identified,
                      (
                        λ f h. (vpn_leak_emits index state f h).0.identified,
                        (
                          λ f h. (vpn_blackhole_emits index state f h).0.identified,
                          (
                            λ f h. (mtu_emits index state f h).0.identified,
                            (
                              λ f h. (nat64_emits index state f h).0.identified,
                              (
                                λ f h. (firewall_emits index state f h).0.identified,
                                (
                                  λ f h. (syn_sent_emits index state f h).0.identified,
                                  (
                                    λ f h. (close_wait_emits index state f h).0.identified,
                                    (
                                      λ f h. (default_routes_emits index state f h).0.identified,
                                      (λ f h. (metered_emits index state f h).0.identified, tt),
                                    ),
                                  ),
                                ),
                              ),
                            ),
                          ),
                        ),
                      ),
                    ),
                  ),
                ),
              ),
            ),
          ),
        ),
      ),
    ),
  )

  fired_avoid :
      (table : List Rule) (ids : List FindingId) (k : ℕ)
      → Identifies index state table ids
      → All (λ id. id_code id ≢ k) ids
      → ¬ Mem k (ids_of (fired table index state))
  unfolding fired
  fired_avoid [] ids k hs ns m = not-mem-nil m
  fired_avoid (rule ∷ table) [] k hs ns m = hs
  fired_avoid (rule ∷ table) (id ∷ ids) k (h, hs) (n, ns) m =
      elim (Option-cases (rule index state)) [
        | inl silent ↦ fired_avoid table ids k hs ns (rw silent at m)
        | inr (f, emitted) ↦
            Or.elim ⊥_prop (mem-cons.0 (rw emitted at m)) (λ e. n (sym (h f emitted) ∙ sym e))
              (fired_avoid table ids k hs ns)
      ]

  abbrev Distinct : List FindingId → Type 0
  Distinct [] = Unit
  Distinct (id ∷ ids) = All (λ other. id_code other ≢ id_code id) ids × Distinct ids

  fired-Nodup :
      (table : List Rule) (ids : List FindingId)
      → Identifies index state table ids
      → Distinct ids
      → Nodup (ids_of (fired table index state))
  unfolding fired
  fired-Nodup [] ids hs ds = Nodup-nil
  fired-Nodup (rule ∷ table) [] hs ds = absurd hs
  fired-Nodup (rule ∷ table) (id ∷ ids) (h, hs) (d, ds) = elim (Option-cases (rule index state)) [
    | inl silent ↦ rw silent (fired-Nodup table ids hs ds)
    | inr (f, emitted) ↦ rw emitted (
        Nodup-cons.1
          (rw (h f emitted) (fired_avoid table ids (id_code id) hs d), fired-Nodup table ids hs ds))
  ]

-- No two findings of a report have the same id.
pub evaluate-Nodup :
    (checks : List Check) (state : DiagState) → Nodup (ids_of (evaluate checks state))
evaluate-Nodup checks state =
    Perm.nodup (Perm.symm (Perm.map (λ f. f.id) (evaluate_order checks state).1)) (
      fired-Nodup (new checks) state rules rule_ids (rules-Identifies (new checks) state)
        (omega arith))
