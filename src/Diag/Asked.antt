-- ===== src/Diag/Asked.antt =====
-- The checks of a report of daemon/src/diag/mod.rs, by their ids.
use netdiag.Prelude.{
  ℕ, String, ◌≡◌, refl, sym, ap, ◌∙◌, Bool, true, false, Option, none, some, List, [], ◌∷◌, ◌++◌,
  map, arith, if◌then◌else◌, filter, All,
}
use mathlib.Core.List.{append-nil}
use netdiag.Findings.Model
use netdiag.Diag.Builder.{CheckId, Check, start, ev, finish}
use netdiag.Diag.State.{table_of, DiagState}
use netdiag.Diag.Device.{or_else, check_android_state, check_active_interface}
use netdiag.Diag.Paths.{
  check_route_lookup, check_default_route, check_rule_coverage, defaults_of, in_table,
}
use netdiag.Diag.Address.{check_address}
use netdiag.Diag.Vpn.{is_up_vpn, reports_vpn, check_vpn}
use netdiag.Diag.Framework.{check_uid_firewall, check_captive_portal}
use netdiag.Diag.Sockets.{check_socket_states}
use netdiag.Diag.Agreement.{check_framework_agreement}
use netdiag.Diag.Report
use netdiag.Diag.Headline.{conclude}
use netdiag.Diag.Run.{
  DiagnoseRequest, System, is_asked, check_firewall, structural, probing, push_structural,
  push_probes, skipped, Gathered, run,
}
use netdiag.Diag.Ids.{
  check_android_state-id, check_egress-id, judge_vpns-id, check_network_portal-id, judge_lookup-id,
  judge_defaults-id, compare_network-id, check_interface_address-id,
}

abbrev pub ids_of : List Check → List CheckId
ids_of checks = map (λ c. c.id) checks

-- All ids that a run can report, in the order of the report.
abbrev pub all_ids : List CheckId
all_ids =
    CheckId.android_network_state ∷ CheckId.active_interface ∷ CheckId.route_lookup_v4
    ∷ CheckId.route_lookup_v6 ∷ CheckId.ipv4_address ∷ CheckId.ipv6_address
    ∷ CheckId.ipv4_default_route ∷ CheckId.ipv6_default_route ∷ CheckId.routing_rule_coverage
    ∷ CheckId.vpn_routing ∷ CheckId.firewall_anomaly ∷ CheckId.suspicious_tcp_states
    ∷ CheckId.framework_kernel_agreement ∷ CheckId.captive_portal ∷ probing

-- What is planned under an id has it.
abbrev pub IsNamed : CheckId × Check → Type 0
IsNamed (id, c) = c.id ≡ id

ids-push :
    (asked : Bool) (id : CheckId) (c : Check) (checks : List Check) (ids : List CheckId)
    → c.id ≡ id
    → ids_of (if asked then checks ++ c ∷ [] else checks) ++ ids
      ≡ ids_of checks ++ (if asked then id ∷ ids else ids)
ids-push false id c checks ids p = refl
ids-push true id c [] ids p = ap (λ i. i ∷ ids) p
ids-push true id c (k ∷ checks) ids p = ap (λ rest. k.id ∷ rest) (ids-push true id c checks ids p)

push_structural-ids :
    (request : DiagnoseRequest) (plan : List (CheckId × Check)) (checks : List Check)
    → All IsNamed plan
    → ids_of (push_structural request plan checks)
      ≡ ids_of checks ++ filter (is_asked request) (map (λ p. p.0) plan)
unfolding push_structural
push_structural-ids request [] checks h = sym (append-nil (ids_of checks))
push_structural-ids request ((id, c) ∷ plan) checks (p, h) =
    push_structural-ids request plan (if is_asked request id then checks ++ c ∷ [] else checks) h
    ∙ ids-push (is_asked request id) id c checks _ p

push_probes-ids :
    (request : DiagnoseRequest) (probe : CheckId → List Check → Check)
    → ((id : CheckId) (checks : List Check) → (probe id checks).id ≡ id)
    → (ids : List CheckId) (checks : List Check)
    → ids_of (push_probes request probe ids checks) ≡ ids_of checks ++ filter (is_asked request) ids
unfolding push_probes
push_probes-ids request probe named [] checks = sym (append-nil (ids_of checks))
push_probes-ids request probe named (id ∷ ids) checks =
    push_probes-ids request probe named ids
      (if is_asked request id then checks ++ probe id checks ∷ [] else checks)
    ∙ ids-push (is_asked request id) id (probe id checks) checks _ (named id checks)

kept-append :
    (keep : Bool) (id : CheckId) (xs ys both : List CheckId)
    → both ≡ xs ++ ys
    → (if keep then id ∷ both else both) ≡ (if keep then id ∷ xs else xs) ++ ys
kept-append true id xs ys both p = ap (λ rest. id ∷ rest) p
kept-append false id xs ys both p = p

filter-append :
    (p : CheckId → Bool) (xs ys : List CheckId) → filter p (xs ++ ys) ≡ filter p xs ++ filter p ys
filter-append p [] ys = refl
filter-append p (x ∷ xs) ys =
    kept-append (p x) x (filter p xs) (filter p ys) (filter p (xs ++ ys)) (filter-append p xs ys)

chosen-id :
    (passive : Bool) (probe : CheckId → List Check → Check)
    → ((id : CheckId) (checks : List Check) → (probe id checks).id ≡ id)
    → (id : CheckId) (checks : List Check)
    → ((if passive then skipped else probe) id checks).id ≡ id
unfolding skipped start finish
chosen-id true probe named id checks = refl
chosen-id false probe named id checks = named id checks

module _ (system : System) (h : system.surface.id ≡ CheckId.firewall_anomaly) where
  check_firewall-id : (uid : Option ℕ) → (check_firewall system uid).id ≡ CheckId.firewall_anomaly
  unfolding check_firewall check_uid_firewall ev start
  check_firewall-id none = h
  check_firewall-id (some uid) = ground arith

  structural-IsNamed :
      (request : DiagnoseRequest) (state : DiagState)
      → All IsNamed (structural system request state)
  unfolding structural check_android_state check_active_interface check_route_lookup check_address
      check_default_route check_rule_coverage check_vpn check_socket_states
      check_framework_agreement check_captive_portal ev start
  structural-IsNamed request state = (
    check_android_state-id state request.networks state.network
        (start CheckId.android_network_state "Android framework network state"),
    (
      check_egress-id system.kind_text system.oper_text state
          (or_else state.egress_v4 state.egress_v6)
          (start CheckId.active_interface "Active egress interface"),
      (
        judge_lookup-id system.ip_text state.lookup_v4.error state.lookup_v4.route false _,
        (
          judge_lookup-id system.ip_text state.lookup_v6.error state.lookup_v6.route true _,
          (
            check_interface_address-id system.ip_text system.scope_text false
                (or_else state.egress_v4 (or_else state.egress_v4 state.egress_v6)) _,
            (
              check_interface_address-id system.ip_text system.scope_text true
                  (or_else state.egress_v6 (or_else state.egress_v4 state.egress_v6)) _,
              (
                judge_defaults-id system.ip_text false (table_of state.lookup_v4.route)
                    (defaults_of false state)
                    (in_table (table_of state.lookup_v4.route) (defaults_of false state)) _,
                (
                  judge_defaults-id system.ip_text true (table_of state.lookup_v6.route)
                      (defaults_of true state)
                      (in_table (table_of state.lookup_v6.route) (defaults_of true state)) _,
                  (
                    ground arith,
                    (
                      judge_vpns-id (filter is_up_vpn state.interfaces) (reports_vpn state.network)
                          state _,
                      (
                        check_firewall-id request.as_uid,
                        (
                          ground arith,
                          (
                            compare_network-id system.ip_text state state.network (
                                start CheckId.framework_kernel_agreement
                                  "Framework and kernel agree"),
                            (
                              check_network_portal-id state.network
                                  (start CheckId.captive_portal "Captive portal"),
                              tt,
                            ),
                          ),
                        ),
                      ),
                    ),
                  ),
                ),
              ),
            ),
          ),
        ),
      ),
    ),
  )

  reported-ids :
      (request : DiagnoseRequest) (state : DiagState) (probe : CheckId → List Check → Check)
      → ((id : CheckId) (checks : List Check) → (probe id checks).id ≡ id)
      → ids_of (
          push_probes request probe probing
            (push_structural request (structural system request state) []))
        ≡ filter (is_asked request) all_ids
  unfolding structural
  reported-ids request state probe named =
      push_probes-ids request probe named probing
        (push_structural request (structural system request state) [])
      ∙ ap (λ ids. ids ++ filter (is_asked request) probing)
          (push_structural-ids request (structural system request state) []
            (structural-IsNamed request state))
      ∙ sym (
          filter-append (is_asked request) (map (λ p. p.0) (structural system request state))
            probing)

-- Where the state is read, the checks of a report are those of the run that the request asks for, each once and in
-- the order of the run, passive or not; where the state cannot be read, the report has one check, of the active
-- interface. The arguments that stand for checks have the ids under which they are run.
pub run-ids :
    (system : System)
    → system.surface.id ≡ CheckId.firewall_anomaly
    → ((id : CheckId) (checks : List Check) → (system.probe id checks).id ≡ id)
    → (request : DiagnoseRequest)
    → ((state : DiagState) (d : Model.DiagState)
        → ids_of (run system request (Gathered.gathered state d)).checks
          ≡ filter (is_asked request) all_ids)
      × ((e : String)
          → ids_of (run system request (Gathered.failed e)).checks ≡ CheckId.active_interface ∷ [])
unfolding run conclude start finish Report.finish
run-ids system surface named request = (
  λ state d.
      reported-ids system surface request state
        (if request.passive_only then skipped else system.probe)
        (chosen-id request.passive_only system.probe named),
  λ e. refl,
)
