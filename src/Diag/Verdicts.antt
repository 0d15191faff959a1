-- ===== src/Diag/Verdicts.antt =====
-- The check of daemon/src/diag/mod.rs for a VPN, and the findings of daemon/src/diag/rules.rs that read it.
use netdiag.Prelude.{String, Bool, true, false, not, ◌&&◌, List, [], ◌∷◌, str_eq, join}
use netdiag.Prelude.Maps
use netdiag.Findings.Model
use netdiag.Findings.Model.{evidence_is, or_text}
use netdiag.Findings.Index.{CheckIndex, new}
use netdiag.Diag.Builder.{CheckId, Check, as_evidence, start, ev, check_key}
use netdiag.Diag.State.{Interface, DiagState, bool_text, names_of}
use netdiag.Diag.Vpn.{egress_is_vpn, vpn_default, judge_vpn, judge_vpns}

-- Only this check has been run.
abbrev pub alone : Check → CheckIndex
alone c = new (as_evidence c ∷ [])

-- A tun is up, and has a name, and the traffic does not leave by the first one.
unfoldable pub goes_around : DiagState → List Interface → Bool
goes_around state [] = false
goes_around state (vpn ∷ vpns) =
    not (egress_is_vpn state vpn) && not (str_eq (join ", " (names_of (vpn ∷ vpns))) "")

-- A tun is up, the traffic leaves by the first one, and no IPv6 default route does.
unfoldable pub lacks_ipv6 : DiagState → List Interface → Bool
lacks_ipv6 state [] = false
lacks_ipv6 state (vpn ∷ vpns) = egress_is_vpn state vpn && not (vpn_default true state vpn)

-- The evidence of a VPN that is up.
judged : Interface → String → Bool → Bool → Bool → Bool → Bool → String → Check
unfolding start check_key
judged vpn names framework egress default_v6 default_v4 blackholed table =
    judge_vpn vpn egress default_v6 blackholed (
      ev "vpn_table" table (
        ev "ipv6_blackholed_in_vpn_table" (bool_text blackholed) (
          ev "vpn_default_route_v4" (bool_text default_v4) (
            ev "vpn_has_ipv6_routes" (bool_text default_v6) (
              ev "egress_is_vpn" (bool_text egress) (
                ev "framework_reports_vpn" (bool_text framework)
                  (ev "vpn_interfaces" names (start CheckId.vpn_routing "VPN routing"))))))))

-- The check, for the tuns that are up.
found : List Interface → Bool → DiagState → Check
unfolding start check_key
found vpns framework state = judge_vpns vpns framework state (
    ev "framework_reports_vpn" (bool_text framework)
      (ev "vpn_interfaces" (join ", " (names_of vpns)) (start CheckId.vpn_routing "VPN routing")))
