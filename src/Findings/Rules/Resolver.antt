-- ===== src/Findings/Rules/Resolver.antt =====
-- daemon/src/diag/rules.rs: the rules on DNS, captive portals and what the framework believes.
use netdiag.Prelude.{String, not, ◌&&◌, ◌||◌, Option, none, some, [], ◌∷◌, concat, if◌then◌else◌}
use netdiag.Findings.Model.{
  Severity, FindingId, Finding, DiagState, finding, is_validated, evidence_is, or_text,
}
use netdiag.Findings.Index.{CheckIndex, passed, failed, detail, evidence}

pub public_resolvers_note : String
public_resolvers_note = concat (
    "\n\nNote: the framework supplied no DNS servers, so this test used "
    ∷ "public resolvers. The network's own resolver was not exercised." ∷ [])

pub dns_broken_text : String → String → String
dns_broken_text servers note = concat (
    "TCP connections to literal addresses succeed, so packets reach the "
    ∷ "internet. Name resolution fails against every configured server (" ∷ servers
    ∷ ").\n\nBecause the transport works, this is the resolver or the path to "
    ∷ "it, not connectivity. Common causes are a resolver that is reachable "
    ∷ "but not answering, a network that blocks port 53 to anything but its "
    ∷ "own resolver, or a Private DNS hostname that no longer resolves." ∷ note ∷ [])

unfoldable pub rule_dns_broken_transport_ok : CheckIndex → DiagState → Option Finding
rule_dns_broken_transport_ok index state =
    let dns_broken = failed index "dns.a" && failed index "dns.aaaa" in
    let transport_ok = passed index "tcp.v4" || passed index "tcp.v6" in
    if not (dns_broken && transport_ok)
    then none
    else let from_framework = evidence_is (evidence index "dns.a" "from_framework") "true" in
      let servers = or_text (evidence index "dns.a" "servers") "" in
      some (
        finding FindingId.dns_broken_transport_ok "dns_broken_transport_ok" Severity.high
          "Suspected problem: DNS is broken while the network itself works"
          (dns_broken_text servers (if from_framework then "" else public_resolvers_note))
          ("dns.a" ∷ "dns.aaaa" ∷ "tcp.v4" ∷ "tcp.v6" ∷ [])
          (concat (
              "Check the Private DNS setting; strict mode with an unreachable server "
              ∷ "disables DNS entirely" ∷ [])
            ∷ "Try a different resolver to see whether the configured one is the problem"
            ∷ [])
          85)

pub private_dns_text : String → String
private_dns_text about = concat (
    about ∷ "\n\nIn strict mode Android refuses to fall back to plaintext DNS. If "
    ∷ "the configured DoT server cannot be reached on port 853, name "
    ∷ "resolution stops completely, while everything that uses literal "
    ∷ "addresses keeps working. That asymmetry is why this failure is so often "
    ∷ "misread as \"some apps work\"." ∷ [])

unfoldable pub rule_private_dns_blocking : CheckIndex → DiagState → Option Finding
rule_private_dns_blocking index state =
    if not (failed index "dns.private")
    then none
    else some (
        finding FindingId.private_dns_blocking "private_dns_blocking" Severity.high
          "Suspected problem: strict Private DNS has no reachable server"
          (private_dns_text (detail index "dns.private")) ("dns.private" ∷ "dns.a" ∷ [])
          ("Switch Private DNS to Automatic to confirm the diagnosis"
            ∷ "Check whether this network blocks outbound port 853" ∷ [])
          90)

pub captive_portal_text : String
captive_portal_text = concat (
    "Android has classified this network as being behind a captive portal. "
    ∷ "Until the portal is satisfied, DNS answers and HTTP responses may be "
    ∷ "forged, so other checks in this report can show misleading results." ∷ [])

unfoldable pub rule_captive_portal : CheckIndex → DiagState → Option Finding
rule_captive_portal index state =
    if not (failed index "captive.portal")
    then none
    else some (
        finding FindingId.captive_portal "captive_portal" Severity.medium
          "A captive portal is intercepting this network" captive_portal_text
          ("captive.portal" ∷ "android.state" ∷ [])
          ("Open the portal page and complete sign-in, then run the diagnosis again" ∷ []) 95)

pub validated_text : String → String
validated_text what = concat (
    "NetworkCapabilities still carries NET_CAPABILITY_VALIDATED for this "
    ∷ "network, but live probes fail" ∷ what
    ∷ ".\n\nValidation is a point-in-time result that Android caches and only "
    ∷ "re-runs periodically or on specific triggers. A network that worked "
    ∷ "when it was validated and broke afterwards keeps the flag, so apps keep "
    ∷ "using it and the system does not switch to another network. This gap "
    ∷ "between the framework's belief and the kernel's reality is exactly the "
    ∷ "situation where the framework alone cannot tell you anything useful." ∷ [])

unfoldable pub rule_validated_but_broken : CheckIndex → DiagState → Option Finding
rule_validated_but_broken index state =
    if not (is_validated state)
    then none
    else let transport_broken = failed index "tcp.v4" && failed index "tcp.v6" in
      let dns_broken = failed index "dns.a" && failed index "dns.aaaa" in
      if not (transport_broken || dns_broken)
      then none
      else some (
          finding FindingId.validated_but_broken "validated_but_broken" Severity.high
            "Android reports VALIDATED but connectivity is broken"
            (validated_text (
              if transport_broken && dns_broken
              then " for both transport and DNS"
              else if transport_broken
              then " for TCP on both families"
              else " for DNS on both families"))
            ("android.state" ∷ "tcp.v4" ∷ "tcp.v6" ∷ "dns.a" ∷ "dns.aaaa" ∷ [])
            ("Toggle the network off and on to force Android to re-validate it"
              ∷ concat (
                  "Compare with another device on the same network to separate device from "
                  ∷ "network" ∷ [])
              ∷ [])
            88)

pub disagreement_text : String → String
disagreement_text about = concat (
    about ∷ "\n\nLinkProperties is what apps see; the kernel's tables are what "
    ∷ "packets obey. When they diverge, an app can be told it has a route that "
    ∷ "does not exist, or be handed an address the interface no longer holds. "
    ∷ "This usually means a network transition was interrupted partway "
    ∷ "through, and it often resolves itself when the network is next " ∷ "reconfigured." ∷ [])

unfoldable pub rule_framework_kernel_disagreement : CheckIndex → DiagState → Option Finding
rule_framework_kernel_disagreement index state =
    if not (failed index "framework.kernel")
    then none
    else some (
        finding FindingId.framework_kernel_disagreement "framework_kernel_disagreement"
          Severity.medium "The Android framework and the Linux kernel disagree"
          (disagreement_text (detail index "framework.kernel")) ("framework.kernel" ∷ [])
          ("Toggle the network to force the framework and netd to re-apply configuration" ∷ []) 80)
