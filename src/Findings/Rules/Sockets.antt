-- ===== src/Findings/Rules/Sockets.antt =====
-- daemon/src/diag/rules.rs: the rules on socket states, default routes and metered networks.
use netdiag.Prelude.{
  ℕ, String, not, ◌||◌, Option, none, some, [], ◌∷◌, concat, show, if◌then◌else◌, ltb,
}
use netdiag.Findings.Model.{
  Severity, FindingId, Finding, DiagState, finding, is_restricted, evidence_is, or_text,
  text_contains, parse_u32, is_some, or_zero,
}
use netdiag.Findings.Index.{CheckIndex, failed, warned, detail, evidence}

pub syn_sent_text : String → String
syn_sent_text count = concat (
    count ∷ " sockets are sitting in SYN_SENT. The kernel has sent a SYN and is "
    ∷ "waiting for a SYN-ACK that has not arrived.\n\nThis is what a silent "
    ∷ "drop looks like from the socket table: the packets are leaving the "
    ∷ "device and nothing is answering, as opposed to a refused connection "
    ∷ "(which produces a RST and closes immediately) or a routing failure "
    ∷ "(which fails instantly with ENETUNREACH). A firewall that drops rather "
    ∷ "than rejects, a broken path, or a dead peer all produce this." ∷ [])

unfoldable pub rule_sockets_stuck_syn_sent : CheckIndex → DiagState → Option Finding
rule_sockets_stuck_syn_sent index state =
    if not (is_some (evidence index "sockets.states" "syn_sent"))
      || not (failed index "sockets.states")
    then none
    else let count = or_text (evidence index "sockets.states" "syn_sent") "?" in
      some (
        finding FindingId.sockets_stuck_syn_sent "sockets_stuck_syn_sent" Severity.medium
          "Connections are piling up in SYN_SENT" (syn_sent_text count) ("sockets.states" ∷ [])
          ("Cross-reference with the per-app view to see which app owns these sockets" ∷ []) 80)

pub close_wait_text : String → String
close_wait_text count = concat (
    count ∷ " sockets are in CLOSE_WAIT: the peer has closed its half of the "
    ∷ "connection and the local application has not closed its own.\n\nThis is "
    ∷ "an application bug rather than a network fault, and it leaks file "
    ∷ "descriptors. It is worth noting here because the symptom people report "
    ∷ "is \"the app stops being able to connect\", which looks like a network "
    ∷ "problem until you count the sockets." ∷ [])

-- `.and_then(|v| v.parse().ok()).unwrap_or(0)`
abbrev pub close_wait_count : Option String → ℕ
close_wait_count none = 0
close_wait_count (some v) = or_zero (parse_u32 v)

unfoldable pub rule_sockets_stuck_close_wait : CheckIndex → DiagState → Option Finding
rule_sockets_stuck_close_wait index state =
    if not (warned index "sockets.states")
    then none
    else let count = close_wait_count (evidence index "sockets.states" "close_wait") in
      if ltb count 20
      then none
      else some (
          finding FindingId.sockets_stuck_close_wait "sockets_stuck_close_wait" Severity.low
            "Sockets are accumulating in CLOSE_WAIT" (close_wait_text (show count))
            ("sockets.states" ∷ [])
            ("Identify the owning app in the per-app view; the leak is in its code" ∷ []) 85)

pub default_routes_text : String → String
default_routes_text about = concat (
    about ∷ "\n\nThe kernel will pick the lowest metric, so this is not broken on "
    ∷ "its own. It usually means an interface went down without its routes "
    ∷ "being cleaned up, and it becomes a real problem if the winning route "
    ∷ "points at a gateway that no longer works." ∷ [])

unfoldable pub rule_multiple_default_routes : CheckIndex → DiagState → Option Finding
rule_multiple_default_routes index state =
    let v4 = warned index "route.v4.default" in
    let v6 = warned index "route.v6.default" in
    if not (v4 || v6)
    then none
    else let key : String = if v4 then "route.v4.default" else "route.v6.default" in
      if not (text_contains (detail index key) "competing")
      then none
      else some (
          finding FindingId.multiple_default_routes "multiple_default_routes" Severity.low
            "Several default routes compete in the same table"
            (default_routes_text (detail index key)) (key ∷ [])
            ("Check whether an old interface's routes were left behind" ∷ []) 70)

pub metered_text : String
metered_text = concat (
    "The network is marked metered and does not carry "
    ∷ "NET_CAPABILITY_NOT_RESTRICTED. Background traffic for most apps will be "
    ∷ "blocked by policy, which produces connection failures that look like "
    ∷ "network faults but are deliberate." ∷ [])

unfoldable pub rule_metered_restriction : CheckIndex → DiagState → Option Finding
rule_metered_restriction index state =
    if not (evidence_is (evidence index "android.state" "metered") "true")
    then none
    else if not (is_restricted state)
    then none
    else some (
        finding FindingId.metered_restriction "metered_restriction" Severity.info
          "This network is metered and restricted" metered_text ("android.state" ∷ [])
          ("Check Data Saver, and whether the app is allowed unrestricted data" ∷ []) 90)
