-- ===== src/Findings/Model.antt =====
-- proto/netdiag/v1/diag.proto and daemon/src/diag/rules.rs: checks, findings and the part of
-- `DiagState` that the rules read. Enum fields of a message are numbers, as prost stores them.
use netdiag.Prelude.{
  ℕ, ◌+◌, ◌-◌, ◌*◌, ◌^◌, String, Bool, true, false, not, ◌&&◌, Option, none, some, List, ltb, leb,
  ◌==◌, if◌then◌else◌, contains, str_eq,
}
use text.Mathlib.Text.{find?}
use Prim.Native.Char.{code}

pub data CheckStatus : Type 0 where
  unspecified pass fail warn skip info running : CheckStatus

-- `CheckStatus::try_from`
abbrev pub status_of_code : ℕ → Option CheckStatus
status_of_code n =
    if n == 0
    then some CheckStatus.unspecified
    else if n == 1
    then some CheckStatus.pass
    else if n == 2
    then some CheckStatus.fail
    else if n == 3
    then some CheckStatus.warn
    else if n == 4
    then some CheckStatus.skip
    else if n == 5
    then some CheckStatus.info
    else if n == 6
    then some CheckStatus.running
    else none

pub data Severity : Type 0 where
  unspecified info low medium high critical : Severity

abbrev pub severity_code : Severity → ℕ
severity_code Severity.unspecified = 0
severity_code Severity.info = 1
severity_code Severity.low = 2
severity_code Severity.medium = 3
severity_code Severity.high = 4
severity_code Severity.critical = 5

pub data FindingId : Type 0 where
  unspecified broken_upstream_ipv6 ipv6_configured_no_route no_connectivity_at_all : FindingId
  dns_broken_transport_ok private_dns_blocking captive_portal vpn_leak vpn_blackhole : FindingId
  framework_kernel_disagreement validated_but_broken mtu_blackhole gateway_unreachable : FindingId
  nat64_without_clat clat_without_nat64 firewall_blocking_uid sockets_stuck_syn_sent : FindingId
  sockets_stuck_close_wait metered_restriction no_uid_rule_match : FindingId
  multiple_default_routes ipv6_disabled_by_sysctl happy_eyeballs_delay : FindingId

abbrev pub id_code : FindingId → ℕ
id_code FindingId.unspecified = 0
id_code FindingId.broken_upstream_ipv6 = 1
id_code FindingId.ipv6_configured_no_route = 2
id_code FindingId.no_connectivity_at_all = 3
id_code FindingId.dns_broken_transport_ok = 4
id_code FindingId.private_dns_blocking = 5
id_code FindingId.captive_portal = 6
id_code FindingId.vpn_leak = 7
id_code FindingId.vpn_blackhole = 8
id_code FindingId.framework_kernel_disagreement = 9
id_code FindingId.validated_but_broken = 10
id_code FindingId.mtu_blackhole = 11
id_code FindingId.gateway_unreachable = 12
id_code FindingId.nat64_without_clat = 13
id_code FindingId.clat_without_nat64 = 14
id_code FindingId.firewall_blocking_uid = 15
id_code FindingId.sockets_stuck_syn_sent = 16
id_code FindingId.sockets_stuck_close_wait = 17
id_code FindingId.metered_restriction = 18
id_code FindingId.no_uid_rule_match = 19
id_code FindingId.multiple_default_routes = 20
id_code FindingId.ipv6_disabled_by_sysctl = 21
id_code FindingId.happy_eyeballs_delay = 22

-- The fields of a check that the rules read.
pub record Check : Type 0 where
  pub key : String
  pub status : ℕ
  pub detail : String
  pub evidence : List (String × String)

pub record Finding : Type 0 where
  pub id : ℕ
  pub key : String
  pub severity : ℕ
  pub title : String
  pub interpretation : String
  pub supporting_checks : List String
  pub suggested_actions : List String
  pub confidence : ℕ

pub record Capabilities : Type 0 where
  pub validated : Bool
  pub not_restricted : Bool

pub record Network : Type 0 where
  pub capabilities : Option Capabilities
  pub transports : List ℕ

-- The fields of `DiagState` that the rules read.
pub record DiagState : Type 0 where
  pub network : Option Network
  pub clat_active : Bool

unfoldable pub finding :
    FindingId → String → Severity → String → String → List String → List String → ℕ → Finding
finding id key severity title interpretation supporting actions confidence = record {
  id = id_code id;
  key = key;
  severity = severity_code severity;
  title = title;
  interpretation = interpretation;
  supporting_checks = supporting;
  suggested_actions = actions;
  confidence = confidence;
}

-- `state.network.as_ref().and_then(|n| n.capabilities.as_ref())`
abbrev pub capabilities_of : DiagState → Option Capabilities
capabilities_of state = elim state.network [ none ↦ none | some n ↦ n.capabilities ]

abbrev pub is_validated : DiagState → Bool
is_validated state = elim (capabilities_of state) [ none ↦ false | some c ↦ c.validated ]

abbrev pub is_restricted : DiagState → Bool
is_restricted state = elim (capabilities_of state) [ none ↦ false | some c ↦ not c.not_restricted ]

-- `Transport::Vpn` is 5.
abbrev pub has_vpn_transport : DiagState → Bool
has_vpn_transport state = elim state.network [ none ↦ false | some n ↦ contains n.transports 5 ]

-- `e == Some(text)`, `e.unwrap_or(text)`, `e.is_some()` and `n.unwrap_or(0)`
abbrev pub evidence_is : Option String → String → Bool
evidence_is none text = false
evidence_is (some v) text = str_eq v text

abbrev pub or_text : Option String → String → String
or_text none text = text
or_text (some v) text = v

abbrev pub is_some {ℓ} : {A : Type ℓ} → Option A → Bool
is_some none = false
is_some (some a) = true

abbrev pub or_zero : Option ℕ → ℕ
or_zero none = 0
or_zero (some n) = n

-- `text.contains(pattern)`
pub text_contains : String → String → Bool
text_contains text pattern = is_some (find? text pattern)

-- `str::parse::<u32>`: an optional `+`, then digits, in range.
parse_digits : String → ℕ → Option ℕ
parse_digits String.[] n = some n
parse_digits (String.◌∷◌ c rest) n =
    let d = code c in
    let more = parse_digits rest (n * 10 + (d - 48)) in
    if leb 48 d && (leb d 57 && ltb (n * 10 + (d - 48)) (2 ^ 32)) then more else none

unfoldable pub parse_u32 : String → Option ℕ
unfolding parse_digits
parse_u32 String.[] = none
parse_u32 (String.◌∷◌ c String.[]) = parse_digits (String.◌∷◌ c String.[]) 0
parse_u32 (String.◌∷◌ c (String.◌∷◌ d rest)) =
    if code c == 43
    then parse_digits (String.◌∷◌ d rest) 0
    else parse_digits (String.◌∷◌ c (String.◌∷◌ d rest)) 0
