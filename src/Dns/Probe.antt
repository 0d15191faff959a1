-- ===== src/Dns/Probe.antt =====
-- daemon/src/probe/dns.rs: `probe`, given what `query` returned. `ip_text` is the text of an address, `server` that of
-- the server, `routing` that of the context.
use netdiag.Prelude.{
  ℕ, String, Bool, true, false, not, ◌&&◌, List, [], ◌∷◌, map, ◌==◌, if◌then◌else◌, is_empty,
  concat, join, show,
}
use netdiag.Probe.Context.{ProbeResult, success, failure, with_evidence}
use netdiag.Routes.Model.{octets}
use netdiag.Dns.Model.{type_a, RCode}
use netdiag.Dns.Model
use netdiag.Dns.Decode.{Response}

-- `DnsAnswer` without its server, or the time at which the query failed and the text of the error.
pub data Queried : Type 0 where
  answer : ℕ → Response → Queried
  failed : ℕ → String → Queried

abbrev pub type_name : ℕ → String
type_name qtype = if qtype == type_a then "A" else "AAAA"

-- `rcode == RCode::NoError`
unfoldable pub is_no_error : RCode → Bool
is_no_error RCode.no_error = true
is_no_error RCode.form_err = false
is_no_error RCode.serv_fail = false
is_no_error RCode.nx_domain = false
is_no_error RCode.not_imp = false
is_no_error RCode.refused = false
is_no_error (RCode.other v) = false

unfoldable pub is_success : Response → Bool
unfolding is_no_error
is_success r = is_no_error r.rcode && not (is_empty r.addresses)

abbrev pub bool_text : Bool → String
bool_text b = if b then "true" else "false"

module _ (ip_text : List ℕ → String) (server routing name : String) (qtype : ℕ) where
  abbrev pub addresses_text : Response → String
  addresses_text r = join ", " (map (λ a. ip_text (octets a)) r.addresses)

  unfoldable pub detail_of : ℕ → Response → String
  unfolding is_success is_no_error
  detail_of duration_ms r =
      if is_success r
      then concat (
          type_name qtype
          ∷ " "
          ∷ name
          ∷ " -> "
          ∷ addresses_text r
          ∷ " in "
          ∷ show duration_ms
          ∷ " ms"
          ∷ [])
      else if is_no_error r.rcode
      then concat (type_name qtype ∷ " " ∷ name ∷ " returned NOERROR with no records" ∷ [])
      else concat (type_name qtype ∷ " " ∷ name ∷ " returned " ∷ Model.name r.rcode ∷ [])

  unfoldable pub probe : Queried → ProbeResult
  unfolding success failure with_evidence detail_of is_success
  probe (Queried.failed duration_ms error) = with_evidence "routing" routing (
      with_evidence "server" server
        (failure duration_ms (concat (type_name qtype ∷ " " ∷ name ∷ " failed: " ∷ error ∷ []))))
  probe (Queried.answer duration_ms r) =
      let detail = detail_of duration_ms r in
      let start = if is_success r then success duration_ms detail else failure duration_ms detail in
      let common = with_evidence "routing" routing (
        with_evidence "authoritative" (bool_text r.authoritative) (
          with_evidence "answers" (show r.answer_count)
            (with_evidence "rcode" (Model.name r.rcode) (with_evidence "server" server start)))) in
      let listed =
        if is_empty r.addresses
        then common
        else with_evidence "addresses" (addresses_text r) common in
      if r.truncated
      then with_evidence "truncated" "yes (response exceeded 512 bytes over UDP)" listed
      else listed
