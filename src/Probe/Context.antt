-- ===== src/Probe/Context.antt =====
-- daemon/src/probe/mod.rs: `ProbeContext` and `ProbeResult`. Durations are in milliseconds; an i32 is its bit pattern.
use netdiag.Prelude.{
  ℕ, String, Bool, true, false, Option, none, some, List, [], ◌∷◌, ◌++◌, ◌==◌, if◌then◌else◌,
  is_empty, str_eq, concat, join, show, show_hex,
}
use netdiag.Fwmark.{net_id_from_mark, mark_for_net_id}
use netdiag.Correlate.Model.{i32_le}

pub record ProbeContext : Type 0 where
  pub mark : Option ℕ
  pub bind_device : Option String
  pub source : Option (List ℕ)
  pub timeout_ms : ℕ

abbrev pub default_timeout_ms : ℕ
default_timeout_ms = 3000

unfoldable pub with_timeout : ℕ → ProbeContext
with_timeout timeout_ms = record {
  mark = none;
  bind_device = none;
  source = none;
  timeout_ms = if timeout_ms == 0 then default_timeout_ms else timeout_ms;
}

unfoldable pub pinned_to_net_id : ℕ → ProbeContext → ProbeContext
pinned_to_net_id net_id ctx =
    if i32_le net_id 0 then ctx else record ctx { mark = some (mark_for_net_id net_id) }

unfoldable pub on_device : String → ProbeContext → ProbeContext
on_device name ctx = if str_eq name "" then ctx else record ctx { bind_device = some name }

abbrev pub mark_part : Option ℕ → List String
mark_part none = []
mark_part (some mark) =
    concat ("mark=0x" ∷ show_hex mark ∷ " (netId " ∷ show (net_id_from_mark mark) ∷ ")" ∷ []) ∷ []

abbrev pub device_part : Option String → List String
device_part none = []
device_part (some dev) = concat ("dev=" ∷ dev ∷ []) ∷ []

abbrev pub source_part : (List ℕ → String) → Option (List ℕ) → List String
source_part ip_text none = []
source_part ip_text (some src) = concat ("src=" ∷ ip_text src ∷ []) ∷ []

unfoldable pub describe : (List ℕ → String) → ProbeContext → String
describe ip_text ctx =
    let parts =
      mark_part ctx.mark ++ device_part ctx.bind_device ++ source_part ip_text ctx.source in
    if is_empty parts then "default network" else join " " parts

pub record ProbeResult : Type 0 where
  pub is_ok : Bool
  pub duration_ms : ℕ
  pub detail : String
  pub evidence : List (String × String)
  pub error : Option String

unfoldable pub success : ℕ → String → ProbeResult
success duration_ms detail = record {
  is_ok = true;
  duration_ms = duration_ms;
  detail = detail;
  evidence = [];
  error = none;
}

unfoldable pub failure : ℕ → String → ProbeResult
failure duration_ms detail = record {
  is_ok = false;
  duration_ms = duration_ms;
  detail = detail;
  evidence = [];
  error = some detail;
}

-- `with`
unfoldable pub with_evidence : String → String → ProbeResult → ProbeResult
with_evidence key value result = record result { evidence = result.evidence ++ (key, value) ∷ [] }
