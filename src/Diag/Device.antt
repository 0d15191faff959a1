-- ===== src/Diag/Device.antt =====
-- daemon/src/diag/mod.rs: `check_android_state` and `check_active_interface`.
use netdiag.Prelude.{
  ℕ, String, false, not, Option, none, some, List, [], ◌∷◌, map, ◌==◌, if◌then◌else◌, length,
  concat, join, show,
}
use netdiag.Diag.Builder.{CheckId, Check, start, ev, pass, fail, warn, skip, finish}
use netdiag.Diag.State.{
  Flags, Interface, Capabilities, LinkProperties, Network, DiagState, bool_text, signed_text,
}
use netdiag.Diag.Framework.{capabilities_or_default}

-- `transport_name`, by the number of the transport; any other number is written out.
unfoldable pub transport_name : ℕ → String
transport_name t =
    if t == 0
    then "unknown"
    else if t == 1
    then "cellular"
    else if t == 2
    then "Wi-Fi"
    else if t == 3
    then "Bluetooth"
    else if t == 4
    then "Ethernet"
    else if t == 5
    then "VPN"
    else if t == 6
    then "Wi-Fi Aware"
    else if t == 7
    then "LoWPAN"
    else if t == 8
    then "USB"
    else if t == 9
    then "Thread"
    else if t == 10
    then "satellite"
    else concat ("transport " ∷ signed_text 32 t ∷ [])

abbrev pub interface_of : Option LinkProperties → String
interface_of none = ""
interface_of (some lp) = lp.interface_name

unfoldable pub judge_network : String → Capabilities → List String → Check → Check
unfolding finish
judge_network net_id caps transports c =
    if not caps.internet
    then fail (concat ("network " ∷ net_id ∷ " does not claim NET_CAPABILITY_INTERNET" ∷ [])) c
    else if caps.captive_portal
    then warn
        (concat
          ("network " ∷ net_id ∷ " is behind a captive portal according to the framework" ∷ []))
        c
    else if not caps.validated
    then warn
        (concat (
          "network " ∷ net_id
          ∷ " has INTERNET but not VALIDATED: Android could not confirm end-to-end connectivity"
          ∷ []))
        c
    else if caps.partial_connectivity
    then warn (concat ("network " ∷ net_id ∷ " reports partial connectivity" ∷ [])) c
    else pass (concat ("network " ∷ net_id ∷ " is VALIDATED over " ∷ join "+" transports ∷ [])) c

unfoldable pub check_network : DiagState → Network → Check → Check
unfolding judge_network transport_name ev
check_network state network c =
    let caps = capabilities_or_default network.capabilities in
    let transports = map transport_name network.transports in
    judge_network (signed_text 32 network.net_id) caps transports (
      ev "interface" (interface_of network.link_properties) (
        ev "is_default" (bool_text network.is_default) (
          ev "captive_portal" (bool_text caps.captive_portal) (
            ev "metered" (bool_text (not caps.not_metered)) (
              ev "internet_capability" (bool_text caps.internet) (
                ev "validated" (bool_text caps.validated) (
                  ev "transports" (join ", " transports) (
                    ev "network_handle" (signed_text 64 network.network_handle) (
                      ev "probe_timeout_ms" (show state.timeout_ms) (
                        ev "net_id_under_test" (signed_text 32 state.net_id)
                          (ev "net_id" (signed_text 32 network.net_id) c)))))))))))

-- Given the networks of the framework's state, where the app sent one.
unfoldable pub check_given_state :
    DiagState → Option (List Network) → Option Network → Check → Check
unfolding check_network ev finish
check_given_state state none network c =
    skip "the app did not supply ConnectivityManager state, so framework-level checks cannot run" c
check_given_state state (some networks) none c =
    fail "ConnectivityManager reports no usable network" (ev "networks" (show (length networks)) c)
check_given_state state (some networks) (some network) c = check_network state network c

unfoldable pub check_android_state : DiagState → Option (List Network) → Check
unfolding check_given_state start
check_android_state state networks =
    check_given_state state networks state.network
      (start CheckId.android_network_state "Android framework network state")

abbrev pub or_else : Option Interface → Option Interface → Option Interface
or_else none other = other
or_else (some i) other = some i

abbrev pub flags_or_default : Option Flags → Flags
flags_or_default none = record { up = false; running = false }
flags_or_default (some flags) = flags

abbrev pub name_or_none : Option Interface → String
name_or_none none = "none"
name_or_none (some i) = i.name

unfoldable pub judge_interface : Interface → Flags → Check → Check
unfolding finish
judge_interface i flags c =
    if not flags.up
    then fail (concat (i.name ∷ " is the egress interface but is not UP" ∷ [])) c
    else if not flags.running
    then warn (concat (i.name ∷ " is UP but has no carrier (IFF_RUNNING is clear)" ∷ [])) c
    else pass
        (concat (
          "traffic leaves via "
          ∷ i.name
          ∷ " (index "
          ∷ show i.index
          ∷ ", MTU "
          ∷ show i.mtu
          ∷ ")"
          ∷ []))
        c

-- `kind_text` and `oper_text` are the names that the generated code has for a number.
module _ (kind_text oper_text : ℕ → String) where
  unfoldable pub check_egress : DiagState → Option Interface → Check → Check
  unfolding judge_interface ev finish
  check_egress state none c =
      fail
        "the kernel has no route to the internet for either family; nothing would leave the device"
        c
  check_egress state (some i) c = judge_interface i (flags_or_default i.flags) (
      ev "egress_v6" (name_or_none state.egress_v6) (
        ev "egress_v4" (name_or_none state.egress_v4) (
          ev "oper_state" (oper_text i.oper_state) (
            ev "kind" (kind_text i.kind)
              (ev "mtu" (show i.mtu) (ev "index" (show i.index) (ev "interface" i.name c)))))))

  unfoldable pub check_active_interface : DiagState → Check
  unfolding check_egress start
  check_active_interface state =
      check_egress state (or_else state.egress_v4 state.egress_v6)
        (start CheckId.active_interface "Active egress interface")
