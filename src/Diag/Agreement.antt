-- ===== src/Diag/Agreement.antt =====
-- daemon/src/diag/mod.rs: `check_framework_agreement`. `ip_text` is the text of an address.
use netdiag.Prelude.{
  ℕ, ◌^◌, String, Bool, true, false, not, ◌&&◌, Option, none, some, List, [], ◌∷◌, ◌++◌, ltb, ◌!=◌,
  if◌then◌else◌, length, any, find, str_eq, concat, join, show,
}
use netdiag.Watch.Entries.{display_prefix}
use netdiag.Routes.Model.{IpPrefix, Route}
use netdiag.Diag.Builder.{CheckId, Check, start, ev, pass, fail, skip, finish}
use netdiag.Diag.State.{
  LinkAddress, Interface, LinkProperties, Network, DiagState, bool_text, is_up, lookup_of,
  signed_text, prefix_is,
}

-- The text of a disagreement, where there is one.
unfoldable pub noted : Bool → String → List String
noted fails text = if fails then text ∷ [] else []

-- The framework lists a default route of the family.
unfoldable pub framework_default : Bool → LinkProperties → Bool
framework_default v6 lp = any (λ r. r.is_default && prefix_is v6 r.destination) lp.routes

abbrev pub is_routed : Option Route → Bool
is_routed none = false
is_routed (some r) = true

unfoldable pub kernel_default : Bool → DiagState → Bool
kernel_default v6 state = is_routed (lookup_of v6 state).route

abbrev pub has_text : List String → String → Bool
has_text texts text = any (str_eq text) texts

-- `lp.mtu` is signed.
unfoldable pub mtu_differs : LinkProperties → Interface → Bool
mtu_differs lp i = ltb 0 lp.mtu && ltb lp.mtu (2 ^ 31) && ltb 0 i.mtu && lp.mtu != i.mtu

abbrev pub missing_route : Bool → String
missing_route v6 =
    if v6
    then "the framework lists an IPv6 default route but the kernel cannot route IPv6 to the internet"
    else "the framework lists an IPv4 default route but the kernel cannot route IPv4 to the internet"

unfoldable pub route_disagreements : DiagState → LinkProperties → List String
unfolding framework_default kernel_default noted
route_disagreements state lp =
    noted (framework_default true lp && not (kernel_default true state)) (missing_route true)
    ++ noted (framework_default false lp && not (kernel_default false state)) (missing_route false)

unfoldable pub judge_agreement : List String → Check → Check
unfolding finish
judge_agreement [] c =
    pass "the framework's view of interfaces, addresses and routes matches the kernel" c
judge_agreement (text ∷ texts) c = fail (join "; " (text ∷ texts)) c

abbrev pub defaults_text : Bool → Bool → String
defaults_text v4 v6 = concat ("v4=" ∷ bool_text v4 ∷ " v6=" ∷ bool_text v6 ∷ [])

module _ (ip_text : List ℕ → String) where
  abbrev pub address_texts : Option IpPrefix → List String
  address_texts none = []
  address_texts (some p) = display_prefix ip_text p ∷ []

  unfoldable pub kernel_addresses : List LinkAddress → List String
  kernel_addresses [] = []
  kernel_addresses (a ∷ rest) = address_texts a.prefix ++ kernel_addresses rest

  unfoldable pub address_disagreements : String → List String → List IpPrefix → List String
  unfolding noted
  address_disagreements name known [] = []
  address_disagreements name known (p ∷ ps) =
      let text = display_prefix ip_text p in
      noted (not (has_text known text)) (
        concat (
          "the framework reports address " ∷ text ∷ " on " ∷ name
          ∷ " but the kernel does not have it" ∷ []))
      ++ address_disagreements name known ps

  unfoldable pub interface_disagreements : LinkProperties → Option Interface → List String
  unfolding address_disagreements kernel_addresses mtu_differs noted
  interface_disagreements lp none = noted (not (str_eq lp.interface_name "")) (
      concat (
        "the framework names interface " ∷ lp.interface_name
        ∷ " but the kernel has no such interface" ∷ []))
  interface_disagreements lp (some i) =
      noted (not (is_up i.flags))
        (concat ("the framework is using " ∷ i.name ∷ " but the kernel has it DOWN" ∷ []))
      ++ (noted (mtu_differs lp i) (
            concat (
              "MTU mismatch on "
              ∷ i.name
              ∷ ": framework says "
              ∷ signed_text 32 lp.mtu
              ∷ ", kernel says "
              ∷ show i.mtu
              ∷ []))
          ++ address_disagreements i.name (kernel_addresses i.addresses) lp.link_addresses)

  unfoldable pub disagreements : DiagState → LinkProperties → List String
  unfolding interface_disagreements route_disagreements
  disagreements state lp =
      interface_disagreements lp (find (λ i. str_eq i.name lp.interface_name) state.interfaces)
      ++ route_disagreements state lp

  unfoldable pub compare_with : DiagState → Option LinkProperties → Check → Check
  unfolding disagreements judge_agreement ev finish
  compare_with state none c = skip "the framework reported no LinkProperties" c
  compare_with state (some lp) c =
      let found = disagreements state lp in
      judge_agreement found (
        ev "disagreements" (show (length found)) (
          ev "kernel_default_routes"
            (defaults_text (kernel_default false state) (kernel_default true state))
            (ev "framework_default_routes"
              (defaults_text (framework_default false lp) (framework_default true lp))
              (ev "framework_mtu" (signed_text 32 lp.mtu)
                (ev "framework_interface" lp.interface_name c)))))

  unfoldable pub compare_network : DiagState → Option Network → Check → Check
  unfolding compare_with finish
  compare_network state none c = skip "no framework state to compare against" c
  compare_network state (some network) c = compare_with state network.link_properties c

  unfoldable pub check_framework_agreement : DiagState → Check
  unfolding compare_network start
  check_framework_agreement state =
      compare_network state state.network
        (start CheckId.framework_kernel_agreement "Framework and kernel agree")
