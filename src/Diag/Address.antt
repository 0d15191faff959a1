-- ===== src/Diag/Address.antt =====
-- daemon/src/diag/mod.rs: `check_address`, and `has_global_address` of daemon/src/collect/links.rs.
use netdiag.Prelude.{
  ℕ, String, Bool, true, false, not, ◌&&◌, ◌||◌, Option, none, some, List, [], ◌∷◌, map, ◌==◌,
  if◌then◌else◌, any, filter, concat, join,
}
use netdiag.Watch.Entries.{display_prefix}
use netdiag.Routes.Model.{IpPrefix}
use netdiag.Diag.Builder.{CheckId, Check, start, of_family, ev, pass, fail, warn, skip, finish}
use netdiag.Diag.State.{
  AddressFlags, Sysctls, Interface, DiagState, family_code, family_label, bool_text, signed_text,
  prefix_is,
}
use netdiag.Diag.Device.{or_else}

abbrev pub is_unusable : Option AddressFlags → Bool
is_unusable none = false
is_unusable (some f) = f.tentative || f.dadfailed

-- `AddressScope::Global` is 1.
unfoldable pub has_global_address : Interface → Bool → Bool
has_global_address i v6 =
    any (λ a. prefix_is v6 a.prefix && a.scope == 1 && not (is_unusable a.flags)) i.addresses

abbrev pub is_tentative : Option AddressFlags → Bool
is_tentative none = false
is_tentative (some f) = f.tentative

unfoldable pub any_tentative : Interface → Bool
any_tentative i = any (λ a. is_tentative a.flags && prefix_is true a.prefix) i.addresses

abbrev pub sysctls_or_default : Option Sysctls → Sysctls
sysctls_or_default none = record { ipv6_disabled = false; accept_ra = 0 }
sysctls_or_default (some sysctls) = sysctls

abbrev pub address_id : Bool → CheckId
address_id v6 = if v6 then CheckId.ipv6_address else CheckId.ipv4_address

unfoldable pub judge_address : Interface → Bool → List String → Check → Check
unfolding has_global_address any_tentative finish
judge_address i v6 addresses c =
    if has_global_address i v6
    then pass
        (concat
          (i.name ∷ " has a global " ∷ family_label v6 ∷ " address: " ∷ join ", " addresses ∷ []))
        c
    else if v6 && any_tentative i
    then warn
        (concat (
          i.name
          ∷ " has only tentative IPv6 addresses; duplicate address detection has not finished"
          ∷ []))
        c
    else if v6 && (sysctls_or_default i.sysctls).ipv6_disabled
    then fail (concat ("IPv6 is disabled on " ∷ i.name ∷ " by the disable_ipv6 sysctl" ∷ [])) c
    else fail (concat (i.name ∷ " has no global " ∷ family_label v6 ∷ " address" ∷ [])) c

-- The sysctls, for IPv6.
unfoldable pub add_sysctls : Bool → Sysctls → Check → Check
unfolding ev
add_sysctls false sysctls c = c
add_sysctls true sysctls c =
    ev "accept_ra" (signed_text 32 sysctls.accept_ra)
      (ev "disable_ipv6" (bool_text sysctls.ipv6_disabled) c)

-- `scope_text` is the name that the generated code has for a number.
module _ (ip_text : List ℕ → String) (scope_text : ℕ → String) where
  abbrev pub prefix_text : Option IpPrefix → String
  prefix_text none = ""
  prefix_text (some p) = display_prefix ip_text p

  unfoldable pub addresses_of : Interface → Bool → List String
  addresses_of i v6 =
      map (λ a. concat (prefix_text a.prefix ∷ " (" ∷ scope_text a.scope ∷ ")" ∷ []))
        (filter (λ a. prefix_is v6 a.prefix) i.addresses)

  unfoldable pub check_interface_address : Bool → Option Interface → Check → Check
  unfolding judge_address addresses_of add_sysctls ev finish
  check_interface_address v6 none c = skip "no egress interface was identified" c
  check_interface_address v6 (some i) c =
      let addresses = addresses_of i v6 in
      judge_address i v6 addresses (
        add_sysctls v6 (sysctls_or_default i.sysctls)
          (ev "addresses" (join ", " addresses) (ev "interface" i.name c)))

  unfoldable pub check_address : DiagState → Bool → Check
  unfolding check_interface_address start
  check_address state v6 =
      let egress = if v6 then state.egress_v6 else state.egress_v4 in
      let titled = start (address_id v6) (concat (family_label v6 ∷ " address assigned" ∷ [])) in
      check_interface_address v6 (or_else egress (or_else state.egress_v4 state.egress_v6))
        (record (of_family (family_code v6) titled) { depends_on = "iface.active" ∷ [] })
