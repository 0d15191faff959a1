-- ===== src/Diag/Agrees.antt =====
-- When the framework and the kernel are said to disagree.
use netdiag.Prelude.{
  ℕ, String, ◌≡◌, refl, ap, ◌∙◌, Bool, true, false, not, ◌&&◌, ◌||◌, Option, none, some, List, [],
  ◌∷◌, ◌++◌, arith, is_empty, find, str_eq,
}
use netdiag.Routes.Model.{IpPrefix}
use netdiag.Prelude.Maps
use netdiag.Findings.Model
use netdiag.Findings.Model.{is_some}
use netdiag.Findings.Index.{new, failed, status}
use netdiag.Findings.Rules.{rule_framework_kernel_disagreement}
use netdiag.Watch.Entries.{display_prefix}
use netdiag.Diag.Builder.{CheckId, Check, start, ev, finish, check_key}
use netdiag.Diag.State.{Interface, LinkProperties, Network, DiagState, is_up}
use netdiag.Diag.Verdicts.{alone}
use netdiag.Diag.Agreement.{
  noted, framework_default, kernel_default, has_text, mtu_differs, route_disagreements,
  judge_agreement, kernel_addresses, address_disagreements, interface_disagreements, disagreements,
  compare_with, compare_network, check_framework_agreement,
}

abbrev pub properties_of : Option Network → Option LinkProperties
properties_of none = none
properties_of (some network) = network.link_properties

-- A list that starts with what is noted.
empty-noted :
    (fails : Bool) (text : String) (texts : List String)
    → is_empty (noted fails text ++ texts) ≡ (not fails && is_empty texts)
unfolding noted
empty-noted true text texts = refl
empty-noted false text texts = refl

empty-append : (xs ys : List String) → is_empty (xs ++ ys) ≡ (is_empty xs && is_empty ys)
empty-append [] ys = refl
empty-append (x ∷ xs) ys = refl

empty-noted_last : (fails : Bool) (text : String) → is_empty (noted fails text) ≡ not fails
unfolding noted
empty-noted_last true text = refl
empty-noted_last false text = refl

not-not : (b : Bool) → not (not b) ≡ b
not-not true = refl
not-not false = refl

cong_and : {a b c d : Bool} → a ≡ b → c ≡ d → (a && c) ≡ (b && d)
cong_and p q = cc

module _ (ip_text : List ℕ → String) where
  -- The kernel has every address that the framework lists.
  abbrev pub has_addresses : List String → List IpPrefix → Bool
  has_addresses known [] = true
  has_addresses known (p ∷ ps) = has_text known (display_prefix ip_text p) && has_addresses known ps

  -- The interface that the framework names is the kernel's.
  unfoldable pub agrees_on : LinkProperties → Option Interface → Bool
  agrees_on lp none = str_eq lp.interface_name ""
  agrees_on lp (some i) =
      is_up i.flags
      && not (mtu_differs lp i)
      && has_addresses (kernel_addresses ip_text i.addresses) lp.link_addresses

  -- The kernel routes each family for which the framework has a default route.
  abbrev pub routes_family : DiagState → LinkProperties → Bool → Bool
  routes_family state lp v6 = not (framework_default v6 lp) || kernel_default v6 state

  unfoldable pub agrees : DiagState → LinkProperties → Bool
  unfolding agrees_on
  agrees state lp =
      agrees_on lp (find (λ i. str_eq i.name lp.interface_name) state.interfaces)
      && (routes_family state lp false && routes_family state lp true)

  -- There is something to compare, and it differs.
  unfoldable pub differs_from : DiagState → Option LinkProperties → Bool
  unfolding agrees
  differs_from state none = false
  differs_from state (some lp) = not (agrees state lp)

  addresses-agree :
      (name : String) (known : List String) (ps : List IpPrefix)
      → is_empty (address_disagreements ip_text name known ps) ≡ has_addresses known ps
  unfolding address_disagreements
  addresses-agree name known [] = refl
  addresses-agree name known (p ∷ ps) = grind (arith, empty-noted, addresses-agree name known ps)

  interface-agrees :
      (lp : LinkProperties) (i : Option Interface)
      → is_empty (interface_disagreements ip_text lp i) ≡ agrees_on lp i
  unfolding interface_disagreements agrees_on
  interface-agrees lp none = empty-noted_last _ _ ∙ not-not (str_eq lp.interface_name "")
  interface-agrees lp (some i) = grind (
    arith,
    empty-noted,
    addresses-agree i.name (kernel_addresses ip_text i.addresses) lp.link_addresses,
  )

  routes-agree :
      (state : DiagState) (lp : LinkProperties)
      → is_empty (route_disagreements state lp)
        ≡ (routes_family state lp false && routes_family state lp true)
  unfolding route_disagreements
  routes-agree state lp = grind (arith, empty-noted, empty-noted_last)

  disagreements-agree :
      (state : DiagState) (lp : LinkProperties)
      → is_empty (disagreements ip_text state lp) ≡ agrees state lp
  unfolding disagreements agrees
  disagreements-agree state lp =
      let i = find (λ i. str_eq i.name lp.interface_name) state.interfaces in
      empty-append (interface_disagreements ip_text lp i) (route_disagreements state lp)
      ∙ cong_and (interface-agrees lp i) (routes-agree state lp)

-- The check, with what is compared.
compared : List String → String → String → String → String → String → Check
unfolding start check_key
compared texts number kernel framework mtu name = judge_agreement texts (
    ev "disagreements" number (
      ev "kernel_default_routes" kernel (
        ev "framework_default_routes" framework (
          ev "framework_mtu" mtu (
            ev "framework_interface" name
              (start CheckId.framework_kernel_agreement "Framework and kernel agree"))))))

compared-differs :
    (texts : List String) (number kernel framework mtu name : String) (d : Model.DiagState)
    → is_some (
        rule_framework_kernel_disagreement
          (alone (compared texts number kernel framework mtu name))
          d)
      ≡ not (is_empty texts)
unfolding compared rule_framework_kernel_disagreement new failed status judge_agreement finish ev
    start Maps.put
compared-differs [] number kernel framework mtu name d = refl
compared-differs (text ∷ texts) number kernel framework mtu name d = refl

module _ (ip_text : List ℕ → String) where
  compared_with-differs :
      (state : DiagState) (properties : Option LinkProperties) (d : Model.DiagState)
      → is_some (
          rule_framework_kernel_disagreement
            (alone (
              compare_with ip_text state properties
                (start CheckId.framework_kernel_agreement "Framework and kernel agree")))
            d)
        ≡ differs_from ip_text state properties
  unfolding compare_with differs_from rule_framework_kernel_disagreement new failed status finish
      start check_key compared
  compared_with-differs state none d = refl
  compared_with-differs state (some lp) d =
      compared-differs (disagreements ip_text state lp) _ _ _ _ _ d
      ∙ ap not (disagreements-agree ip_text state lp)

  compared_network-differs :
      (state : DiagState) (network : Option Network) (d : Model.DiagState)
      → is_some (
          rule_framework_kernel_disagreement
            (alone (
              compare_network ip_text state network
                (start CheckId.framework_kernel_agreement "Framework and kernel agree")))
            d)
        ≡ differs_from ip_text state (properties_of network)
  unfolding compare_network rule_framework_kernel_disagreement new failed status finish start
      check_key differs_from
  compared_network-differs state none d = refl
  compared_network-differs state (some network) d =
      compared_with-differs state network.link_properties d

  -- On the check alone, the rule for a disagreement fires exactly where the framework has link properties and one of
  -- these differs: it names an interface that the kernel does not have; the kernel has the interface down, with
  -- another positive MTU, or without an address that the framework lists; or the framework has a default route of a
  -- family that the kernel has no route of.
  pub check_framework_agreement-differs :
      (state : DiagState) (d : Model.DiagState)
      → is_some
          (rule_framework_kernel_disagreement (alone (check_framework_agreement ip_text state)) d)
        ≡ differs_from ip_text state (properties_of state.network)
  unfolding check_framework_agreement
  check_framework_agreement-differs state d = compared_network-differs state state.network d
