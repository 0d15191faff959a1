-- ===== src/Correlate/Assess.antt =====
-- What the flags of a VPN assessment say of the interfaces and of the kernel's route lookups.
use netdiag.Prelude.{
  ℕ, ◌≡◌, ◌==◌, ==_iff, refl, sym, ap, ◌∙◌, ◌↔◌, ◌⊎◌, inl, inr, Bool, true, false, not, ◌&&◌, ◌||◌,
  Option, none, some, List, [], ◌∷◌, arith, first, find, Option-cases,
}
use netdiag.Prelude.First.{IsFirst, find-IsFirst, IsFirst-find}
use netdiag.Correlate.Model.{
  RoutingRule, NextHop, Route, RouteLookup, Interface, AndroidNetwork, VpnAssessment,
}
use netdiag.Correlate.Vpn.{
  differ, leaves_by, is_up_vpn, assess_vpn, assess_vpn_on, no_assessment, assess_with,
}

-- The interface is a tunnel (`LinkKind::VpnTun` is 5) that is up.
abbrev pub is_up_tunnel : Interface → Bool
is_up_tunnel i = elim i.flags [ none ↦ false | some up ↦ up && i.kind == 5 ]

tunnel-flags :
    (kind : ℕ) (flags : Option Bool)
    → (kind == 5 && elim flags [ none ↦ false | some up ↦ up ])
      ≡ elim flags [ none ↦ false | some up ↦ up && kind == 5 ]
tunnel-flags kind none = ground arith
tunnel-flags kind (some up) = ground arith

up_vpn-tunnel : (i : Interface) → is_up_vpn i ≡ is_up_tunnel i
up_vpn-tunnel i = tunnel-flags i.kind i.flags

-- The kernel has a route, and its first hop is out of the interface.
abbrev pub LeavesThrough : Interface → RouteLookup → Type 0
LeavesThrough vpn lookup =
    (route : Route) × (lookup.route ≡ some route)
    × ((hop : NextHop) × (others : List NextHop) × (route.next_hops ≡ hop ∷ others)
        × (hop.out_interface_index ≡ vpn.index))

abbrev hop_leaves : ℕ → Option NextHop → Bool
hop_leaves index o = elim o [ none ↦ false | some h ↦ h.out_interface_index == index ]

abbrev hop_of : Option Route → Option NextHop
hop_of o = elim o [ none ↦ none | some r ↦ first r.next_hops ]

module _ (vpn : Interface) where
  first_hop-through :
      (lookup : RouteLookup) (route : Route) (hops : List NextHop)
      → lookup.route ≡ some route
      → route.next_hops ≡ hops
      → hop_leaves vpn.index (first hops) ≡ true
      → LeavesThrough vpn lookup
  first_hop-through lookup route [] e k h = cc
  first_hop-through lookup route (hop ∷ others) e k h =
      (route, e, (hop, others, k, (==_iff hop.out_interface_index vpn.index).0 h))

  leaves_iff :
      (lookup : RouteLookup) → (leaves_by vpn.index lookup ≡ true) ↔ LeavesThrough vpn lookup
  leaves_iff lookup = (
    λ h. elim (Option-cases lookup.route) [
      | inl none_found ↦ cc (sym (ap (λ o. hop_leaves vpn.index (hop_of o)) none_found) ∙ h)
      | inr (route, e) ↦
          first_hop-through lookup route route.next_hops e refl
            (sym (ap (λ o. hop_leaves vpn.index (hop_of o)) e) ∙ h)
    ],
    λ through.
        let (route, e, (hop, others, k, same)) = through in
        ap (λ o. hop_leaves vpn.index (hop_of o)) e
        ∙ ap (λ hops. hop_leaves vpn.index (first hops)) k
        ∙ (==_iff hop.out_interface_index vpn.index).1 same,
  )

-- Tests that decide propositions decide these of both.
module _ {B C : Type 0} where
  or_iff : (b c : Bool) → ((b ≡ true) ↔ B) → ((c ≡ true) ↔ C) → ((b || c) ≡ true) ↔ (B ⊎ C)
  or_iff true c f g = (λ h. inl (f.0 refl), λ either. refl)
  or_iff false true f g = (λ h. inr (g.0 refl), λ either. refl)
  or_iff false false f g = (λ h. cc, λ either. elim either [ inl x ↦ f.1 x | inr y ↦ g.1 y ])

  one_iff :
      (b c : Bool)
      → ((b ≡ true) ↔ B)
      → ((c ≡ true) ↔ C)
      → (differ b c ≡ true) ↔ ((B × (¬ C)) ⊎ ((¬ B) × C))
  one_iff true true f g = (
    λ h. cc,
    λ either. elim either [
      | inl (x, none_c) ↦ absurd (none_c (g.0 refl))
      | inr (none_b, y) ↦ absurd (none_b (f.0 refl))
    ],
  )
  one_iff true false f g = (λ h. inl (f.0 refl, λ y. cc (g.1 y)), λ either. refl)
  one_iff false true f g = (λ h. inr ((λ x. cc (f.1 x)), g.0 refl), λ either. refl)
  one_iff false false f g =
      (λ h. cc, λ either. elim either [ inl (x, none_c) ↦ f.1 x | inr (none_b, y) ↦ g.1 y ])

not_iff : {B : Type 0} (b : Bool) → ((b ≡ true) ↔ B) → (not b ≡ true) ↔ (¬ B)
not_iff true f = (λ h. cc, λ none_b. absurd (none_b (f.0 refl)))
not_iff false f = (λ h x. cc (f.1 x), λ none_b. refl)

module _ (rules : List RoutingRule) (vpn_tables : List ℕ) (uid : ℕ)
    (lookup_v4 lookup_v6 : RouteLookup) (android_state : Option (List AndroidNetwork))
    (interfaces : List Interface) where
  abbrev assessment : VpnAssessment
  assessment = assess_vpn rules vpn_tables uid lookup_v4 lookup_v6 android_state interfaces

  abbrev assessment_on : Interface → VpnAssessment
  assessment_on = assess_vpn_on rules vpn_tables uid lookup_v4 lookup_v6 android_state

  -- The first tunnel that is up has the property.
  abbrev pub FirstTunnel : (Interface → Type 0) → Type 0
  FirstTunnel P = (vpn : Interface) × IsFirst is_up_tunnel interfaces vpn × P vpn

  assessed :
      (o : Option Interface)
      → find is_up_vpn interfaces ≡ o
      → assessment ≡ assess_with rules vpn_tables uid lookup_v4 lookup_v6 android_state o
  unfolding assess_vpn
  assessed o e = ap (assess_with rules vpn_tables uid lookup_v4 lookup_v6 android_state) e

  flag_iff :
      (flag : VpnAssessment → Bool) (P : Interface → Type 0)
      → flag no_assessment ≡ false
      → ((vpn : Interface) → (flag (assessment_on vpn) ≡ true) ↔ P vpn)
      → (flag assessment ≡ true) ↔ FirstTunnel P
  flag_iff flag P unset on = (
    λ h. elim (Option-cases (find is_up_vpn interfaces)) [
      | inl absent ↦ cc (sym unset ∙ (sym (ap flag (assessed none absent)) ∙ h))
      | inr (vpn, found) ↦ (
        vpn,
        find-IsFirst is_up_vpn is_up_tunnel up_vpn-tunnel interfaces vpn found,
        (on vpn).0 (sym (ap flag (assessed (some vpn) found)) ∙ h),
      )
    ],
    λ found.
        let (vpn, is_first, p) = found in
        ap flag (
          assessed (some vpn)
            (IsFirst-find is_up_vpn is_up_tunnel up_vpn-tunnel interfaces vpn is_first))
        ∙ (on vpn).1 p,
  )

  abbrev pub V4Inside : Interface → Type 0
  V4Inside vpn = LeavesThrough vpn lookup_v4

  abbrev pub V6Inside : Interface → Type 0
  V6Inside vpn = LeavesThrough vpn lookup_v6

  -- An assessment is about the first tunnel that is up. The app uses the VPN exactly where the kernel's route of one family
  -- has its first hop out of that tunnel; it bypasses the VPN exactly where there is such a tunnel and neither has;
  -- IPv6 is inside exactly where its route has; and the tunnel is split exactly where one of the two has and the other
  -- has not.
  pub assess_vpn_iff :
      ((assessment.app_uses_vpn ≡ true) ↔ FirstTunnel (λ vpn. V4Inside vpn ⊎ V6Inside vpn))
      × ((assessment.app_bypasses_vpn ≡ true)
          ↔ FirstTunnel (λ vpn. ¬ (V4Inside vpn ⊎ V6Inside vpn)))
      × ((assessment.ipv6_inside_vpn ≡ true) ↔ FirstTunnel V6Inside)
      × ((assessment.split_tunnel ≡ true)
          ↔ FirstTunnel
              (λ vpn. (V4Inside vpn × (¬ V6Inside vpn)) ⊎ ((¬ V4Inside vpn) × V6Inside vpn)))
  unfolding assess_vpn_on
  assess_vpn_iff =
      let uses = λ (vpn : Interface).
        or_iff (leaves_by vpn.index lookup_v4) (leaves_by vpn.index lookup_v6)
          (leaves_iff vpn lookup_v4) (leaves_iff vpn lookup_v6) in
      (
        flag_iff (λ a. a.app_uses_vpn) _ refl uses,
        flag_iff (λ a. a.app_bypasses_vpn) _ refl (λ vpn. not_iff _ (uses vpn)),
        flag_iff (λ a. a.ipv6_inside_vpn) _ refl (λ vpn. leaves_iff vpn lookup_v6),
        flag_iff (λ a. a.split_tunnel) _ refl
            (λ vpn.
              one_iff (leaves_by vpn.index lookup_v4) (leaves_by vpn.index lookup_v6)
                (leaves_iff vpn lookup_v4) (leaves_iff vpn lookup_v6)),
      )
