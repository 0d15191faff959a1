-- ===== src/Correlate/Bypass.antt =====
-- What the reason of a VPN assessment says is true of the rules.
use netdiag.Prelude.{◌⊎◌, ℕ, ◌<◌, ◌≡◌, Bool, true, false, not, ◌&&◌, List, length, any, filter}
use netdiag.Prelude.First.{IsFirst}
use netdiag.Correlate.Model.{RoutingRule}
use netdiag.Correlate.Vpn.{rule_can_match_uid, is_vpn_uid_rule, Reason}

-- A range that leaves the uid out, one that takes it, and one that takes it into the VPN's table, by the test of routes.rs.
abbrev pub leaves_out : ℕ → RoutingRule → Bool
leaves_out uid r = r.has_uid_range && (r.invert && not (rule_can_match_uid r uid))

abbrev pub takes : ℕ → RoutingRule → Bool
takes uid r = r.has_uid_range && (not r.invert && rule_can_match_uid r uid)

module _ (rules : List RoutingRule) (vpn_tables : List ℕ) (uid : ℕ) (uses_vpn : Bool) where
  -- A range into the VPN's table takes the uid.
  abbrev pub reaches_vpn : Bool
  reaches_vpn =
      any (λ r. is_vpn_uid_rule vpn_tables r && not r.invert && rule_can_match_uid r uid) rules

  -- What each reason says of the rules, by the selector test of routes.rs.
  abbrev pub Accounts : Reason → Type 0
  Accounts (Reason.excluded_by rule) = IsFirst (leaves_out uid) rules rule
  Accounts (Reason.outside_all count) =
      (uses_vpn ≡ false)
      × (0 < count)
      × (count ≡ length (filter (is_vpn_uid_rule vpn_tables) rules))
      × (reaches_vpn ≡ false)
  Accounts (Reason.sent_elsewhere rule) =
      (uses_vpn ≡ false)
      × IsFirst (takes uid) rules rule
      × ((any (is_vpn_uid_rule vpn_tables) rules ≡ false) ⊎ (reaches_vpn ≡ true))
  Accounts Reason.not_selected =
      (uses_vpn ≡ false)
      × (any (λ r. r.has_uid_range && not r.invert && rule_can_match_uid r uid) rules ≡ false)
  Accounts Reason.no_reason = uses_vpn ≡ true

  -- Why the uid is not outside all ranges into the VPN's table.
  abbrev NotOutside : Type 0
  NotOutside = (any (is_vpn_uid_rule vpn_tables) rules ≡ false) ⊎ (reaches_vpn ≡ true)
