-- ===== src/Auth/Checks.antt =====
-- Concrete peers, and the theorem at one.
use netdiag.Prelude.{
  ℕ, String, ◌≡◌, refl, ◌↔◌, true, false, Option, none, some, List, [], ◌∷◌, concat, join, show,
}
use netdiag.Auth.Peer.{
  Credentials, AuthPolicy, Outcome, uid_allowed, describe, identity_of, authorize,
}
use netdiag.Auth.Accepts.{IsAccepted, authorize_iff}

abbrev root_only : AuthPolicy
root_only = record { allowed_uids = []; expect_package = none }

abbrev one_app : AuthPolicy
one_app = record { allowed_uids = 10342 ∷ []; expect_package = some "app" }

-- Every command line reads as "app".
abbrev app_text : List ℕ → String
app_text bytes = "app"

abbrev some_cmdline : ℕ → Option (List ℕ)
some_cmdline pid = some (97 ∷ 0 ∷ 98 ∷ [])

abbrev app_peer : Credentials
app_peer = record { uid = 10342; gid = 10342; pid = some 77 }

root_allowed : uid_allowed root_only 0 ≡ true
unfolding uid_allowed
root_allowed = refl

unlisted : uid_allowed one_app 10999 ≡ false
unfolding uid_allowed
unlisted = refl

described : describe one_app ≡ "uids=[10342] package=app"
unfolding describe concat join show
described = refl

-- A command line that starts with a zero byte names no package, and the peer is accepted by its uid.
unnamed :
    authorize app_text (λ pid. some (0 ∷ 98 ∷ [])) (some app_peer) one_app
    ≡ Outcome.accepted (record { uid = 10342; gid = 10342; pid = some 77; cmdline = none })
unfolding authorize uid_allowed
unnamed = refl

authorize_iff_example :
    (authorize app_text some_cmdline (some app_peer) one_app
      ≡ Outcome.accepted (identity_of app_text some_cmdline app_peer))
    ↔ IsAccepted app_text some_cmdline
        (some app_peer)
        one_app
        (identity_of app_text some_cmdline app_peer)
authorize_iff_example =
    authorize_iff app_text some_cmdline (some app_peer) one_app
      (identity_of app_text some_cmdline app_peer)
