-- ===== src/Auth/Accepts.antt =====
-- daemon/src/ipc/auth.rs: exactly which peers are accepted.
use netdiag.Prelude.{
  ◌∷◌, false, is_empty, Option-cases, ℕ, String, ◌≡◌, refl, sym, ap, ◌∙◌, subst, ◌↔◌, ◌⊎◌, inl, inr,
  true, Option, none, some, List, [], arith, eq_iff, ◌==◌, Bool-cases, contains, str_eq,
}
use netdiag.Auth.Peer.{
  Credentials, PeerIdentity, AuthPolicy, Outcome, uid_allowed, identity_of, check_package,
  read_cmdline, before_nul, authorize,
}

-- The package is not expected, or has no name, or the expected one.
abbrev NameFits : Option String → Option String → Type 0
NameFits none cmdline = Unit
NameFits (some expected) none = Unit
NameFits (some expected) (some actual) = actual ≡ expected

empty-nil : (bytes : List ℕ) → is_empty bytes ≡ true → bytes ≡ []
empty-nil [] h = refl
empty-nil (b ∷ bytes) h = cc

accepted-injective : (i j : PeerIdentity) → Outcome.accepted i ≡ Outcome.accepted j → j ≡ i
accepted-injective i j e = cc

uid_allowed-cases :
    (policy : AuthPolicy) (uid : ℕ)
    → uid_allowed policy uid ≡ true
    → (uid ≡ 0) ⊎ (contains policy.allowed_uids uid ≡ true)
unfolding uid_allowed
uid_allowed-cases policy uid h = elim (Bool-cases (uid == 0)) [
  | inl root ↦ inl (ground (arith, root))
  | inr app ↦ inr (rw app at h)
]

uid_allowed-holds :
    (policy : AuthPolicy) (uid : ℕ)
    → (uid ≡ 0) ⊎ (contains policy.allowed_uids uid ≡ true)
    → uid_allowed policy uid ≡ true
unfolding uid_allowed
uid_allowed-holds policy uid (inl root) = ground (arith, root)
uid_allowed-holds policy uid (inr listed) = ground (arith, listed)

module _ (to_text : List ℕ → String) (cmdline_of : ℕ → Option (List ℕ)) where
  -- Where a package is expected and the kernel gives the pid of a peer whose command line can be read, what stands there
  -- before the first zero byte is empty or the expected name.
  abbrev pub PackageFits : Option String → Option ℕ → Type 0
  PackageFits none pid = Unit
  PackageFits (some expected) none = Unit
  PackageFits (some expected) (some pid) =
      (bytes : List ℕ)
      → cmdline_of pid ≡ some bytes
      → (before_nul bytes ≡ []) ⊎ (to_text (before_nul bytes) ≡ expected)

  abbrev pub IsAccepted : Option Credentials → AuthPolicy → PeerIdentity → Type 0
  IsAccepted peer policy i =
      (cred : Credentials) × (peer ≡ some cred)
      × (i ≡ identity_of to_text cmdline_of cred)
      × ((cred.uid ≡ 0) ⊎ (contains policy.allowed_uids cred.uid ≡ true))
      × PackageFits policy.expect_package cred.pid

  abbrev name_of : Option ℕ → Option String
  name_of pid = elim pid [ none ↦ none | some p ↦ read_cmdline to_text cmdline_of p ]

  module _ (expected : String) (pid : ℕ) where
    abbrev Named : Option String → Type 0
    Named o = NameFits (some expected) o

    read-none : cmdline_of pid ≡ none → read_cmdline to_text cmdline_of pid ≡ none
    unfolding read_cmdline
    read-none e = rw (e, read_cmdline) refl

    read-empty :
        (bytes : List ℕ)
        → cmdline_of pid ≡ some bytes
        → is_empty (before_nul bytes) ≡ true
        → read_cmdline to_text cmdline_of pid ≡ none
    unfolding read_cmdline
    read-empty bytes e h = rw (e, h, read_cmdline) refl

    read-name :
        (bytes : List ℕ)
        → cmdline_of pid ≡ some bytes
        → is_empty (before_nul bytes) ≡ false
        → read_cmdline to_text cmdline_of pid ≡ some (to_text (before_nul bytes))
    unfolding read_cmdline
    read-name bytes e h = rw (e, h, read_cmdline) refl

    cmdline_fits :
        Named (read_cmdline to_text cmdline_of pid) → PackageFits (some expected) (some pid)
    cmdline_fits h bytes e = elim (Bool-cases (is_empty (before_nul bytes))) [
      | inl empty ↦ inl (empty-nil (before_nul bytes) empty)
      | inr named ↦ inr (subst Named (read-name bytes e named) h)
    ]

    fits_cmdline :
        PackageFits (some expected) (some pid) → Named (read_cmdline to_text cmdline_of pid)
    fits_cmdline h = elim (Option-cases (cmdline_of pid)) [
      | inl unread ↦ subst Named (sym (read-none unread)) tt
      | inr (bytes, e) ↦ elim (Bool-cases (is_empty (before_nul bytes))) [
        | inl empty ↦ subst Named (sym (read-empty bytes e empty)) tt
        | inr named ↦
            subst Named (sym (read-name bytes e named))
              (named_fits (before_nul bytes) named (h bytes e))
      ]
    ]
      where
        named_fits :
            (name : List ℕ)
            → is_empty name ≡ false
            → (name ≡ []) ⊎ (to_text name ≡ expected)
            → to_text name ≡ expected
        named_fits name named (inl e) = cc (rw e at named)
        named_fits name named (inr same) = same

  name_fits :
      (expected : Option String) (pid : Option ℕ)
      → NameFits expected (name_of pid)
      → PackageFits expected pid
  name_fits none pid h = tt
  name_fits (some expected) none h = tt
  name_fits (some expected) (some pid) h = cmdline_fits expected pid h

  fits_name :
      (expected : Option String) (pid : Option ℕ)
      → PackageFits expected pid
      → NameFits expected (name_of pid)
  fits_name none none h = tt
  fits_name none (some pid) h = tt
  fits_name (some expected) none h = tt
  fits_name (some expected) (some pid) h = fits_cmdline expected pid h

  package_fits :
      (i j : PeerIdentity) (expected cmdline : Option String)
      → check_package to_text cmdline_of i expected cmdline ≡ Outcome.accepted j
      → (j ≡ i) × NameFits expected cmdline
  package_fits i j none cmdline e = (accepted-injective i j e, tt)
  package_fits i j (some expected) none e = (accepted-injective i j e, tt)
  package_fits i j (some expected) (some actual) e = elim (Bool-cases (str_eq actual expected)) [
    | inl same ↦
        (accepted-injective i j (rw same at e), ground (arith, same, eq_iff actual expected))
    | inr different ↦ cc (rw different at e)
  ]

  package_accepted :
      (i : PeerIdentity) (expected cmdline : Option String)
      → NameFits expected cmdline
      → check_package to_text cmdline_of i expected cmdline ≡ Outcome.accepted i
  package_accepted i none cmdline h = refl
  package_accepted i (some expected) none h = refl
  package_accepted i (some expected) (some actual) h = rw ((eq_iff actual expected).1 h) refl

  accepted_fits :
      (peer : Option Credentials) (policy : AuthPolicy) (i : PeerIdentity)
      → authorize to_text cmdline_of peer policy ≡ Outcome.accepted i
      → IsAccepted peer policy i
  unfolding authorize identity_of
  accepted_fits none policy i e = cc
  accepted_fits (some cred) policy i e =
      let who = identity_of to_text cmdline_of cred in
      elim (Bool-cases (uid_allowed policy cred.uid)) [
        | inl allowed ↦
            let (same, fits) =
              package_fits who i policy.expect_package who.cmdline (rw allowed at e) in
            (
              cred,
              refl,
              same,
              uid_allowed-cases policy cred.uid allowed,
              name_fits policy.expect_package cred.pid fits,
            )
        | inr foreign ↦ cc (rw foreign at e)
      ]

  fits_accepted :
      (peer : Option Credentials) (policy : AuthPolicy) (i : PeerIdentity)
      → IsAccepted peer policy i
      → authorize to_text cmdline_of peer policy ≡ Outcome.accepted i
  unfolding authorize identity_of
  fits_accepted peer policy i (cred, known, same, allowed, fits) =
      let who = identity_of to_text cmdline_of cred in
      rw (known, uid_allowed-holds policy cred.uid allowed)
        (package_accepted who policy.expect_package who.cmdline
            (fits_name policy.expect_package cred.pid fits)
          ∙ ap Outcome.accepted (sym same))

  -- A peer is accepted exactly where its kernel credentials are read, its uid is root or listed, and the package fits:
  -- none is expected, or the peer's pid or command line cannot be read, or the command line starts with an empty name, or
  -- its first name, trimmed, is the expected one; and it is accepted as whom the kernel says it is.
  pub authorize_iff :
      (peer : Option Credentials) (policy : AuthPolicy) (i : PeerIdentity)
      → (authorize to_text cmdline_of peer policy ≡ Outcome.accepted i) ↔ IsAccepted peer policy i
  authorize_iff peer policy i = (accepted_fits peer policy i, fits_accepted peer policy i)
