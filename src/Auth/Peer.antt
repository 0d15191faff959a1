-- ===== src/Auth/Peer.antt =====
-- daemon/src/ipc/auth.rs: `authorize` and what it calls. The kernel's answer to SO_PEERCRED and the
-- contents of /proc/<pid>/cmdline are arguments, `none` where they cannot be read; `to_text` is
-- `String::from_utf8_lossy` with `trim`.
use netdiag.Prelude.{
  ℕ, String, Bool, true, not, Option, none, some, List, [], ◌∷◌, map, ◌==◌, if◌then◌else◌, is_empty,
  contains, str_eq, concat, join, show,
}

pub record Credentials : Type 0 where
  pub uid : ℕ
  pub gid : ℕ
  pub pid : Option ℕ

pub record PeerIdentity : Type 0 where
  pub uid : ℕ
  pub gid : ℕ
  pub pid : Option ℕ
  pub cmdline : Option String

pub record AuthPolicy : Type 0 where
  pub allowed_uids : List ℕ
  pub expect_package : Option String

pub data Outcome : Type 0 where
  accepted : PeerIdentity → Outcome
  refused : String → Outcome

-- `impl Display for PeerIdentity`; the pid is printed as the number that it is.
unfoldable pub show_identity : PeerIdentity → String
show_identity i = concat (
    "uid="
    ∷ show i.uid
    ∷ " gid="
    ∷ show i.gid
    ∷ elim i.pid [ none ↦ "" | some pid ↦ concat (" pid=" ∷ show pid ∷ []) ]
    ∷ elim i.cmdline [ none ↦ "" | some cmd ↦ concat (" cmdline=" ∷ cmd ∷ []) ]
    ∷ [])

unfoldable pub describe : AuthPolicy → String
describe policy =
    let uids = if is_empty policy.allowed_uids then "0" ∷ [] else map show policy.allowed_uids in
    concat (
      "uids=["
      ∷ join "," uids
      ∷ "]"
      ∷ elim policy.expect_package [ none ↦ "" | some pkg ↦ concat (" package=" ∷ pkg ∷ []) ]
      ∷ [])

unfoldable pub uid_allowed : AuthPolicy → ℕ → Bool
uid_allowed policy uid = if uid == 0 then true else contains policy.allowed_uids uid

-- `raw.split(|b| *b == 0).next()`
unfoldable pub before_nul : List ℕ → List ℕ
before_nul [] = []
before_nul (b ∷ bs) = let rest = before_nul bs in if b == 0 then [] else b ∷ rest

module _ (to_text : List ℕ → String) (cmdline_of : ℕ → Option (List ℕ)) where
  unfoldable pub read_cmdline : ℕ → Option String
  unfolding before_nul
  read_cmdline pid = elim (cmdline_of pid) [
    | none ↦ none
    | some bytes ↦ if is_empty (before_nul bytes) then none else some (to_text (before_nul bytes))
  ]

  unfoldable pub identity_of : Credentials → PeerIdentity
  unfolding read_cmdline
  identity_of cred = record {
    uid = cred.uid;
    gid = cred.gid;
    pid = cred.pid;
    cmdline = elim cred.pid [ none ↦ none | some pid ↦ read_cmdline pid ];
  }

  -- The check of the package, where one is expected; a cmdline that cannot be read passes.
  abbrev pub check_package : PeerIdentity → Option String → Option String → Outcome
  check_package i none cmdline = Outcome.accepted i
  check_package i (some expected) none = Outcome.accepted i
  check_package i (some expected) (some actual) =
      if str_eq actual expected
      then Outcome.accepted i
      else Outcome.refused (
          concat ("peer " ∷ show_identity i ∷ " runs as " ∷ actual ∷ ", expected " ∷ expected ∷ []))

  abbrev pub decide : AuthPolicy → PeerIdentity → Outcome
  decide policy i =
      if not (uid_allowed policy i.uid)
      then Outcome.refused (
          concat (
            "peer "
            ∷ show_identity i
            ∷ " is not in the allowed uid set ("
            ∷ describe policy
            ∷ ")"
            ∷ []))
      else check_package i policy.expect_package i.cmdline

  unfoldable pub authorize : Option Credentials → AuthPolicy → Outcome
  unfolding identity_of
  authorize none policy = Outcome.refused "SO_PEERCRED failed; refusing the connection"
  authorize (some cred) policy = decide policy (identity_of cred)
