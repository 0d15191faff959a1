-- ===== src/Findings/Index.antt =====
-- daemon/src/diag/rules.rs: `CheckIndex`, the checks by key. Of two checks with one key the later
-- one is kept, as `HashMap::from_iter` does.
use netdiag.Prelude.{
  String, Bool, true, false, Option, none, some, List, [], ◌∷◌, if◌then◌else◌, str_eq,
}
use netdiag.Findings.Model.{Check, CheckStatus, status_of_code}

pub record CheckIndex : Type 0 where
  pub by_key : String → Option Check

pub insert : Check → CheckIndex → CheckIndex
insert c index = record { by_key = λ key. if str_eq c.key key then some c else index.by_key key }

pub insert_all : List Check → CheckIndex → CheckIndex
unfolding insert
insert_all [] index = index
insert_all (c ∷ checks) index = insert_all checks (insert c index)

unfoldable pub new : List Check → CheckIndex
unfolding insert_all
new checks = insert_all checks (record { by_key = λ key. none })

module _ (index : CheckIndex) (key : String) where
  unfoldable pub status : Option CheckStatus
  status = elim (index.by_key key) [ none ↦ none | some c ↦ status_of_code c.status ]

  unfoldable pub passed : Bool
  unfolding status
  passed = elim status [ some CheckStatus.pass ↦ true | _ ↦ false ]

  unfoldable pub failed : Bool
  unfolding status
  failed = elim status [ some CheckStatus.fail ↦ true | _ ↦ false ]

  unfoldable pub warned : Bool
  unfolding status
  warned = elim status [ some CheckStatus.warn ↦ true | _ ↦ false ]

  unfoldable pub skipped : Bool
  unfolding status
  skipped = elim status [ some CheckStatus.skip ↦ true | _ ↦ false ]

  unfoldable pub detail : String
  detail = elim (index.by_key key) [ none ↦ "" | some c ↦ c.detail ]

pub lookup : String → List (String × String) → Option String
lookup field [] = none
lookup field ((name, value) ∷ rest) = if str_eq name field then some value else lookup field rest

unfoldable pub evidence : CheckIndex → String → String → Option String
unfolding lookup
evidence index key field = elim (index.by_key key) [
  | none ↦ none
  | some c ↦ lookup field c.evidence
]
