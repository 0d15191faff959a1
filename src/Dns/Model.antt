-- ===== src/Dns/Model.antt =====
-- daemon/src/probe/dns.rs: the record types, the response codes, the errors, and what a function returns: a value,
-- an error, a panic where an index is out of range, or nothing where a loop has not ended.
use netdiag.Prelude.{
  ℕ, zero, suc, ◌+◌, ◌<◌, String, ◌≡◌, refl, Bool, true, false, Option, none, some, List, [], ◌∷◌,
  arith, ◌==◌, if◌then◌else◌, length, get_elem?, concat, show, u16_be,
}

abbrev pub type_a : ℕ
type_a = 1

abbrev pub type_aaaa : ℕ
type_aaaa = 28

pub data RCode : Type 0 where
  no_error form_err serv_fail nx_domain not_imp refused : RCode
  other : ℕ → RCode

unfoldable pub from_u8 : ℕ → RCode
from_u8 v =
    if v == 0
    then RCode.no_error
    else if v == 1
    then RCode.form_err
    else if v == 2
    then RCode.serv_fail
    else if v == 3
    then RCode.nx_domain
    else if v == 4
    then RCode.not_imp
    else if v == 5
    then RCode.refused
    else RCode.other v

unfoldable pub name : RCode → String
name RCode.no_error = "NOERROR"
name RCode.form_err = "FORMERR"
name RCode.serv_fail = "SERVFAIL"
name RCode.nx_domain = "NXDOMAIN"
name RCode.not_imp = "NOTIMP"
name RCode.refused = "REFUSED"
name (RCode.other v) = concat ("RCODE" ∷ show v ∷ [])

-- The messages of the `bail!`s.
pub data Error : Type 0 where
  label_too_long : List ℕ → Error
  name_past_end truncated_pointer too_many_labels short_response : Error
  wrong_id : ℕ → ℕ → Error

pub data Outcome {ℓ} (A : Type ℓ) : Type ℓ where
  ok : A → Outcome A
  err : Error → Outcome A
  panicked unfinished : Outcome A

infixl 5 ◌>>=◌
-- The `?` operator.
abbrev pub ◌>>=◌ {ℓ κ} : {A : Type ℓ} {B : Type κ} → Outcome A → (A → Outcome B) → Outcome B
ok a >>= f = f a
err e >>= f = err e
panicked >>= f = panicked
unfinished >>= f = unfinished

abbrev pub or_panic {ℓ} : {A : Type ℓ} → Option A → Outcome A
or_panic none = Outcome.panicked
or_panic (some a) = Outcome.ok a

-- `bs[i]`
abbrev pub at : List ℕ → ℕ → Outcome ℕ
at bs i = or_panic (get_elem? bs i)

-- `u16::from_be_bytes([bs[i], bs[i + 1]])`
unfoldable pub word_at : List ℕ → ℕ → Outcome ℕ
word_at bs i = do a ← at bs i; b ← at bs (i + 1); Outcome.ok (u16_be a b)

-- The function returns, and what it returns without an error satisfies `P`.
abbrev pub Returns {ℓ} : {A : Type ℓ} → (A → Type 0) → Outcome A → Type 0
Returns P (ok a) = P a
Returns P (err e) = Unit
Returns P panicked = true ≡ false
Returns P unfinished = true ≡ false

pub >>=-Returns {ℓ κ} :
    {A : Type ℓ} {B : Type κ} (P : A → Type 0) (Q : B → Type 0) (o : Outcome A) (f : A → Outcome B)
    → Returns P o
    → ((a : A) → P a → Returns Q (f a))
    → Returns Q (o >>= f)
>>=-Returns P Q (ok a) f p h = h a p
>>=-Returns P Q (err e) f p h = tt
>>=-Returns P Q panicked f p h = p
>>=-Returns P Q unfinished f p h = p

pub if-Returns {ℓ} :
    {A : Type ℓ} (P : A → Type 0) (b : Bool) (x y : Outcome A)
    → (b ≡ true → Returns P x)
    → (b ≡ false → Returns P y)
    → Returns P (if b then x else y)
if-Returns P true x y h g = h refl
if-Returns P false x y h g = g refl

abbrev pub Anything : ℕ → Type 0
Anything n = Unit

pub at-Returns : (bs : List ℕ) (i : ℕ) → i < length bs → Returns Anything (at bs i)
at-Returns [] i h = absurd (omega arith)
at-Returns (b ∷ bs) zero h = tt
at-Returns (b ∷ bs) (suc i) h = at-Returns bs i (omega arith)

pub word_at-Returns : (bs : List ℕ) (i : ℕ) → i + 1 < length bs → Returns Anything (word_at bs i)
unfolding word_at
word_at-Returns bs i h =
    >>=-Returns Anything Anything (at bs i) _ (at-Returns bs i (omega arith))
      (λ a u. >>=-Returns Anything Anything (at bs (i + 1)) _ (at-Returns bs (i + 1) h) (λ b v. tt))
