-- ===== src/Base/Results.antt =====
-- Go's results: a value, an error, or a panic (a dereference of nil), and the errors that the
-- program tells apart.
use Prim.Native.String.{String}
use mathlib.Core.Path.{◌≡◌, refl, subst}
use mathlib.Core.Logic.{◌⊎◌, inl, inr}
use mathlib.Core.Option.{Option, none, some}

pub data Error : Type 0 where
  other not_found already_exists : String → Error
  no_match not_registered : Error
  empty_endpoint empty_credential_type invalid_managed_cluster : Error
  wrapped : String → Error → Error
  aggregate : Error → Error → Error

pub data Result {ℓ} (A : Type ℓ) : Type ℓ where
  ok : A → Result A
  err : Error → Result A
  panic : Result A

infixl 5 ◌>>=◌
abbrev pub ◌>>=◌ {ℓ κ} : {In : Type ℓ} {Out : Type κ} → Result In → (In → Result Out) → Result Out
panic >>= next = panic
err x >>= next = err x
ok v >>= next = next v

-- A step that is run for its failure.
infixl 5 ◌>>◌
abbrev pub ◌>>◌ {ℓ} : {Out : Type ℓ} → Result (Unit {0}) → Result Out → Result Out
step >> rest = step >>= λ done. rest

-- `*p`
abbrev pub deref {ℓ} : {A : Type ℓ} → Option A → Result A
deref none = panic
deref (some a) = ok a

-- `errors.Wrapf` on the error path
abbrev pub wrap {ℓ} : {A : Type ℓ} → String → Result A → Result A
wrap text (ok a) = ok a
wrap text (err e) = err (wrapped text e)
wrap text panic = panic

pub ok-injective {ℓ} : {A : Type ℓ} {a b : A} → ok a ≡ ok b → a ≡ b
ok-injective e = cc e

-- Inversion of a successful bind.
pub >>=-eq-ok {ℓ κ} :
    {In : Type ℓ} {Out : Type κ} (first : Result In) (next : In → Result Out) {out : Out}
    → (first >>= next) ≡ ok out
    → (v : In) × (first ≡ ok v) × (next v ≡ ok out)
>>=-eq-ok panic next e = cc
>>=-eq-ok (err x) next e = cc
>>=-eq-ok (ok v) next e = (v, refl, e)

-- Whatever `r` returns has the property.
pub record Ensures {ℓ} {A : Type ℓ} (P : A → Type 0) (r : Result A) : Type ℓ where
  pub at : (a : A) → r ≡ ok a → P a

pub Ensures-bind {ℓ κ} :
    {A : Type ℓ} {B : Type κ} {P : B → Type 0} (m : Result A) (f : A → Result B)
    → ((a : A) → Ensures P (f a))
    → Ensures P (m >>= f)
Ensures-bind (ok a) f h = h a
Ensures-bind (err e) f h = record { at = λ b p. cc }
Ensures-bind panic f h = record { at = λ b p. cc }

module _ {ℓ} {A : Type ℓ} {P : A → Type 0} where
  pub Ensures-ok : (a : A) → P a → Ensures P (ok a)
  Ensures-ok a h = record { at = λ b e. subst P (cc e) h }

  pub Ensures-err : (e : Error) → Ensures P (err e)
  Ensures-err e = record { at = λ b p. cc }

  pub Ensures-panic : Ensures P panic
  Ensures-panic = record { at = λ b p. cc }

pub ruleset ensures_rules = (Ensures-bind, Ensures-ok, Ensures-err, Ensures-panic)

pub Result-cases {ℓ} :
    {A : Type ℓ} (r : Result A) → ((a : A) × (r ≡ ok a)) ⊎ ((e : Error) × (r ≡ err e)) ⊎ (r ≡ panic)
Result-cases (ok a) = inl (a, refl)
Result-cases (err e) = inr (inl (e, refl))
Result-cases panic = inr (inr refl)
