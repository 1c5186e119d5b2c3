-- ===== src/Base/Effects.antt =====
-- Code that changes a state and may fail: an action returns its result and the state that it left.
use mathlib.Core.Path.{◌≡◌, refl}
use package.cluster_gateway.Base.Results.{Error, Result, ok, err, panic}

abbrev pub Action {ℓ} : Type ℓ → Type ℓ → Type ℓ
Action S A = S → Result A × S

module _ {ℓ} {S A : Type ℓ} where
  abbrev pub pure : A → Action S A
  pure a s = (ok a, s)

  abbrev pub fail : Error → Action S A
  fail e s = (err e, s)

  abbrev pub lift : Result A → Action S A
  lift r s = (r, s)

module _ {ℓ} {S A B : Type ℓ} where
  -- What follows an action that has returned.
  abbrev pub continue : Result A → (A → Action S B) → Action S B
  continue (ok a) f s = f a s
  continue (err e) f s = (err e, s)
  continue panic f s = (panic, s)

  infixl 5 ◌>>=◌
  abbrev pub ◌>>=◌ : Action S A → (A → Action S B) → Action S B
  ◌>>=◌ m f s = let (r, s') = m s in continue r f s'

  pub >>=-eq-ok :
      (m : Action S A) (f : A → Action S B) (s : S) {b : B}
      → ((m >>= f) s).0 ≡ ok b
      → (a : A) × ((m s).0 ≡ ok a) × ((f a (m s).1).0 ≡ ok b)
  >>=-eq-ok m f s {b} h = go (m s).0 refl h
    where
      go :
          (r : Result A)
          → (m s).0 ≡ r
          → (continue r f (m s).1).0 ≡ ok b
          → (a : A) × ((m s).0 ≡ ok a) × ((f a (m s).1).0 ≡ ok b)
      go (ok a) e k = (a, e, k)
      go (err x) e k = cc
      go panic e k = cc
