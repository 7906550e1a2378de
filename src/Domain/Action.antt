-- ===== src/Domain/Action.antt =====
-- Code that reads and writes a state and may throw: what was written before a throw stays written,
-- since each repository call commits its own transaction.
pub mod Laws
use logalot.Base.{Bool, if◌then◌else◌}
use logalot.Domain.Errors.{Error, Result, ok, err}

abbrev pub Action {ℓ} : Type ℓ → Type ℓ → Type ℓ
Action S A = S → Result A × S

module _ {ℓ} {S A : Type ℓ} where
  abbrev pub pure : A → Action S A
  pure a s = (ok a, s)

  abbrev pub throw : Error → Action S A
  throw e s = (err e, s)

  abbrev pub lift : Result A → Action S A
  lift r s = (r, s)

infixl 5 ◌>>=◌ ◌>>◌
abbrev pub ◌>>=◌ {ℓ} : {S A B : Type ℓ} → Action S A → (A → Action S B) → Action S B
◌>>=◌ m f s = let (r, s') = m s in elim r [ ok a ↦ f a s' | err e ↦ (err e, s') ]

abbrev pub ◌>>◌ : {S B : Type 0} → Action S (Unit {0}) → Action S B → Action S B
m >> k = m >>= λ _. k

abbrev pub throw_when : {S : Type 0} → Bool → Error → Action S (Unit {0})
throw_when b e s = (if b then err e else ok tt, s)
