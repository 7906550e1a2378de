-- ===== src/Domain/Action/Laws.antt =====
-- What a sequence of two actions does.
use logalot.Base.{inl, inr, ◌≡◌, arith, ◌∙◌}
use logalot.Domain.Action.{◌>>=◌, Action, lift}
use logalot.Domain.Errors.{ok, err, Error, Result-cases, Result}

-- A sequence that succeeds has run its first action with success, and then the second.
pub bind-ok :
    {S A B : Type 0} (m : Action S A) (f : A → Action S B) (s : S) (b : B)
    → ((m >>= f) s).0 ≡ ok b
    → (a : A) × ((m s).0 ≡ ok a) × ((m >>= f) s ≡ f a (m s).1)
bind-ok m f s b h = elim (Result-cases (m s).0) [
  | inl (a, e) ↦ (a, e, rw (◌>>=◌, e))
  | inr (x, e) ↦ absurd (ground arith)
]

-- What both actions leave as it is, the sequence leaves as it is.
pub bind-keeps :
    {S A B X : Type 0} (part : S → X) (m : Action S A) (f : A → Action S B) (s : S)
    → part (m s).1 ≡ part s
    → ((a : A) (t : S) → part (f a t).1 ≡ part t)
    → part ((m >>= f) s).1 ≡ part s
bind-keeps part m f s h k = elim (Result-cases (m s).0) [
  | inl (a, e) ↦ rw (◌>>=◌, e) (k a (m s).1 ∙ h)
  | inr (x, e) ↦ rw (◌>>=◌, e) h
]

-- What the second action leaves as it is, the sequence has from the first.
pub bind-after :
    {S A B X : Type 0} (part : S → X) (m : Action S A) (f : A → Action S B) (s : S)
    → ((a : A) (t : S) → part (f a t).1 ≡ part t)
    → part ((m >>= f) s).1 ≡ part (m s).1
bind-after part m f s k = elim (Result-cases (m s).0) [
  | inl (a, e) ↦ rw (◌>>=◌, e) (k a (m s).1)
  | inr (x, e) ↦ rw (◌>>=◌, e)
]

-- A sequence whose first action fails fails with its error.
pub bind-err :
    {S A B : Type 0} (m : Action S A) (f : A → Action S B) (s : S) (e : Error)
    → (m s).0 ≡ err e
    → (m >>= f) s ≡ (err e, (m s).1)
bind-err m f s e h = rw (◌>>=◌, h)

-- What the first action establishes and the second keeps, the sequence establishes.
pub bind-invariant {κ} :
    {S A B : Type 0} (P : S → Type κ) (m : Action S A) (f : A → Action S B) (s : S)
    → P (m s).1
    → ((a : A) (t : S) → P t → P (f a t).1)
    → P ((m >>= f) s).1
bind-invariant P m f s h k = elim (Result-cases (m s).0) [
  | inl (a, e) ↦ rw (◌>>=◌, e) (k a (m s).1 h)
  | inr (x, e) ↦ rw (◌>>=◌, e) h
]

-- A check in front of an action that establishes `P` from `P`.
pub check-invariant {κ} :
    {S A B : Type 0} (P : S → Type κ) (r : Result A) (m : Action S B) (s : S)
    → P s
    → P (m s).1
    → P ((lift r >>= λ _. m) s).1
check-invariant P (ok a) m s h k = k
check-invariant P (err e) m s h k = h
