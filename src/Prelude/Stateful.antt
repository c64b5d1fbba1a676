-- ===== src/Prelude/Stateful.antt =====
-- Code that changes a state and may throw: an exception keeps the changes that were made before it.
use ceema.Prelude.Outcome.{Result, Error, ok, err}

abbrev pub M : Type 0 → Type 0 → Type 0
M S A = S → Result A × S

module _ {S : Type 0} where
  abbrev pub pure : {A : Type 0} → A → M S A
  pure a s = (ok a, s)

  abbrev pub throw : {A : Type 0} → Error → M S A
  throw e s = (err e, s)

  abbrev pub bind : {A B : Type 0} → Result A × S → (A → M S B) → Result B × S
  bind (ok a, s) k = k a s
  bind (err e, s) k = (err e, s)

  infixl 5 ◌>>=◌ ◌>>◌
  abbrev pub ◌>>=◌ : {A B : Type 0} → M S A → (A → M S B) → M S B
  ◌>>=◌ m k s = bind (m s) k

  abbrev pub ◌>>◌ : {A B : Type 0} → M S A → M S B → M S B
  ◌>>◌ m k s = bind (m s) (λ _. k)

  -- A statement that only changes the state.
  abbrev pub change : (S → S) → M S (Unit {0})
  change g s = (ok tt, g s)

-- What every statement does to the state is done by the statements together.
pub bind_keeps {κ} :
    {S A B : Type 0} (R : S → Type κ) (r : Result A × S) (k : A → M S B)
    → R r.1
    → ((a : A) (s : S) → R s → R (k a s).1)
    → R (bind r k).1
bind_keeps R (ok a, s) k h step = step a s h
bind_keeps R (err e, s) k h step = h
