-- ===== src/Exec/Rules.antt =====
-- Rules for `Outcome`: what an action establishes, whether it returns or fails.
use changelogue.Exec.{Result, ok, err, Exec, Outcome, continue, ◌>>=◌}

module _ {S A B : Type 0} (E : S → Type 0) (Q : A → S → Type 0) (R : B → S → Type 0) where
  continue-Outcome :
      (x : Result A × S) (f : A → Exec S B)
      → Outcome E Q x
      → ((a : A) (s : S) → Q a s → Outcome E R (f a s))
      → Outcome E R (let (r, s) = x in continue r f s)
  continue-Outcome (ok a, s) f h k = k a s h
  continue-Outcome (err e, s) f h k = h

  pub bind-Outcome :
      (m : Exec S A) (f : A → Exec S B) (s : S)
      → Outcome E Q (m s)
      → ((a : A) (t : S) → Q a t → Outcome E R (f a t))
      → Outcome E R ((m >>= f) s)
  bind-Outcome m f s h k = continue-Outcome (m s) f h k

-- Weakening of both postconditions.
pub Outcome-imp :
    {S A : Type 0} (E F : S → Type 0) (Q R : A → S → Type 0) (x : Result A × S)
    → ((s : S) → E s → F s)
    → ((a : A) (s : S) → Q a s → R a s)
    → Outcome E Q x
    → Outcome F R x
Outcome-imp E F Q R (ok a, s) e q h = q a s h
Outcome-imp E F Q R (err c, s) e q h = e s h

-- Where an error and a result leave the same, the state alone is left with it.
pub outcome_state :
    {S A : Type 0} (P : S → Type 0) (x : Result A × S) → Outcome P (λ _. P) x → P x.1
outcome_state P (ok a, s) h = h
outcome_state P (err c, s) h = h
