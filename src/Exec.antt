-- ===== src/Exec.antt =====
-- Database and job-queue calls as actions on a state that carries a script of faults.
-- A Go function that returns `(T, error)` is an `Exec S T`: what was written before an error stays
-- written, so the state comes back beside the error too.

pub mod Rules

pub data Error : Type 0 where
  -- the call failed, or its answer was lost
  db_error : Error
  -- a NULL column was scanned into a Go value that cannot hold it
  null_column : Error
  -- no row matched where the code requires one
  not_found : Error
  -- the evaluator, the network or another collaborator returned an error
  external : Error

pub data Result {ℓ} (A : Type ℓ) : Type ℓ where
  ok : A → Result A
  err : Error → Result A

-- What the environment does to one call: it is carried out and answered; it is not carried out;
-- it is carried out and its answer is lost, so that the caller sees an error.
pub data Fault : Type 0 where
  served refused unacked : Fault

abbrev pub Exec {ℓ} : Type ℓ → Type ℓ → Type ℓ
Exec S A = S → Result A × S

module _ {ℓ} {S A : Type ℓ} where
  abbrev pub pure : A → Exec S A
  pure a s = (ok a, s)

  abbrev pub raise : Error → Exec S A
  raise e s = (err e, s)

  abbrev pub lift : Result A → Exec S A
  lift r s = (r, s)

  abbrev pub gets : (S → A) → Exec S A
  gets f s = (ok (f s), s)

  -- `if err := m(); err != nil { log }`: the error becomes a value.
  abbrev pub attempt : Exec S A → Exec S (Result A)
  attempt m s = let (r, s') = m s in (ok r, s')

module _ {ℓ} {S A B : Type ℓ} where
  abbrev pub continue : Result A → (A → Exec S B) → Exec S B
  continue (ok a) f s = f a s
  continue (err e) f s = (err e, s)

  infixl 10 ◌>>=◌ ◌>>◌
  abbrev pub ◌>>=◌ : Exec S A → (A → Exec S B) → Exec S B
  ◌>>=◌ m f s = let (r, s') = m s in continue r f s'

  abbrev pub ◌>>◌ : Exec S A → Exec S B → Exec S B
  m >> n = m >>= λ _. n

-- What holds of the state after an action, by its outcome.
module _ {ℓ} {S A : Type ℓ} (E : S → Type ℓ) (Q : A → S → Type ℓ) where
  abbrev pub Outcome : Result A × S → Type ℓ
  Outcome (ok a, s) = Q a s
  Outcome (err e, s) = E s
