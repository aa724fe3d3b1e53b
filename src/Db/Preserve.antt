-- ===== src/Db/Preserve.antt =====
-- Predicates on the database that an action leaves true, whatever calls fail.
use changelogue.Prelude.{List}
use changelogue.Exec.{Error, Fault, Exec, Outcome, pure, raise, attempt, ◌>>=◌}
use changelogue.Exec.Rules.{bind-Outcome, Outcome-imp, outcome_state}
use changelogue.Db.{Db, past_call, statement, query, transaction}
use changelogue.Db.Rules.{statement-Outcome, query-Outcome, transaction-Outcome}

-- `blind`: the predicate says nothing of the faults to come.
module _ (P : Db → Type 0)
    (blind : (db : Db) (fs : List Fault) → P db → P (record db { faults = fs })) where
  abbrev pub Preserves : {A : Type 0} → Exec Db A → Type 0
  Preserves m = (db : Db) → P db → Outcome P (λ _. P) (m db)

  pub query-Preserves : {A : Type 0} (f : Db → A) → Preserves (query f)
  query-Preserves f db h =
      let later = blind db (past_call db).faults h in query-Outcome P (λ _. P) f db later later

  pub statement-Preserves :
      {A : Type 0} (f : Db → A × Db) → ((db : Db) → P db → P (f db).1) → Preserves (statement f)
  statement-Preserves f k db h =
      let later = blind db (past_call db).faults h in
      statement-Outcome P (λ _. P) f db (λ a d q. q) later (k (past_call db) later)

  pub bind-Preserves :
      {A B : Type 0} (m : Exec Db A) (f : A → Exec Db B)
      → Preserves m
      → ((a : A) → Preserves (f a))
      → Preserves (m >>= f)
  bind-Preserves m f h k db p = bind-Outcome P (λ _. P) (λ _. P) m f db (h db p) (λ a d q. k a d q)

  pub attempt-Preserves : {A : Type 0} (m : Exec Db A) → Preserves m → Preserves (attempt m)
  attempt-Preserves m h db p = outcome_state P (m db) (h db p)

  pub pure-Preserves : {A : Type 0} (a : A) → Preserves (pure a)
  pure-Preserves a db p = p

  pub raise-Preserves : (A : Type 0) (e : Error) → Preserves {A = A} (raise e)
  raise-Preserves A e db p = p

  pub transaction-Preserves :
      {A : Type 0} (body : Exec Db A) → Preserves body → Preserves (transaction body)
  transaction-Preserves body h db p =
      transaction-Outcome P (λ _. P) blind (λ a d fs k. blind d fs k) (λ a d k. k) body db p
        (Outcome-imp P (λ _. Unit) (λ _. P) (λ _. P) (body (past_call db)) (λ d k. tt) (λ a d k. k)
          (h (past_call db) (blind db _ p)))
