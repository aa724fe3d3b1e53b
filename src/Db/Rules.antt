-- ===== src/Db/Rules.antt =====
-- Statements, queries and transactions under every fault.
use changelogue.Prelude.{List}
use changelogue.Exec.{Result, ok, err, Fault, served, refused, unacked, Exec, Outcome}
use changelogue.Db.{
  Db, next_fault, past_call, under, statement, read_under, query, commit, finish, begin,
  transaction,
}

module _ {A : Type 0} (P : Db → Type 0) (Q : A → Db → Type 0) where
  under-Outcome :
      (fault : Fault) (f : Db → A × Db) (db : Db)
      → ((a : A) (d : Db) → Q a d → P d)
      → P db
      → Q (f db).0 (f db).1
      → Outcome P Q (under fault f db)
  under-Outcome served f db w p q = q
  under-Outcome refused f db w p q = p
  under-Outcome unacked f db w p q = w _ _ q

  pub statement-Outcome :
      (f : Db → A × Db) (db : Db)
      → ((a : A) (d : Db) → Q a d → P d)
      → P (past_call db)
      → Q (f (past_call db)).0 (f (past_call db)).1
      → Outcome P Q (statement f db)
  unfolding statement
  statement-Outcome f db w p q = under-Outcome (next_fault db.faults) f (past_call db) w p q

  read_under-Outcome :
      (fault : Fault) (f : Db → A) (db : Db)
      → P db
      → Q (f db) db
      → Outcome P Q (read_under fault f db)
  read_under-Outcome served f db p q = q
  read_under-Outcome refused f db p q = p
  read_under-Outcome unacked f db p q = p

  pub query-Outcome :
      (f : Db → A) (db : Db)
      → P (past_call db)
      → Q (f (past_call db)) (past_call db)
      → Outcome P Q (query f db)
  unfolding query
  query-Outcome f db p q = read_under-Outcome (next_fault db.faults) f (past_call db) p q

-- P and Q say nothing of the faults to come.
module _ {A : Type 0} (P : Db → Type 0) (Q : A → Db → Type 0)
    (P-faults : (db : Db) (fs : List Fault) → P db → P (record db { faults = fs }))
    (Q-faults : (a : A) (db : Db) (fs : List Fault) → Q a db → Q a (record db { faults = fs }))
    (weaken : (a : A) (db : Db) → Q a db → P db) where
  commit-Outcome :
      (before : Db) (fault : Fault) (a : A) (db : Db)
      → P before
      → Q a db
      → Outcome P Q (commit before fault a db)
  commit-Outcome before served a db p q = q
  commit-Outcome before refused a db p q = P-faults before db.faults p
  commit-Outcome before unacked a db p q = weaken a db q

  finish-Outcome :
      (before : Db) (x : Result A × Db)
      → P before
      → Outcome (λ _. Unit) Q x
      → Outcome P Q (finish before x)
  finish-Outcome before (ok a, db) p q =
      commit-Outcome before (next_fault db.faults) a (past_call db) p (Q-faults a db _ q)
  finish-Outcome before (err e, db) p q = P-faults before db.faults p

  begin-Outcome :
      (fault : Fault) (body : Exec Db A) (db : Db)
      → P db
      → Outcome (λ _. Unit) Q (body db)
      → Outcome P Q (begin fault body db)
  begin-Outcome served body db p q = finish-Outcome db (body db) p q
  begin-Outcome refused body db p q = p
  begin-Outcome unacked body db p q = p

  -- A transaction that fails leaves what held before it; one that returns, or whose COMMIT was not
  -- answered, leaves what its body establishes.
  pub transaction-Outcome :
      (body : Exec Db A) (db : Db)
      → P db
      → Outcome (λ _. Unit) Q (body (past_call db))
      → Outcome P Q (transaction body db)
  unfolding transaction
  transaction-Outcome body db p q =
      begin-Outcome (next_fault db.faults) body (past_call db) (P-faults db _ p) q
