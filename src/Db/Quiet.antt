-- ===== src/Db/Quiet.antt =====
-- Runs in which no call fails.
use changelogue.Prelude.{◌≡◌, refl, ap, ◌∙◌, []}
use changelogue.Exec.{
  Exec, Result, ok, err, Fault, served, refused, unacked, continue, attempt, ◌>>=◌,
}
use changelogue.Db.{
  Db, next_fault, later_faults, past_call, under, statement, read_under, query, commit, finish,
  begin, transaction,
}

-- Where no fault lies ahead of an action, none does after it.
abbrev pub IsQuiet : {A : Type 0} → Exec Db A → Type 0
IsQuiet m = (db : Db) → db.faults ≡ [] → (m db).1.faults ≡ []

past_call-faults : (db : Db) → db.faults ≡ [] → (past_call db).faults ≡ []
past_call-faults db e = ap later_faults e

under-faults :
    {A : Type 0} (fault : Fault) (f : Db → A × Db) (db : Db)
    → ((d : Db) → (f d).1.faults ≡ d.faults)
    → (under fault f db).1.faults ≡ db.faults
under-faults served f db keeps = keeps db
under-faults refused f db keeps = refl
under-faults unacked f db keeps = keeps db

pub statement-IsQuiet :
    {A : Type 0} (f : Db → A × Db) → ((d : Db) → (f d).1.faults ≡ d.faults) → IsQuiet (statement f)
unfolding statement
statement-IsQuiet f keeps db e =
    under-faults (next_fault db.faults) f (past_call db) keeps ∙ past_call-faults db e

read_under-faults :
    {A : Type 0} (fault : Fault) (f : Db → A) (db : Db)
    → (read_under fault f db).1.faults ≡ db.faults
read_under-faults served f db = refl
read_under-faults refused f db = refl
read_under-faults unacked f db = refl

pub query-IsQuiet : {A : Type 0} (f : Db → A) → IsQuiet (query f)
unfolding query
query-IsQuiet f db e =
    read_under-faults (next_fault db.faults) f (past_call db) ∙ past_call-faults db e

continue-faults :
    {A B : Type 0} (x : Result A × Db) (f : A → Exec Db B)
    → x.1.faults ≡ []
    → ((a : A) → IsQuiet (f a))
    → (continue x.0 f x.1).1.faults ≡ []
continue-faults (ok a, db) f e quiet = quiet a db e
continue-faults (err c, db) f e quiet = e

pub bind-IsQuiet :
    {A B : Type 0} (m : Exec Db A) (f : A → Exec Db B)
    → IsQuiet m
    → ((a : A) → IsQuiet (f a))
    → IsQuiet (m >>= f)
bind-IsQuiet m f quiet_m quiet_f db e = continue-faults (m db) f (quiet_m db e) quiet_f

pub attempt-IsQuiet : {A : Type 0} (m : Exec Db A) → IsQuiet m → IsQuiet (attempt m)
attempt-IsQuiet m quiet db e = quiet db e

commit-faults :
    {A : Type 0} (before : Db) (fault : Fault) (a : A) (db : Db)
    → (commit before fault a db).1.faults ≡ db.faults
commit-faults before served a db = refl
commit-faults before refused a db = refl
commit-faults before unacked a db = refl

finish-faults :
    {A : Type 0} (before : Db) (x : Result A × Db)
    → x.1.faults ≡ []
    → (finish before x).1.faults ≡ []
finish-faults before (ok a, db) e =
    commit-faults before (next_fault db.faults) a (past_call db) ∙ past_call-faults db e
finish-faults before (err c, db) e = e

begin-faults :
    {A : Type 0} (fault : Fault) (body : Exec Db A) (db : Db)
    → db.faults ≡ []
    → IsQuiet body
    → (begin fault body db).1.faults ≡ []
begin-faults served body db e quiet = finish-faults db (body db) (quiet db e)
begin-faults refused body db e quiet = e
begin-faults unacked body db e quiet = e

pub transaction-IsQuiet :
    {A : Type 0} (body : Exec Db A) → IsQuiet body → IsQuiet (transaction body)
unfolding transaction
transaction-IsQuiet body quiet db e =
    begin-faults (next_fault db.faults) body (past_call db) (past_call-faults db e) quiet
