-- ===== src/Db/Rows.antt =====
-- What Go makes of the rows that a statement gives.
use changelogue.Prelude.{ℕ, Bool, true, false, Option, none, some, ◌==◌}
use changelogue.Exec.{Exec, not_found, external, pure, raise}
use changelogue.Db.{Db}

-- A column that may be NULL against a value.
abbrev pub equals : Option ℕ → ℕ → Bool
equals none id = false
equals (some n) id = n == id

-- `QueryRow(…).Scan(…)` gives an error where there is no row.
abbrev pub required : {A : Type 0} → Option A → Exec Db A
required none = raise not_found
required (some a) = pure a

-- `tag.RowsAffected() == 0` is an error.
abbrev pub or_missing : Bool → Exec Db (Unit {0})
or_missing true = pure tt
or_missing false = raise not_found

-- A statement that PostgreSQL refuses.
abbrev pub or_refuse : {A : Type 0} → Option A → Exec Db A
or_refuse none = raise external
or_refuse (some a) = pure a
