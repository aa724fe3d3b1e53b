-- ===== src/Onboard/Store/Applied.antt =====
-- ApplyOnboardScan of internal/api/pgstore.go: every selection is accounted for.
use changelogue.Prelude.{ℕ, List}
use changelogue.Exec.{Outcome}
use changelogue.Exec.Rules.{Outcome-imp}
use changelogue.Db.{Db, past_call}
use changelogue.Db.Rules.{transaction-Outcome}
use changelogue.Ingestion.Atomic.{IsAtomic, transaction-IsAtomic}
use changelogue.Onboard.Store.{
  OnboardSelection, Width, apply_all, nothing_applied, apply_onboard_scan,
}
use changelogue.Onboard.Store.Accounts.{Applied, Applied-faults}
use changelogue.Onboard.Store.Selected.{apply_all-Applied}
use changelogue.Onboard.Store.Calm.{apply_all-IsHonest}

-- Whatever calls fail: where the selections are applied, the answer accounts for each of them. Its
-- sources and projects are what was stored, in order, and nothing else was; each of the sources is one
-- that was asked for; every repository that was asked for is watched; the sources and the skipped
-- selections are as many as the selections; and no repository is watched twice that was not before.
-- Where an error comes back, the database is as before, or as after a run without faults (when only
-- the answer to COMMIT was lost).
pub apply_onboard_scan-Applied :
    (fits : Width) (scan : ℕ) (sels : List OnboardSelection) (db : Db)
    → Outcome
        (λ _. Unit {0})
        (Applied sels nothing_applied db)
        (apply_onboard_scan fits scan sels db)
      × IsAtomic (apply_onboard_scan fits scan sels) db
unfolding apply_onboard_scan
apply_onboard_scan-Applied fits scan sels db = (
  transaction-Outcome (λ _. Unit {0}) (Applied sels nothing_applied db) (λ d fs k. tt)
      (λ res d fs k. Applied-faults sels nothing_applied res db d db.faults fs k) (λ res d k. tt)
      (apply_all fits sels nothing_applied) db tt
      (Outcome-imp (λ _. Unit {0}) (λ _. Unit {0}) (Applied sels nothing_applied (past_call db))
        (Applied sels nothing_applied db) (apply_all fits sels nothing_applied (past_call db))
        (λ _ _. tt)
        (λ res d k. Applied-faults sels nothing_applied res (past_call db) d db.faults d.faults k)
        (apply_all-Applied fits sels nothing_applied (past_call db))),
  transaction-IsAtomic (apply_all fits sels nothing_applied) db
      (apply_all-IsHonest fits sels nothing_applied),
)
