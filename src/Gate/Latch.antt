-- ===== src/Gate/Latch.antt =====
-- What the gates of internal/gate promise: for each version of a project, a latch that opens once.
use mathlib.Core.Path.{subst}
use changelogue.Prelude.{
  ℕ, ◌≤◌, ◌≡◌, refl, sym, false, Option, none, some, [], Bytes, Option-cases, inl, inr,
  if◌then◌else◌,
}
use changelogue.Models.{VersionReadiness, Status, pending, ready, timed_out}
use changelogue.Db.{Db}
use changelogue.Gate.Store.{find_key, is_pending}
use changelogue.Gate.Table.{find_key-has_key, has_key-eq, find_key_of_find_id, find_id_of_find_key}
use changelogue.Gate.Once.{gate_runs, opened_gates, opened_count, IsSafe}
use changelogue.Gate.Reach.{Reach, Reach-IsSafe, row_stays, one_run_per_version}

-- No source has the version yet; some have; the gate was opened, as complete or by its timeout.
pub data Phase : Type 0 where
  unseen : Phase
  gathering : Phase
  complete : Phase
  overdue : Phase

-- The one-way steps of the latch.
pub data Advance : Phase → Phase → Type 0 where
  first_source : Advance unseen gathering
  completes : Advance gathering complete
  expires : Advance gathering overdue

pub data Advances (from : Phase) : Phase → Type 0 where
  stay : Advances from from
  onward : {a b : Phase} → Advances from a → Advance a b → Advances from b

-- The agent runs that a latch allows.
abbrev pub allowance : Phase → ℕ
allowance unseen = 0
allowance gathering = 0
allowance complete = 1
allowance overdue = 1

abbrev of_status : Status → Phase
of_status pending = gathering
of_status ready = complete
of_status timed_out = overdue

abbrev of_row : Option VersionReadiness → Phase
of_row none = unseen
of_row (some r) = of_status r.status

-- The phase that the database shows.
abbrev pub phase : ℕ → Bytes → Db → Phase
phase p v db = of_row (find_key p v db.readiness)

from_gathering : (s : Status) → Advances gathering (of_status s)
from_gathering pending = stay
from_gathering ready = onward stay completes
from_gathering timed_out = onward stay expires

from_unseen : (o : Option VersionReadiness) → Advances unseen (of_row o)
from_unseen none = stay
from_unseen (some r) = go r.status
  where
    go : (s : Status) → Advances unseen (of_status s)
    go pending = onward stay first_source
    go ready = onward (onward stay first_source) completes
    go timed_out = onward (onward stay first_source) expires

from_status : (s t : Status) → (is_pending s ≡ false → t ≡ s) → Advances (of_status s) (of_status t)
from_status pending t kept = from_gathering t
from_status ready t kept = rw (kept refl) stay
from_status timed_out t kept = rw (kept refl) stay

row-Advances :
    {db db' : Db} (p : ℕ) (v : Bytes) (r : VersionReadiness)
    → IsSafe db
    → Reach db db'
    → find_key p v db.readiness ≡ some r
    → Advances (of_status r.status) (phase p v db')
row-Advances {db} {db'} p v r s reach found =
    let (same_p, same_v) = has_key-eq p v r (find_key-has_key p v db.readiness r found) in
    let (q, found', p', v', kept) =
      row_stays r s reach (find_id_of_find_key p v db.next_id db.readiness r s.ids found) in
    let here : find_key p v db'.readiness ≡ some q = cc (
      find_key_of_find_id r.id db'.readiness q (Reach-IsSafe [] s reach).keys found',
      p',
      v',
      same_p,
      same_v,
    ) in
    subst (λ o. Advances (of_status r.status) (of_row o)) (sym here)
      (from_status r.status q.status kept)

phase-Advances :
    {db db' : Db} (p : ℕ) (v : Bytes)
    → IsSafe db
    → Reach db db'
    → Advances (phase p v db) (phase p v db')
phase-Advances {db} {db'} p v s reach = elim (Option-cases (find_key p v db.readiness)) [
  | inl absent ↦
      subst (λ o. Advances (of_row o) (phase p v db')) (sym absent)
        (from_unseen (find_key p v db'.readiness))
  | inr (r, found) ↦
      subst (λ o. Advances (of_row o) (phase p v db')) (sym found)
        (row-Advances p v r s reach found)
]

opened_gates-allowance :
    (p : ℕ) (v : Bytes) (db : Db) → opened_gates p v db.readiness ≡ allowance (phase p v db)
unfolding opened_gates
opened_gates-allowance p v db = go (find_key p v db.readiness)
  where
    by_status : (s : Status) → (if is_pending s then 0 else 1) ≡ allowance (of_status s)
    by_status pending = refl
    by_status ready = refl
    by_status timed_out = refl

    go : (o : Option VersionReadiness) → opened_count o ≡ allowance (of_row o)
    go none = refl
    go (some r) = by_status r.status

-- The gates implement the latch. From a state that meets the invariant, whatever jobs run, in whatever
-- order and however often, and whatever calls fail, the phase of each version of each project moves by
-- steps of the latch only, and the agent runs that its gate has started stay within the latch's
-- allowance: none before it opens, one at most after that.
pub gates_refine_latch :
    {db db' : Db} (p : ℕ) (v : Bytes)
    → IsSafe db
    → Reach db db'
    → Advances (phase p v db) (phase p v db') × (gate_runs p v db'.runs ≤ allowance (phase p v db'))
gates_refine_latch {db} {db'} p v s reach = (
  phase-Advances p v s reach,
  subst (λ n. gate_runs p v db'.runs ≤ n) (opened_gates-allowance p v db')
      ((one_run_per_version p v s reach).0),
)
