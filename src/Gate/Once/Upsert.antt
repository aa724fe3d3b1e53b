-- ===== src/Gate/Once/Upsert.antt =====
-- What UpsertVersionReadiness does to the invariant.
use changelogue.Prelude.{
  ℕ, ◌+◌, ◌≡◌, refl, ◌∙◌, true, false, Option, none, some, List, [], ◌∷◌, Bytes, ◌==◌, ==_refl,
  arith, Bool-cases, inl, inr, All,
}
use changelogue.Exec.{Outcome}
use changelogue.Exec.Rules.{bind-Outcome}
use changelogue.Models.{
  VersionReadiness, AgentRun, Job, notify_release, agent_run, gate_check, gate_nl_eval,
}
use changelogue.Db.{Db, past_call, statement}
use changelogue.Db.Rules.{statement-Outcome}
use changelogue.Gate.Store.{
  find_id, find_key, has_key, is_pending, meet_source, new_readiness, upsert_at,
  upsert_version_readiness,
}
use changelogue.Gate.Table.{
  IdsBelow, find_id-update_id, find_id_of_find_key, find_key-has_key, has_key-eq, find_id-lt,
}
use changelogue.Gate.Once.{
  opened_gates, Names, IsNamed, IsGenuine, Safe, IsSafeWith, Holds, KeepsOpen, Safe-update_id,
}
use changelogue.Gate.Once.Steps.{meet-id}

meet-KeepsOpen :
    (source : ℕ) (required : List ℕ) (now : ℕ) → KeepsOpen (meet_source source required now)
meet-KeepsOpen source required now = record {
  key = record {
    id = λ r. (meet-id source required now r).0;
    project = λ r. (meet-id source required now r).1;
    version = λ r. (meet-id source required now r).2;
  };
  status_stays = λ r h. (meet-id source required now r).3;
}

module _ (new : VersionReadiness) (rows : List VersionReadiness) where
  Names-cons :
      (j p : ℕ) (v : Bytes) → IdsBelow new.id rows → Names j p v rows → Names j p v (new ∷ rows)
  unfolding find_id
  Names-cons j p v k (r, found, same_p, same_v) =
      let older = find_id-lt j new.id rows r k found in
      let differs : (new.id == j) ≡ false = ground arith in (r, rw differs found, same_p, same_v)

  IsGenuine-cons :
      (jobs : List Job)
      → IdsBelow new.id rows
      → All (IsGenuine rows) jobs
      → All (IsGenuine (new ∷ rows)) jobs
  IsGenuine-cons [] k h = tt
  IsGenuine-cons (notify_release r s u ∷ js) k h = (tt, IsGenuine-cons js k h.1)
  IsGenuine-cons (agent_run j p v ∷ js) k h = (tt, IsGenuine-cons js k h.1)
  IsGenuine-cons (gate_check s r v ∷ js) k h = (tt, IsGenuine-cons js k h.1)
  IsGenuine-cons (gate_nl_eval j p v ∷ js) k h = (Names-cons j p v k h.0, IsGenuine-cons js k h.1)

  pub IsNamed-cons :
      (r : VersionReadiness) → IdsBelow new.id rows → IsNamed rows r → IsNamed (new ∷ rows) r
  unfolding find_id
  IsNamed-cons r k (q, found, same_p, same_v, final) =
      let older = find_id-lt r.id new.id rows q k found in
      let differs : (new.id == r.id) ≡ false = ground arith in
      (q, rw differs found, same_p, same_v, final)

  pub IsNamed-cons-All :
      (held : List VersionReadiness)
      → IdsBelow new.id rows
      → All (IsNamed rows) held
      → All (IsNamed (new ∷ rows)) held
  IsNamed-cons-All [] k h = tt
  IsNamed-cons-All (r ∷ rs) k h = (IsNamed-cons r k h.0, IsNamed-cons-All rs k h.1)

  opened_gates-cons :
      (q : ℕ) (w : Bytes)
      → is_pending new.status ≡ true
      → find_key new.project_id new.version rows ≡ none
      → opened_gates q w (new ∷ rows) ≡ opened_gates q w rows
  unfolding opened_gates find_key
  opened_gates-cons q w waiting absent = elim (Bool-cases (has_key q w new)) [
    | inl hit ↦
        let (same_q, same_w) = has_key-eq q w new hit in
        let none_there : find_key q w rows ≡ none = rw (← same_q, ← same_w) absent in
        rw (hit, waiting, none_there)
    | inr miss ↦ rw miss
  ]

  Safe-cons :
      (held : List VersionReadiness) (runs : List AgentRun) (jobs : List Job)
      → is_pending new.status ≡ true
      → find_key new.project_id new.version rows ≡ none
      → Safe held new.id rows runs jobs
      → Safe held (new.id + 1) (new ∷ rows) runs jobs
  Safe-cons held runs jobs waiting absent s = record {
    ids = (omega arith, s.ids);
    keys = (absent, s.keys);
    genuine = IsGenuine-cons jobs s.ids s.genuine;
    named = IsNamed-cons-All held s.ids s.named;
    budget = λ q w. rw (opened_gates-cons q w waiting absent) (s.budget q w);
  }

module _ (held : List VersionReadiness) (p : ℕ) (v : Bytes) (source : ℕ) (required : List ℕ)
    (hours : ℕ) where
  abbrev upserted : Db → VersionReadiness × Db
  upserted db = upsert_at (find_key p v db.readiness) p v source required hours db

  upsert_at-safe :
      (o : Option VersionReadiness) (db : Db)
      → find_key p v db.readiness ≡ o
      → IsSafeWith held db
      → IsSafeWith held (upsert_at o p v source required hours db).1
        × Names
            (upsert_at o p v source required hours db).0.id
            p
            v
            (upsert_at o p v source required hours db).1.readiness
  unfolding find_id new_readiness meet_source
  upsert_at-safe none db absent s =
      let new = new_readiness p v source required hours db in
      (
        Safe-cons new db.readiness held db.runs db.jobs refl absent s,
        (new, rw (==_refl db.next_id), refl, refl),
      )
  upsert_at-safe (some old) db present s =
      let f = meet_source source required db.now in
      let k = meet-KeepsOpen source required db.now in
      let (same_id, same_project, same_version, same_status) = meet-id source required db.now old in
      let (is_p, is_v) = has_key-eq p v old (find_key-has_key p v db.readiness old present) in
      let by_id = find_id_of_find_key p v db.next_id db.readiness old s.ids present in
      (
        Safe-update_id f k old.id held db.next_id db.readiness db.runs db.jobs s,
        (
          f old,
          rw (same_id, find_id-update_id f k.key old.id old.id db.readiness, by_id, ==_refl old.id),
          same_project ∙ is_p,
          same_version ∙ is_v,
        ),
      )

  -- The row that UpsertVersionReadiness returns is the row of the key, and may be worked on.
  pub upsert-Holds :
      (db : Db)
      → IsSafeWith held db
      → Outcome
          (IsSafeWith held)
          (λ r d. Holds held r.0.id p v 0 d)
          (upsert_version_readiness p v source required hours db)
  unfolding upsert_version_readiness
  upsert-Holds db s =
      bind-Outcome (IsSafeWith held) (λ r. Holds held r.id p v 0) (λ r d. Holds held r.0.id p v 0 d)
        (statement upserted) _ db
        (let (safe, names) = upsert_at-safe (find_key p v db.readiness) (past_call db) refl s in
          statement-Outcome (IsSafeWith held) (λ r. Holds held r.id p v 0) upserted db
            (λ r d h. h.safe) s
            (record { safe = safe; names = names; spare = omega (arith, safe.budget p v) }))
        (λ r d h. h)
