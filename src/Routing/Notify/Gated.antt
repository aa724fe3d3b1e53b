-- ===== src/Routing/Notify/Gated.antt =====
-- A project with an enabled release gate gets no agent run from the version rules.
use changelogue.Prelude.{
  ℕ, ◌≡◌, refl, Bool, true, false, Option, none, some, List, [], ◌∷◌, Bytes, Bool-cases, inl, inr,
}
use changelogue.Exec.{Result, ok, err, Outcome, pure, attempt, ◌>>=◌}
use changelogue.Exec.Rules.{bind-Outcome, outcome_state}
use changelogue.Models.{Source, Subscription, NotificationChannel, Notification, AgentRun, Job}
use changelogue.Db.Rows.{required}
use changelogue.Db.{Db, query}
use changelogue.Db.Rules.{query-Outcome}
use changelogue.Db.Preserve.{
  Preserves, query-Preserves, statement-Preserves, bind-Preserves, attempt-Preserves,
  pure-Preserves,
}
use changelogue.Gate.Store.{find_source, exists_gate, has_release_gate}
use changelogue.Routing.Rules.{Matcher}
use changelogue.Routing.Store.{
  ReleaseInfo, get_release, get_source, get_project, get_channel, list_source_subscriptions,
  create_release_todo, todo_at, find_todo_of,
}
use changelogue.Routing.Notify.{
  Setup, is_known, senders, message, send, send_to, notify_all, try_agent_rules, is_wanted, deliver,
  deliver_if, work,
}

-- The source belongs to a gated project, and the runs and jobs are these.
pub record IsGated (id : ℕ) (source : Source) (runs : List AgentRun) (jobs : List Job) (db : Db)
    : Type 0 where
  pub found : find_source id db.sources ≡ some source
  pub gated : exists_gate source.project_id db.gates ≡ true
  pub same_runs : db.runs ≡ runs
  pub same_jobs : db.jobs ≡ jobs

module _ (id : ℕ) (source : Source) (runs : List AgentRun) (jobs : List Job) where
  abbrev P : Db → Type 0
  P = IsGated id source runs jobs

  blind : (db : Db) (fs : _) → P db → P (record db { faults = fs })
  blind db fs h = record {
    found = h.found;
    gated = h.gated;
    same_runs = h.same_runs;
    same_jobs = h.same_jobs;
  }

  required-Preserves : {A : Type 0} (o : Option A) → Preserves P blind (required o)
  required-Preserves none db h = h
  required-Preserves (some a) db h = h

  -- A query for a row that has to be there.
  lookup-Preserves : {A : Type 0} (f : Db → Option A) → Preserves P blind (query f >>= required)
  lookup-Preserves f =
      bind-Preserves P blind (query f) required (query-Preserves P blind f)
        (λ o. required-Preserves o)

  create_release_todo-Preserves : (release : ℕ) → Preserves P blind (create_release_todo release)
  unfolding create_release_todo
  create_release_todo-Preserves release =
      statement-Preserves P blind _ (λ db h. inserted db h (find_todo_of release db.todos))
    where
      inserted : (db : Db) → P db → (o : Option _) → P (todo_at o release db).1
      inserted db h none = record {
        found = h.found;
        gated = h.gated;
        same_runs = h.same_runs;
        same_jobs = h.same_jobs;
      }
      inserted db h (some t) = h

  send-Preserves :
      (channel : NotificationChannel) (msg : Notification) → Preserves P blind (send channel msg)
  unfolding send
  send-Preserves channel msg = statement-Preserves P blind _ λ db h. record {
    found = h.found;
    gated = h.gated;
    same_runs = h.same_runs;
    same_jobs = h.same_jobs;
  }

  send_to-Preserves :
      (msg : Notification) (r : Result NotificationChannel)
      → Preserves P blind (send_to senders msg r)
  send_to-Preserves msg (err e) = pure-Preserves P blind tt
  send_to-Preserves msg (ok channel) = elim (Bool-cases (is_known channel.kind senders)) [
    | inl known ↦ rw known (
        bind-Preserves P blind (attempt (send channel msg)) (λ _. pure tt)
          (attempt-Preserves P blind (send channel msg) (send-Preserves channel msg))
          (λ _. pure-Preserves P blind tt))
    | inr unknown ↦ rw unknown (pure-Preserves P blind tt)
  ]

  notify_all-Preserves :
      (msg : Notification) (subs : List Subscription)
      → Preserves P blind (notify_all senders msg subs)
  unfolding notify_all get_channel
  notify_all-Preserves msg [] = pure-Preserves P blind tt
  notify_all-Preserves msg (sub ∷ subs) =
      bind-Preserves P blind (attempt (get_channel sub.channel_id)) _
        (attempt-Preserves P blind (get_channel sub.channel_id) (lookup-Preserves _))
        λ r.
          bind-Preserves P blind (send_to senders msg r) _ (send_to-Preserves msg r)
            (λ _. notify_all-Preserves msg subs)

  has_release_gate-Outcome :
      (db : Db)
      → P db
      → Outcome P (λ gated d. (gated ≡ true) × P d) (has_release_gate source.project_id db)
  unfolding has_release_gate
  has_release_gate-Outcome db h =
      query-Outcome P (λ gated d. (gated ≡ true) × P d) _ db (blind db _ h) (h.gated, blind db _ h)

  try_agent_rules-Preserves :
      (matcher : Matcher) (version : Bytes)
      → Preserves P blind (try_agent_rules matcher source version)
  unfolding try_agent_rules get_project
  try_agent_rules-Preserves matcher version =
      bind-Preserves P blind (get_project source.project_id) _ (lookup-Preserves _) λ project db h.
        bind-Outcome P (λ gated d. (gated ≡ true) × P d) (λ _. P)
          (has_release_gate source.project_id) _ db (has_release_gate-Outcome db h)
          λ gated d k. rw k.0 k.1

  deliver_if-Preserves :
      (wanted : Bool) (setup : Setup) (release : ReleaseInfo) (is_update : Bool)
      → Preserves P blind (deliver_if wanted setup source release id is_update)
  unfolding deliver list_source_subscriptions
  deliver_if-Preserves false setup release is_update = pure-Preserves P blind tt
  deliver_if-Preserves true setup release is_update =
      bind-Preserves P blind (create_release_todo release.id) _
        (create_release_todo-Preserves release.id)
        λ todo.
          bind-Preserves P blind (list_source_subscriptions id) _ (query-Preserves P blind _)
            λ subs.
              bind-Preserves P blind
                (notify_all senders (message setup release is_update todo) subs) _
                (notify_all-Preserves (message setup release is_update todo) subs)
                λ _.
                  bind-Preserves P blind
                    (attempt (try_agent_rules setup.matcher source release.version)) (λ _. pure tt)
                    (attempt-Preserves P blind _
                      (try_agent_rules-Preserves setup.matcher release.version))
                    (λ _. pure-Preserves P blind tt)

  get_source-Outcome : (db : Db) → P db → Outcome P (λ s d. (s ≡ source) × P d) (get_source id db)
  unfolding get_source
  get_source-Outcome db h =
      bind-Outcome P (λ o d. (o ≡ some source) × P d) (λ s d. (s ≡ source) × P d) (query _) required
        db
        (query-Outcome P (λ o d. (o ≡ some source) × P d) _ db (blind db _ h)
          (h.found, blind db _ h))
        λ o d k. rw k.0 (refl, k.1)

  work-Preserves :
      (setup : Setup) (release_id : ℕ) (is_update : Bool)
      → Preserves P blind (work setup release_id id is_update)
  unfolding work get_release
  work-Preserves setup release_id is_update =
      bind-Preserves P blind (get_release release_id) _ (lookup-Preserves _) λ release db h.
        bind-Outcome P (λ s d. (s ≡ source) × P d) (λ _. P) (get_source id) _ db
          (get_source-Outcome db h)
          λ s d k. rw k.0 (
            deliver_if-Preserves (is_wanted setup.matcher source release) setup release is_update d
              k.1)

-- Whatever calls fail: a notification job for a source whose project has an enabled release gate
-- starts no agent run and queues no job, whatever the project's version rules say.
pub gated_starts_none :
    (setup : Setup) (release_id id : ℕ) (is_update : Bool) (source : Source) (db : Db)
    → find_source id db.sources ≡ some source
    → exists_gate source.project_id db.gates ≡ true
    → ((work setup release_id id is_update db).1.runs ≡ db.runs)
      × ((work setup release_id id is_update db).1.jobs ≡ db.jobs)
gated_starts_none setup release_id id is_update source db found gated =
    let start : IsGated id source db.runs db.jobs db = record {
      found = found;
      gated = gated;
      same_runs = refl;
      same_jobs = refl;
    } in
    let done =
      outcome_state (IsGated id source db.runs db.jobs) (work setup release_id id is_update db)
        (work-Preserves id source db.runs db.jobs setup release_id is_update db start) in
    (done.same_runs, done.same_jobs)
