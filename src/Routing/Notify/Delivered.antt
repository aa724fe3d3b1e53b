-- ===== src/Routing/Notify/Delivered.antt =====
-- What a notification job sends, where no call fails.
use mathlib.Core.Path.{subst}
use changelogue.Prelude.{
  ℕ, ◌≡◌, refl, sym, Bool, true, false, Option, none, some, List, [], ◌∷◌, Bytes, if◌then◌else◌,
  Bool-cases, Option-cases, inl, inr,
}
use changelogue.Exec.{Exec, Result, ok, pure, attempt, ◌>>=◌}
use changelogue.Exec.Rules.{outcome_state}
use changelogue.Models.{
  Source, Release, Todo, Subscription, NotificationChannel, Notification, Sent, RulesColumn, absent,
  malformed, parsed, auto_version,
}
use changelogue.Db.Rows.{required}
use changelogue.Db.{Db, query}
use changelogue.Db.Preserve.{
  Preserves, query-Preserves, statement-Preserves, bind-Preserves, pure-Preserves,
  transaction-Preserves,
}
use changelogue.Gate.Store.{
  find_source, has_release_gate, enqueue_agent_run, insert_run, insert_job,
}
use changelogue.Ingestion.Atomic.{calm}
use changelogue.Routing.Rules.{Matcher, check_agent_rules}
use changelogue.Routing.Store.{
  ReleaseInfo, join, find_release_id, find_channel, get_release, get_source, get_project,
  get_channel, list_source_subscriptions, get_previous_release, create_release_todo, todo_at,
  find_todo_of, subscriptions_of,
}
use changelogue.Routing.Notify.{
  Setup, is_known, senders, message, send, notify_all, rules_of, version_or_empty, start_if,
  unless_gated, try_agent_rules, is_wanted, deliver, work,
}

abbrev reached : Notification → Option NotificationChannel → List Sent → List Sent
reached msg none rest = rest
reached msg (some c) rest =
    if is_known c.kind senders then record { channel = c; message = msg } ∷ rest else rest

-- One message for each subscription whose channel is there and has a sender, in their order.
unfoldable pub deliveries : Notification → List NotificationChannel → List Subscription → List Sent
deliveries msg channels [] = []
deliveries msg channels (sub ∷ subs) =
    reached msg (find_channel sub.channel_id channels) (deliveries msg channels subs)

-- The log after these messages, one after another.
unfoldable pub log_all : List Sent → List Sent → List Sent
log_all [] log = log
log_all (x ∷ xs) log = log_all xs (x ∷ log)

notify_all-deliveries :
    (msg : Notification) (subs : List Subscription) (db : Db)
    → notify_all senders msg subs (calm db)
      ≡ (ok tt, record (calm db) { sent = log_all (deliveries msg db.channels subs) db.sent })
unfolding notify_all deliveries log_all get_channel send
notify_all-deliveries msg [] db = refl
notify_all-deliveries msg (sub ∷ subs) db =
    elim (Option-cases (find_channel sub.channel_id db.channels)) [
      | inl missing ↦ rw missing (notify_all-deliveries msg subs db)
      | inr (c, found) ↦ elim (Bool-cases (is_known c.kind senders)) [
        | inl known ↦
            rw (found, known)
              (notify_all-deliveries msg subs
                (record db { sent = record { channel = c; message = msg } ∷ db.sent }))
        | inr unknown ↦ rw (found, unknown) (notify_all-deliveries msg subs db)
      ]
    ]

module _ (log : List Sent) (todos : List Todo) where
  abbrev pub Logged : Db → Type 0
  Logged db = (db.sent ≡ log) × (db.todos ≡ todos)

  pub blind : (db : Db) (fs : _) → Logged db → Logged (record db { faults = fs })
  blind db fs h = h

  required-Preserves : {A : Type 0} (o : Option A) → Preserves Logged blind (required o)
  required-Preserves none db h = h
  required-Preserves (some a) db h = h

  rules_of-Preserves : (c : RulesColumn) → Preserves Logged blind (rules_of c)
  rules_of-Preserves absent db h = h
  rules_of-Preserves (malformed partial) db h = h
  rules_of-Preserves (parsed r) db h = h

  start_if-Preserves : (b : Bool) (p : ℕ) (v : Bytes) → Preserves Logged blind (start_if b p v)
  unfolding enqueue_agent_run insert_run insert_job
  start_if-Preserves false p v = pure-Preserves Logged blind tt
  start_if-Preserves true p v = transaction-Preserves Logged blind _ (
      bind-Preserves Logged blind (insert_run p (auto_version v) v) _
        (statement-Preserves Logged blind _ (λ d h. h))
        (λ run. statement-Preserves Logged blind _ (λ d h. h)))

  unless_gated-Preserves :
      (gated : Bool) (matcher : Matcher) (c : RulesColumn) (source : Source) (version : Bytes)
      → Preserves Logged blind (unless_gated matcher c source version gated)
  unfolding get_previous_release
  unless_gated-Preserves true matcher c source version = pure-Preserves Logged blind tt
  unless_gated-Preserves false matcher c source version =
      bind-Preserves Logged blind (rules_of c) _ (rules_of-Preserves c) λ rules.
        bind-Preserves Logged blind (get_previous_release source.id version) _
          (query-Preserves Logged blind _)
          λ previous.
            start_if-Preserves
              (check_agent_rules matcher (some rules) version (version_or_empty previous))
              source.project_id version

  pub try_agent_rules-Preserves :
      (matcher : Matcher) (source : Source) (version : Bytes)
      → Preserves Logged blind (try_agent_rules matcher source version)
  unfolding try_agent_rules get_project has_release_gate
  try_agent_rules-Preserves matcher source version =
      bind-Preserves Logged blind (get_project source.project_id) _
        (bind-Preserves Logged blind (query _) required (query-Preserves Logged blind _)
          (λ o. required-Preserves o))
        λ project.
          bind-Preserves Logged blind (has_release_gate source.project_id) _
            (query-Preserves Logged blind _)
            λ gated. unless_gated-Preserves gated matcher project.agent_rules source version

module _ (setup : Setup) (id : ℕ) (is_update : Bool) (source : Source) (release : ReleaseInfo) where
  abbrev after_todo : ℕ → Exec Db (Unit {0})
  after_todo todo = list_source_subscriptions id >>= λ subs.
      notify_all senders (message setup release is_update todo) subs >>= λ _.
      attempt (try_agent_rules setup.matcher source release.version) >>= λ _. pure tt

  after_todo-deliveries :
      (todo : ℕ) (db : Db)
      → let x = after_todo todo (calm db) in
        (x.0 ≡ ok tt)
        × (x.1.sent
            ≡ log_all
                (deliveries
                  (message setup release is_update todo)
                  db.channels
                  (subscriptions_of id db.subscriptions))
                db.sent)
        × (x.1.todos ≡ db.todos)
  unfolding list_source_subscriptions
  after_todo-deliveries todo db =
      let msg = message setup release is_update todo in
      let subs = subscriptions_of id db.subscriptions in
      let log = log_all (deliveries msg db.channels subs) db.sent in
      let notified = record (calm db) { sent = log } in
      let (same_log, same_todos) =
        outcome_state (Logged log db.todos)
          (try_agent_rules setup.matcher source release.version notified)
          (try_agent_rules-Preserves log db.todos setup.matcher source release.version notified
            (refl, refl)) in
      rw (notify_all-deliveries msg subs db) (refl, same_log, same_todos)

  deliver-after_todo :
      (db : Db) (o : Option Todo)
      → find_todo_of release.id db.todos ≡ o
      → deliver setup source release id is_update (calm db)
        ≡ after_todo (todo_at o release.id (calm db)).0 (todo_at o release.id (calm db)).1
  unfolding deliver create_release_todo
  deliver-after_todo db none e = rw e refl
  deliver-after_todo db (some t) e = rw e refl

  -- What has gone out and which todos there are, where the todo is this one.
  abbrev Done : Db → ℕ → List Todo → Result (Unit {0}) × Db → Type 0
  Done db todo todos x =
      (x.0 ≡ ok tt)
      × (x.1.sent
          ≡ log_all
              (deliveries (message setup release is_update todo) db.channels
                (subscriptions_of id db.subscriptions))
              db.sent)
      × (x.1.todos ≡ todos)

  deliver-Done :
      (db : Db)
      → let (todo, d) = todo_at (find_todo_of release.id db.todos) release.id (calm db) in
        Done db todo d.todos (deliver setup source release id is_update (calm db))
  deliver-Done db = by_todo (find_todo_of release.id db.todos) refl
    where
      by_todo :
          (o : Option Todo)
          → find_todo_of release.id db.todos ≡ o
          → let (todo, d) = todo_at o release.id (calm db) in
            Done db todo d.todos (deliver setup source release id is_update (calm db))
      by_todo none e =
          subst (Done db db.next_id (todo_at none release.id (calm db)).1.todos)
            (sym (deliver-after_todo db none e))
            (after_todo-deliveries db.next_id (todo_at none release.id (calm db)).1)
      by_todo (some t) e =
          subst (Done db t.id db.todos) (sym (deliver-after_todo db (some t) e))
            (after_todo-deliveries t.id (calm db))

module _ (setup : Setup) (release_id id : ℕ) (is_update : Bool) (row : Release) (source : Source)
    (db : Db) where
  abbrev info : ReleaseInfo
  info = join row (find_source row.source_id db.sources) db.projects

  -- The todo of the release, and the database with it.
  abbrev with_todo : ℕ × Db
  with_todo = todo_at (find_todo_of row.id db.todos) row.id (calm db)

  -- Where no call fails, the release and the source are there, and neither the version filter nor the
  -- prerelease option holds the release back: the job returns; the release has its todo, an old one
  -- if there was one; and one message that names the todo has gone out for each subscription to the
  -- source whose channel is there and has a sender, in their order.
  pub work-deliveries :
      find_release_id release_id db.releases ≡ some row
      → find_source id db.sources ≡ some source
      → is_wanted setup.matcher source info ≡ true
      → let x = work setup release_id id is_update (calm db) in
        (x.0 ≡ ok tt)
        × (x.1.sent
            ≡ log_all
                (deliveries
                  (message setup info is_update with_todo.0)
                  db.channels
                  (subscriptions_of id db.subscriptions))
                db.sent)
        × (x.1.todos ≡ with_todo.1.todos)
  unfolding work get_release get_source
  work-deliveries found_release found_source wanted =
      let gets_there : work setup release_id id is_update (calm db)
          ≡ deliver setup source info id is_update (calm db) =
        rw (found_release, found_source, wanted) refl in
      subst (Done setup id is_update source info db with_todo.0 with_todo.1.todos) (sym gets_there)
        (deliver-Done setup id is_update source info db)
