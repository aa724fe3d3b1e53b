-- ===== src/Routing/Notify/TodoFirst.antt =====
-- No message about a release goes out before its todo is stored.
use mathlib.Core.Path.{subst}
use changelogue.Prelude.{
  ℕ, ◌≡◌, refl, sym, ◌⊎◌, Bool, true, false, Option, none, some, List, [], ◌∷◌, Bytes, Bool-cases,
  inl, inr, ==_refl,
}
use changelogue.Exec.{Result, ok, err, Outcome, pure, attempt}
use changelogue.Exec.Rules.{bind-Outcome, Outcome-imp, outcome_state}
use changelogue.Models.{
  Source, Release, Todo, Subscription, NotificationChannel, Notification, Sent,
}
use changelogue.Db.Rows.{required}
use changelogue.Db.{Db, past_call, query}
use changelogue.Db.Rules.{query-Outcome, statement-Outcome}
use changelogue.Db.Preserve.{
  Preserves, query-Preserves, statement-Preserves, bind-Preserves, attempt-Preserves,
  pure-Preserves,
}
use changelogue.Gate.Store.{find_source}
use changelogue.Routing.Rules.{Matcher}
use changelogue.Routing.Store.{
  ReleaseInfo, join, find_release_id, get_release, get_source, get_channel,
  list_source_subscriptions, create_release_todo, new_todo, todo_at, find_todo_of, is_todo_of,
}
use changelogue.Routing.Notify.{
  Setup, is_known, senders, message, send, send_to, notify_all, try_agent_rules, is_wanted, deliver,
  deliver_if, work,
}
use changelogue.Routing.Notify.Delivered

found_first :
    (release : ℕ) (t : Todo) (ts : List Todo)
    → is_todo_of release t ≡ true
    → (q : Todo) × (find_todo_of release (t ∷ ts) ≡ some q)
unfolding find_todo_of
found_first release t ts h = (t, rw h)

module _ (release : ℕ) where
  abbrev HasTodo : Db → Type 0
  HasTodo db = (t : Todo) × (find_todo_of release db.todos ≡ some t)

  blind_todo : (db : Db) (fs : _) → HasTodo db → HasTodo (record db { faults = fs })
  blind_todo db fs h = h

  required-Preserves : {A : Type 0} (o : Option A) → Preserves HasTodo blind_todo (required o)
  required-Preserves none db h = h
  required-Preserves (some a) db h = h

  send-Preserves :
      (channel : NotificationChannel) (msg : Notification)
      → Preserves HasTodo blind_todo (send channel msg)
  unfolding send
  send-Preserves channel msg = statement-Preserves HasTodo blind_todo _ (λ db h. h)

  send_to-Preserves :
      (msg : Notification) (r : Result NotificationChannel)
      → Preserves HasTodo blind_todo (send_to senders msg r)
  send_to-Preserves msg (err e) = pure-Preserves HasTodo blind_todo tt
  send_to-Preserves msg (ok channel) = elim (Bool-cases (is_known channel.kind senders)) [
    | inl known ↦ rw known (
        bind-Preserves HasTodo blind_todo (attempt (send channel msg)) (λ _. pure tt)
          (attempt-Preserves HasTodo blind_todo (send channel msg) (send-Preserves channel msg))
          (λ _. pure-Preserves HasTodo blind_todo tt))
    | inr unknown ↦ rw unknown (pure-Preserves HasTodo blind_todo tt)
  ]

  notify_all-Preserves :
      (msg : Notification) (subs : List Subscription)
      → Preserves HasTodo blind_todo (notify_all senders msg subs)
  unfolding notify_all get_channel
  notify_all-Preserves msg [] = pure-Preserves HasTodo blind_todo tt
  notify_all-Preserves msg (sub ∷ subs) =
      bind-Preserves HasTodo blind_todo (attempt (get_channel sub.channel_id)) _
        (attempt-Preserves HasTodo blind_todo (get_channel sub.channel_id) (
          bind-Preserves HasTodo blind_todo (query _) required
            (query-Preserves HasTodo blind_todo _) (λ o. required-Preserves o)))
        λ r.
          bind-Preserves HasTodo blind_todo (send_to senders msg r) _ (send_to-Preserves msg r)
            (λ _. notify_all-Preserves msg subs)

  try_agent_rules-HasTodo :
      (matcher : Matcher) (source : Source) (version : Bytes)
      → Preserves HasTodo blind_todo (attempt (try_agent_rules matcher source version))
  try_agent_rules-HasTodo matcher source version db (t, found) =
      let kept =
        outcome_state (Delivered.Logged db.sent db.todos)
          (try_agent_rules matcher source version db)
          (Delivered.try_agent_rules-Preserves db.sent db.todos matcher source version db
            (refl, refl)) in
      (t, subst (λ ts. find_todo_of release ts ≡ some t) (sym kept.1) found)

  module _ (log : List Sent) where
    -- Nothing more was sent, or the todo is there.
    abbrev pub TodoFirst : Db → Type 0
    TodoFirst db = (db.sent ≡ log) ⊎ HasTodo db

    create_release_todo-HasTodo :
        (db : Db)
        → db.sent ≡ log
        → Outcome TodoFirst (λ _. HasTodo) (create_release_todo release db)
    unfolding create_release_todo
    create_release_todo-HasTodo db h =
        statement-Outcome TodoFirst (λ _. HasTodo) _ db (λ a d k. inr k) (inl h)
          (stored (find_todo_of release db.todos) refl)
      where
        stored :
            (o : Option Todo)
            → find_todo_of release db.todos ≡ o
            → HasTodo (todo_at o release (past_call db)).1
        stored none e =
            found_first release (new_todo db.next_id release db.now) db.todos (==_refl release)
        stored (some t) e = (t, e)

    deliver_if-TodoFirst :
        (wanted : Bool) (setup : Setup) (source : Source) (info : ReleaseInfo) (id : ℕ)
        (is_update : Bool) (db : Db)
        → info.id ≡ release
        → db.sent ≡ log
        → Outcome TodoFirst (λ _. TodoFirst) (deliver_if wanted setup source info id is_update db)
    unfolding deliver list_source_subscriptions
    deliver_if-TodoFirst false setup source info id is_update db e h = inl h
    deliver_if-TodoFirst true setup source info id is_update db e h =
        bind-Outcome TodoFirst (λ _. HasTodo) (λ _. TodoFirst) (create_release_todo info.id) _ db
          (subst (λ r. Outcome TodoFirst (λ _. HasTodo) (create_release_todo r db)) (sym e)
            (create_release_todo-HasTodo db h))
          λ todo d k.
            Outcome-imp HasTodo TodoFirst (λ _. HasTodo) (λ _. TodoFirst) _ (λ s l. inr l)
              (λ a s l. inr l)
              (bind-Preserves HasTodo blind_todo (list_source_subscriptions id) _
                (query-Preserves HasTodo blind_todo _)
                (λ subs.
                  bind-Preserves HasTodo blind_todo
                    (notify_all senders (message setup info is_update todo) subs) _
                    (notify_all-Preserves (message setup info is_update todo) subs)
                    (λ _.
                      bind-Preserves HasTodo blind_todo
                        (attempt (try_agent_rules setup.matcher source info.version)) (λ _. pure tt)
                        (try_agent_rules-HasTodo setup.matcher source info.version)
                        (λ _. pure-Preserves HasTodo blind_todo tt)))
                d k)

    get_source-sent :
        (id : ℕ) (db : Db)
        → db.sent ≡ log
        → Outcome TodoFirst (λ _ d. d.sent ≡ log) (get_source id db)
    unfolding get_source
    get_source-sent id db h =
        bind-Outcome TodoFirst (λ _ d. d.sent ≡ log) (λ _ d. d.sent ≡ log) (query _) required db
          (query-Outcome TodoFirst (λ _ d. d.sent ≡ log) _ db (inl h) h) (λ o d k. there o d k)
      where
        there :
            (o : Option Source) (d : Db)
            → d.sent ≡ log
            → Outcome TodoFirst (λ _ d. d.sent ≡ log) (required o d)
        there none d k = inl k
        there (some s) d k = k

    get_release-sent :
        (release_id : ℕ) (row : Release) (db : Db)
        → find_release_id release_id db.releases ≡ some row
        → row.id ≡ release
        → db.sent ≡ log
        → Outcome TodoFirst
            (λ info d. (info.id ≡ release) × (d.sent ≡ log))
            (get_release release_id db)
    unfolding get_release
    get_release-sent release_id row db found e h =
        bind-Outcome TodoFirst
          (λ o d. ((info : ReleaseInfo) × (o ≡ some info) × (info.id ≡ release)) × (d.sent ≡ log))
          (λ info d. (info.id ≡ release) × (d.sent ≡ log)) (query _) required db
          (query-Outcome TodoFirst _ _ db (inl h)
            ((join row (find_source row.source_id db.sources) db.projects, rw found refl, e), h))
          λ o d k. rw k.0.1 (k.0.2, k.1)

-- Whatever calls fail: when a notification job for a release that is stored has returned, with an
-- error or without, it has sent nothing or the release has a todo.
pub work-TodoFirst :
    (setup : Setup) (release_id id : ℕ) (is_update : Bool) (row : Release) (db : Db)
    → find_release_id release_id db.releases ≡ some row
    → TodoFirst row.id db.sent (work setup release_id id is_update db).1
unfolding work
work-TodoFirst setup release_id id is_update row db found =
    outcome_state (TodoFirst row.id db.sent) (work setup release_id id is_update db) (
      bind-Outcome (TodoFirst row.id db.sent) (λ info d. (info.id ≡ row.id) × (d.sent ≡ db.sent))
        (λ _. TodoFirst row.id db.sent) (get_release release_id) _ db
        (get_release-sent row.id db.sent release_id row db found refl refl)
        λ info d k.
          bind-Outcome (TodoFirst row.id db.sent) (λ _ e. e.sent ≡ db.sent)
            (λ _. TodoFirst row.id db.sent) (get_source id) _ d
            (get_source-sent row.id db.sent id d k.1)
            λ source e l.
              deliver_if-TodoFirst row.id db.sent (is_wanted setup.matcher source info) setup source
                info id is_update e k.0 l)
