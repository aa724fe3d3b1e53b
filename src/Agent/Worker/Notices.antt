-- ===== src/Agent/Worker/Notices.antt =====
-- sendProjectNotifications of internal/agent/orchestrator.go: what it leaves alone.
use changelogue.Prelude.{ℕ, Option, none, some, List, [], ◌∷◌, Bytes, Bool-cases, inl, inr}
use changelogue.Exec.{Exec, Result, ok, err, Fault, pure, attempt}
use changelogue.Models.{
  AgentRun, SemanticRelease, VersionReadiness, Subscription, NotificationChannel, Notification,
}
use changelogue.Db.{Db, query}
use changelogue.Db.Rows.{required}
use changelogue.Db.Preserve.{
  Preserves, query-Preserves, statement-Preserves, bind-Preserves, attempt-Preserves,
  pure-Preserves,
}
use changelogue.Gate.Store.{list_sources_by_project}
use changelogue.Routing.Store.{get_channel}
use changelogue.Routing.Notify.{is_known, send, send_to, notify_all}
use changelogue.Agent.Store.{
  list_project_subscriptions, get_version_readiness_by_version, find_semantic_todo,
  semantic_todo_at, create_semantic_release_todo,
}
use changelogue.Agent.Orchestrator.{
  Setup, AgentResult, status_line, report_senders, lines_for, build_source_status_lines,
  report_message, todo_of, announce, send_project_notifications,
}

-- A statement `R` about the runs and the semantic releases.
module _ (R : List AgentRun → List SemanticRelease → Type 0) where
  abbrev pub Holds : Db → Type 0
  Holds db = R db.runs db.semantic_releases

  pub blind : (db : Db) (fs : List Fault) → Holds db → Holds (record db { faults = fs })
  blind db fs h = h

  abbrev pub Keeps : {A : Type 0} → Exec Db A → Type 0
  Keeps m = Preserves Holds blind m

  pub required-Keeps : {A : Type 0} (o : Option A) → Keeps (required o)
  required-Keeps none db h = h
  required-Keeps (some a) db h = h

  pub sources-Keeps : (project limit : ℕ) → Keeps (list_sources_by_project project limit)
  unfolding list_sources_by_project
  sources-Keeps project limit =
      bind-Preserves Holds blind (query _) (λ total. query _) (query-Preserves Holds blind _)
        (λ total. query-Preserves Holds blind _)

  lines_for-Keeps :
      (project : ℕ) (r : Result (Option VersionReadiness)) → Keeps (lines_for project r)
  lines_for-Keeps project (err e) db h = h
  lines_for-Keeps project (ok none) db h = h
  lines_for-Keeps project (ok (some vr)) db h =
      bind-Preserves Holds blind (attempt (list_sources_by_project project 1000))
        (λ sources. pure (status_line vr.sources_met sources))
        (attempt-Preserves Holds blind _ (sources-Keeps project 1000)) (λ sources d k. k) db h

  lines-Keeps : (project : ℕ) (version : Bytes) → Keeps (build_source_status_lines project version)
  unfolding build_source_status_lines get_version_readiness_by_version
  lines-Keeps project version =
      bind-Preserves Holds blind (attempt (get_version_readiness_by_version project version))
        (lines_for project) (attempt-Preserves Holds blind _ (query-Preserves Holds blind _))
        (λ readiness. lines_for-Keeps project readiness)

  semantic_todo_at-Keeps :
      (o : _) (semantic : ℕ) (db : Db) → Holds db → Holds (semantic_todo_at o semantic db).1
  semantic_todo_at-Keeps (some t) semantic db h = h
  semantic_todo_at-Keeps none semantic db h = h

  todo-Keeps : (semantic : ℕ) → Keeps (create_semantic_release_todo semantic)
  unfolding create_semantic_release_todo
  todo-Keeps semantic =
      statement-Preserves Holds blind _
        (λ db. semantic_todo_at-Keeps (find_semantic_todo semantic db.todos) semantic db)

  send_to-Keeps :
      (kinds : List Bytes) (msg : Notification) (r : Result NotificationChannel)
      → Keeps (send_to kinds msg r)
  unfolding send
  send_to-Keeps kinds msg (err e) = pure-Preserves Holds blind tt
  send_to-Keeps kinds msg (ok channel) = elim (Bool-cases (is_known channel.kind kinds)) [
    | inl known ↦ rw known (
        bind-Preserves Holds blind (attempt (send channel msg)) (λ _. pure tt)
          (attempt-Preserves Holds blind (send channel msg)
            (statement-Preserves Holds blind _ (λ d h. h)))
          (λ _. pure-Preserves Holds blind tt))
    | inr unknown ↦ rw unknown (pure-Preserves Holds blind tt)
  ]

  notify_all-Keeps :
      (kinds : List Bytes) (msg : Notification) (subs : List Subscription)
      → Keeps (notify_all kinds msg subs)
  unfolding notify_all get_channel
  notify_all-Keeps kinds msg [] = pure-Preserves Holds blind tt
  notify_all-Keeps kinds msg (sub ∷ subs) =
      bind-Preserves Holds blind (attempt (get_channel sub.channel_id)) _
        (attempt-Preserves Holds blind (get_channel sub.channel_id)
          (bind-Preserves Holds blind _ required (query-Preserves Holds blind _) required-Keeps))
        λ r.
          bind-Preserves Holds blind (send_to kinds msg r) _ (send_to-Keeps kinds msg r)
            (λ _. notify_all-Keeps kinds msg subs)

  announce-Keeps :
      (setup : Setup) (run : AgentRun) (result : AgentResult) (r : Result (List Subscription))
      → Keeps (announce setup run result r)
  announce-Keeps setup run result (err e) = pure-Preserves Holds blind tt
  announce-Keeps setup run result (ok []) = pure-Preserves Holds blind tt
  announce-Keeps setup run result (ok (sub ∷ subs)) =
      bind-Preserves Holds blind (attempt (create_semantic_release_todo result.semantic_release_id))
        _ (attempt-Preserves Holds blind _ (todo-Keeps result.semantic_release_id))
        λ todo.
          bind-Preserves Holds blind (build_source_status_lines run.project_id result.version) _
            (lines-Keeps run.project_id result.version)
            λ line.
              bind-Preserves Holds blind (attempt (list_sources_by_project run.project_id 1)) _
                (attempt-Preserves Holds blind _ (sources-Keeps run.project_id 1))
                λ sources.
                  notify_all-Keeps report_senders
                    (report_message setup run result (todo_of todo) line sources) (sub ∷ subs)

  -- Whatever calls fail, the notifications change no run and no semantic release.
  pub notifications-Keeps :
      (setup : Setup) (run : AgentRun) (result : AgentResult)
      → Keeps (send_project_notifications setup run result)
  unfolding send_project_notifications list_project_subscriptions
  notifications-Keeps setup run result =
      bind-Preserves Holds blind (attempt (list_project_subscriptions run.project_id))
        (announce setup run result)
        (attempt-Preserves Holds blind _ (query-Preserves Holds blind _))
        (announce-Keeps setup run result)
