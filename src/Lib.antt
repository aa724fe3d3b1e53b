-- ===== src/Lib.antt =====
-- Changelogue: from an upstream release to an agent run.
--
-- The server polls upstream registries, stores what they released, notifies channels, and starts
-- an analysis agent when the rules of a project say so. This library models its decision logic.
--
-- Parts, and the files that model them:
--
--   Prelude, Text           lists, tests, byte strings, and the functions of the Go packages
--                           strings and strconv that the code uses. Strings are lists of bytes.
--   Exec                    actions with errors: `Exec S A` is a Go function that returns
--                           `(A, error)` and may have written before it fails.
--   Db                      PostgreSQL with the River queue in it, the clock, and a script of
--                           faults: each call is served, refused, or carried out with its answer
--                           lost. `transaction` is Begin, deferred Rollback and Commit.
--   Models                  internal/models and internal/queue/jobs.go.
--   Gate.Version            internal/gate/version.go.
--   Gate.Store              the gate operations of internal/api/pgstore.go, and EnqueueAgentRun.
--   Gate.Admin              the handlers of internal/api/gates.go that read, write and delete a
--                           gate, with their operations of internal/api/pgstore.go.
--   Gate.Check, Evaluate, Timeout
--                           the workers of internal/gate: worker.go, nl_worker.go and
--                           timeout_worker.go.
--   Gate.Table, Once, Reach, Latch, Readiness, Starts, Spelling, Timeout.Sweep,
--   Admin.Upserts
--                           statements on them: `Step` is the system seen from the gate tables,
--                           with whole jobs, one after another in any order, retries, other
--                           components and faults, two gate jobs at once
--                           are not covered;
--                           `Latch` is what a gate promises, with the detail left out.
--   Ingestion.Store         internal/ingestion/pgstore.go.
--   Ingestion.Service       service.go, loader.go and orchestrator.go of internal/ingestion.
--   Ingestion.Upstream      the clients of the registries there: Github (github.go), Ghcr with
--                           Challenge and OciTimes (ghcr.go), and Registries (gitlab.go,
--                           dockerhub.go, npm.go, pypi.go and ecr_public.go), each as what
--                           FetchNewReleases makes of the answers.
--   Http                    an answer to a request, as these and other clients read it.
--   Onboard.Scanner, Extractor, Worker
--                           scanner.go, extractor.go and worker.go of internal/onboard.
--   Onboard.Store, Api      the onboarding operations of internal/api/pgstore.go, and the handlers
--                           of internal/api/onboard.go.
--   Events                  the Broadcaster of internal/api/events.go; `Call` is one call of it, and
--                           Events.Channels has the queue of one client without the others.
--   Routing.Rules           internal/routing/rules.go, and VersionPassesFilter of worker.go there.
--   Routing.Store, Notify   the NotifyWorker of worker.go there, and its queries.
--   Routing.Messages        sender.go, slack.go, discord.go and webhook.go there: the messages.
--   Todos, Todos.Lists, Subscriptions, Sources
--                           the operations of internal/api/pgstore.go on these.
--   Todos.Api, Subscriptions.Api, Sources.Api
--                           the handlers of internal/api/todos.go, subscriptions.go and sources.go.
--   Pages, Releases         ParsePagination of internal/api/response.go, and the three lists of
--                           releases of internal/api/pgstore.go.
--   Agent.Store             the agent operations of internal/api/pgstore.go.
--   Agent.Report            parseReport of internal/agent/orchestrator.go.
--   Agent.Orchestrator      the Orchestrator there: RunAgent and what it calls.
--   Agent.Worker            internal/agent/worker.go.
--   Auth.States             internal/auth/state.go.
--   Auth.Cookie, Sessions   internal/auth/session.go: the cookie, and the table of sessions.
--   Auth.Allowlist, Login   internal/auth/allowlist.go and oauth.go.
--   Githubauth              internal/githubauth/app_provider.go: tokens, and lists by pages.
--   Samples                 concrete inputs.
--
-- An ingested release queues a notification and a gate check in the transaction that stores it.
-- The gate check marks its source as met for the version; when no required source is missing, and
-- the natural-language rule, if there is one, has passed, it opens the gate of the version and
-- starts a run. A sweep opens gates that waited too long.
--
-- A run is taken up by the agent worker, which may wait until all sources have the version, runs the
-- agent, stores its report as a semantic release, and tells the channels of the project.
--
-- A scan of a repository is queued with its job; the job reads the dependency files from GitHub, has
-- a language model name the dependencies, and stores them. What the user selects of them becomes
-- projects and sources, which the ingestion then polls through the clients of the registries.
--
-- Columns that no modelled code reads are left out of the records. Rows that an ORDER BY leaves equal
-- stay in the order of the table, except in the lists of releases, whose order is a parameter.
-- Identifiers (UUIDs) are numbers, and a new one is one that no row has. Times are seconds. Text is
-- put in lower case and trimmed in ASCII only. Loops run on the lists they go over, so none needs
-- fuel but the page loops. Those of Githubauth end where GitHub's pages do: their fuel is one round
-- more than there are pages. Those of GHCR and of the ECR gallery (Ingestion.Upstream.Registries,
-- `all_pages`) give `none` where the fuel ends before the pages do, for any fuel. A map that the
-- code goes over in any order (npm, PyPI, the clients of the Broadcaster) is a list, in its order.
-- Parameters stand for regexp, url.QueryEscape, net/url, time.Parse, base64, HMAC-SHA256, the RSA
-- signature, encoding/json, the random source, the text of a UUID, the text operators of PostgreSQL
-- and how many characters it counts, the upstream registries, GitHub and the language model; where
-- a theorem assumes something of one of them, it is among the theorem's hypotheses.
--
-- Not modelled: the other HTTP handlers, e-mail and the shell sender, the prompts and tools of the
-- agent, the command line, the SQLite variant, and the removal of rows by ON DELETE CASCADE. Logging
-- and the texts of errors are left out. The queue client and the pool are taken as set. A connection
-- that is lost within a result set counts as a call that failed.
pub mod Prelude
pub mod Exec
pub mod Text
pub mod Http
pub mod Models
pub mod Db
pub mod Pages
pub mod Releases
pub mod Agent
pub mod Gate
pub mod Auth
pub mod Githubauth
pub mod Ingestion
pub mod Routing
pub mod Todos
pub mod Subscriptions
pub mod Sources
pub mod Onboard
pub mod Events
pub mod Samples
