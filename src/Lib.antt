-- ===== src/Lib.antt =====
-- Legal AI Copilot: a service in which lawyers ask for the analysis of contracts or for legal
-- actions. A goal starts a workflow (a row of `workflow_executions`); a Celery task moves it through
-- a chain of nodes that call language models and a search; it pauses where a person must confirm the
-- intent, the brief or the draft; approval requests with HMAC tokens gate the export.
--
-- The parts, and the files that model them:
--   Prelude                 numbers, lists, and a table as the list of its rows (SELECT, UPDATE)
--   Models                  app/models.py: enumerations, roles and rows
--   Database, Http          the tables, the task queue and the audit events as one record; a FastAPI
--                           handler is a function from the tables to a reply or a status code, and
--                           the tables
--   Services                hashes, UUID texts and ORDER BY ... LIMIT 1, which are parameters
--   Workflows               the queries on workflows and actions that several files share
--   Approvals               app/routers/approvals.py: list, get, approve, reject and reissue
--   ActionAgent             app/routers/action_agent.py: confirm-brief, approve and reject
--   Goals                   app/routers/goals.py: confirm-intent, confirm-plan and cancel
--   Cron                    app/routers/cron.py: expire-stale-approvals, expire-stale-ambiguity;
--                           cleanup-expired-invites is Accounts.Cleanup
--   Worker                  app/tasks.py (process_workflow) and app/services/agent/nodes.py
--   Lifecycle               all of these as operations, and any sequence of them
--   Goals.Create            app/routers/goals.py: create_goal; Goals.Reaching joins it to the worker
--   Deadlines               app/tasks.py: calculate_urgency and deadline_scanner
--   Slots                   app/redis_client.py: acquire_llm_slot and release_llm_slot
--   Planner                 due_diligence/planner/executor.py
--   Access                  app/middleware/rbac_middleware.py: required roles and their check
--   Accounts                app/dependencies.py, app/routers/auth.py, app/routers/invites.py, on
--                           tables of their own: API keys, tokens, organisations, signup, invites
--   Sessions                app/redis_client.py: sessions of documents and their reverse index
--   Escalation              due_diligence/escalation/triggers.py: why a finding goes to a reviewer
--   Tests                   a small database and the theorems at concrete inputs
--
-- Names are those of the code: `Approvals.approve_via_token` is `approve_via_token`, and so on. The
-- parts meet in the tables: an endpoint writes a status and queues the task `process_workflow`,
-- which reads the status to decide where to resume. One operation is one step, so what runs at the
-- same time is an order of steps; a transaction is not cut in two. Times are whole seconds, ids are
-- numbers, scores are in millionths. No definition needs fuel: every loop runs over a list or a
-- fixed number of attempts.
--
-- The services record has laws (IsSelecting) that say only that the database returns rows of its
-- queries. What the models, the search and the object store answer in a run is a record (Outside),
-- where an absent value is an exception; theorems hold for all of its values.
--
-- Not modelled: most endpoints that only read; documents, search and embeddings; workspaces;
-- prompts; the rate limiter; audit files. Failing writes of logs, which the code
-- swallows, are taken to succeed.
pub mod Prelude
pub mod Models
pub mod Database
pub mod Http
pub mod Services
pub mod Workflows
pub mod Approvals
pub mod ActionAgent
pub mod Goals
pub mod Cron
pub mod Worker
pub mod Lifecycle
pub mod Deadlines
pub mod Slots
pub mod Planner
pub mod Access
pub mod Accounts
pub mod Sessions
pub mod Escalation
pub mod Tests
