-- ===== src/Lib.antt =====
-- mimi_agent: a verification library of the agent's Python code (src/shichimimi_agent,
-- where the Python files named below lie).
--
-- The program runs scheduled jobs and manual commands. A job or command opens a session and a task in a
-- SQLite store, asks a policy before each tool call, calls the tool over HTTP, records an event, stores
-- what it found and closes task and session. The files follow these parts:
--
-- Base, Str: shared helpers: dicts, exceptions, invariants of actions, and the methods of Python's
--   texts. An action is a function of a state that gives a result or an exception, and the state
--   reached, so what was written before an exception stays written.
-- Security/Fnmatch: fnmatch of the standard library. Security/PathPolicy: security/path_policy.py, with
--   posixpath.normpath in PathPolicy/Normpath. Security/PolicyEngine: security/policy_engine.py.
-- Scheduler/Field, Scheduler/Cron: scheduler/cron.py (_parse_field; CronSchedule.parse, matches and
--   next_after), with int() in Scheduler/Number and datetime in Scheduler/Calendar: a moment is the
--   wall clock of Asia/Tokyo in microseconds since the year 1. The loop of next_after runs on fuel of
--   366 * 1440 + 1 rounds, which is more than the minutes up to its limit.
-- Scheduler/Engine: scheduler/engine.py (SchedulerEngine). Its retry loop counts down the attempts that
--   are left. Executors, clock and notifier are functions of all that happened before.
-- Db/Tables, Db/Repository: db/schema.sql and db/repository.py. A constraint that a row violates is an
--   IntegrityError that changes nothing. Db/Repository/Integrity states the constraints of a database,
--   Operations that the methods keep them, Status what the two updates do.
-- Runner/Gate: hooks/pre_tool_use.py, hooks/post_tool_use.py, proxies/auth_proxy_client.py and the guarded
--   tool call of the runners. Runner/CollectX: runner/collect_x.py. Runner/StockResearch:
--   runner/stock_research.py. Their state is the store with the log of what the services were asked.
--
-- System: what the launchers have from the operating system and the standard library, as parameters, and
--   json's values (System/JsonValue). Kubernetes/ApiClient: runner/k8s_api_client.py. Its loop that waits
--   for a Job runs on fuel of the timeout divided by the poll interval and two rounds more, which
--   Kubernetes/ApiClient/Waiting proves to be enough. Kubernetes/Shell: shlex.quote, beside a reader of
--   shell words. Kubernetes/RunnerJob, Backend and TaskRun: runner/kubernetes_runner.py. Kubernetes/ClaudeJob:
--   runner/k8s_claude_launcher.py. Times of the configuration are whole seconds.
-- Digest: runner/claude_digest.py (Invocation, Docker, Verify, Claude), runner/invest_digest.py (Invest),
--   runner/mcp_session.py, runner/git_relay_env.py (in Invocation) and proxies/slack_notify_client.py
--   (Slack). Digest/Act joins the store and what the launchers did to one state. Digest/Executors: the
--   executors of both digests in cli.py, config/model_selection.py and sessions/workspace.py.
-- Config/Validator: config/validator.py. Its checks are steps on the result, in the order of the code.
--
-- Parameters, since they are other programs, the standard library's JSON or I/O: what the auth-proxy, the
-- MCP server and json.loads answer, json.dumps, files and other programs, ids and clocks, executors and
-- notifier. An answer is a function of what was asked before, so that it may change from call to call. A
-- number that a tool reports is not negative. In a JSON column a list stands as its texts joined by
-- commas, and a number, a truth value or None as its JSON text. Left out are a database that stays
-- locked, so that the two updates never raise, and tool answers whose entries are of another shape than
-- the tools document.
--
-- Not modelled: the other commands of cli.py, the role runner, its documents and summaries,
-- the container launcher of the backend, loading of files, redaction, and the
-- other HTTP clients, most of whose code runs other programs and services; the Go services, deployment
-- files and log lines.
pub mod Base
pub mod Str
pub mod System
pub mod Security
pub mod Scheduler
pub mod Db
pub mod Runner
pub mod Kubernetes
pub mod Digest
pub mod Config
