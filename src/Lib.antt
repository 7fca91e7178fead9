-- ===== src/Lib.antt =====
-- The AI orchestrator of this repository, modelled and proved: sandbox jobs, the workers that run
-- them, and the orchestrations that wait for them.
--
-- A control plane (an HTTP application) takes a user's request through a fixed workflow of model
-- steps. In production its tests never run in the control plane: they are sandbox jobs in a
-- database table, which worker processes claim under a lease, run, and finish. An orchestration
-- stops when it has queued such a job, and a cron tick or a user resumes it when the job has
-- ended.
--
-- Which file models what (paths from the repository's root):
-- - Job, Payload, Json: the records and the payload schemas of lib/ai-orchestrator/types.ts and
--   lib/ai-orchestrator/worker/types.ts.
-- - Queue (with Loop, Grant, Cells, Logs): InMemoryJobQueue of lib/ai-orchestrator/worker/job-queue.ts,
--   on the list of the map's values. `claim_loop` is the loop of claimNext, `claim_next` the whole
--   call.
-- - Config: the settings read from the environment, with their production guards.
-- - Command, Text: validateWorkerCommand and resolveExecutable of
--   lib/ai-orchestrator/worker/command-runner.ts, for every platform of the record `Host`.
-- - Sandbox (with Rounds, Frames, Verdict): runSandboxJob of
--   lib/ai-orchestrator/worker/sandbox-runner.ts. The workspace, the patch applier, the answers on
--   cancellation and the command runs come from the record `Outside`.
-- - Heartbeat: lib/ai-orchestrator/worker/heartbeat.ts, a tick at a time; a tick that is
--   rejected ends the process.
-- - Audit, ControlPlane, JobService (with Finish, Lease):
--   lib/ai-orchestrator/worker/job-service.ts. processClaimedJob is cut where other processes act:
--   `begin_job`, the sandbox run and the heartbeat, `finish_job`. `Lease.acts` is any interleaving
--   of the queue's calls with `begin_job` and `finish_job`.
-- - Agent, Scan, Report: the agents' outputs (types.ts, prompts.ts), the safety scan (safety.ts),
--   and the report of a sandbox job (test-runner.ts, test-runner-worker.ts).
-- - Store, Session, Orchestration (with Steps, Lock, Cells): the tables of
--   lib/ai-orchestrator/db/repository.ts that the orchestrator writes, and the resume lock. An action that throws keeps what it has written.
-- - Async (with Resumption, Outcome, Steps, Rounds): AsyncOrchestrator of
--   lib/ai-orchestrator/async-orchestrator.ts. Model answers, redaction and pattern matches are
--   the record `Deps`.
-- - Async/Ending: a run from resume to resume, with the worker's turns between them.
-- - Orchestrator (with Round, Verdict): Orchestrator of lib/ai-orchestrator/orchestrator.ts, the
--   whole workflow in one call. Its test executor is a parameter, which TestRunner or WorkerWait
--   fills.
-- - TestRunner (with Suite): the inline suite of lib/ai-orchestrator/test-runner.ts and
--   isCommandAllowed of lib/ai-orchestrator/safety.ts; the spawn is a parameter.
-- - WorkerWait (with Bounds): defaultWaitForTerminal and runOrchestratorTestJob of
--   lib/ai-orchestrator/test-runner-worker.ts. What others do to the queue in each pause is a
--   parameter.
-- - Extract (with Balanced): extractJsonObject of lib/ai-orchestrator/schema.ts.
-- - Patch (with Schema, Accepted): lib/ai-orchestrator/patch/patch-schema.ts and
--   patch-validator.ts.
-- - Patch/Applier (with Outside, Changes, Applied): lib/ai-orchestrator/worker/patch-applier.ts. A
--   workspace is a function from paths without links to contents; its symbolic links are functions on
--   paths, which a patch does not change; a read or a write may fail, and a failed write may leave
--   anything at its path.
-- - Hub (with Tables): the GitHub client of lib/ai-orchestrator/github/types.ts, each call of it
--   logged, and the patch and pull request tables of lib/ai-orchestrator/db/repository.ts.
-- - Github (with Branches): lib/ai-orchestrator/github/branch-service.ts and applyPatchFiles of
--   patch-service.ts.
-- - PullRequest (with Steps, TestGate, Publish, Gates, Resolved, Tested, Flow, Contained):
--   createPullRequestForSession of lib/ai-orchestrator/github/pull-request-service.ts, gate by
--   gate.
-- - Effect: the monad of state and exceptions that Store and Hub share.
-- - Resume (with Batch): lib/ai-orchestrator/orchestration-resume-scheduler.ts, one cron tick.
-- - Rbac (with Effective): lib/ai-orchestrator/auth/roles.ts, permissions.ts and rbac.ts.
-- - RateLimit (with Window): lib/ai-orchestrator/security/rate-limit.ts.
-- - Scenarios: concrete jobs and runs to which the theorems are applied.
-- - Prelude, Table: shared names; association lists with JavaScript's stable sort.
--
-- Conventions. A timestamp is its number of milliseconds; a call reads the clock once. An id that
-- randomUUID draws is an argument, and a theorem that needs it fresh says so. Numbers of the
-- program that are read here (priorities, attempts, rounds, exit codes, JSON numbers) are
-- naturals. Strings are sequences of code points. toLowerCase is modelled on ASCII letters. Audit
-- metadata, admin key fingerprints and ids that nothing reads are left out. The loops recurse on
-- lists. Fuel stands in two places. `Text.show` prints a number's digits with the number itself
-- plus one, and a number has no more digits than that. `WorkerWait.wait_from` polls at most as
-- often as its fuel says, which is the timeout's milliseconds plus one: with pauses of at least a
-- millisecond the clock is past the timeout by then. The attempts at a branch name and the rounds
-- of the revision loop count down the program's own limits.
--
-- Not modelled: the spawn of a process, git, the file system, HTTP, the regular expressions of the
-- redaction and of the scan (they are parameters), the PostgreSQL repository (SQL functions), the
-- HTTP routes and the page; the reading of the pull request settings, and database calls that fail
-- inside of the pull request flow; and authentication, the request guards, the service facade and
-- the readiness reports.
pub mod Prelude
pub mod Effect
pub mod Table
pub mod Json
pub mod Job
pub mod Queue
pub mod Text
pub mod Config
pub mod Command
pub mod Sandbox
pub mod Payload
pub mod Heartbeat
pub mod Audit
pub mod ControlPlane
pub mod JobService
pub mod Agent
pub mod Scan
pub mod Store
pub mod Session
pub mod Orchestration
pub mod Report
pub mod Extract
pub mod TestRunner
pub mod Patch
pub mod Hub
pub mod Github
pub mod PullRequest
pub mod Async
pub mod Orchestrator
pub mod WorkerWait
pub mod Resume
pub mod Rbac
pub mod RateLimit
pub mod Scenarios
