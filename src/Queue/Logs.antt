-- ===== src/Queue/Logs.antt =====
-- The log lines of the jobs: `appendLog` and `getLogs` of `InMemoryJobQueue` in
-- lib/ai-orchestrator/worker/job-queue.ts. The map of the lines is a function from job ids.
use mathlib.Core.List.{append-nil, append_assoc}
use botchatgptclaude.Prelude.{
  ℕ, String, ◌≡◌, refl, sym, ap, ◌∙◌, Option, get_or, List, [], ◌∷◌, ◌++◌, ◌==◌, eq_iff,
  if◌then◌else◌, take, map, filter, Bool-cases, inl, inr,
}
use botchatgptclaude.Job.{Stream, WorkerJobLog}

abbrev pub Logs : Type 0
Logs = String → List WorkerJobLog

abbrev pub no_logs : Logs
no_logs k = []

-- A call of `appendLog`, with the id that it draws and its reading of the clock.
pub record LogCall : Type 0 where
  pub id : String
  pub job_id : String
  pub stream : Stream
  pub content : String
  pub time : ℕ

module _ (redact : String → String) where
  abbrev pub line_of : LogCall → WorkerJobLog
  line_of c = record {
    id = c.id;
    job_id = c.job_id;
    stream = c.stream;
    content = redact c.content;
    created_at = c.time;
  }

  -- `append_log` sets the job's lines in the map.
  unfoldable pub append_log : LogCall → Logs → Logs
  append_log c logs k = if c.job_id == k then logs c.job_id ++ line_of c ∷ [] else logs k

  abbrev pub append_logs : List LogCall → Logs → Logs
  append_logs [] logs = logs
  append_logs (c ∷ cs) logs = append_logs cs (append_log c logs)

  abbrev pub lines_of : String → List LogCall → List WorkerJobLog
  lines_of job_id cs = map line_of (filter (λ c. c.job_id == job_id) cs)

abbrev pub default_log_limit : ℕ
default_log_limit = 500

unfoldable pub get_logs : String → Option ℕ → Logs → List WorkerJobLog
get_logs job_id limit logs = take (get_or limit default_log_limit) (logs job_id)

module _ (redact : String → String) (job_id : String) where
  append_logs-lines_of :
      (cs : List LogCall) (logs : Logs)
      → append_logs redact cs logs job_id ≡ logs job_id ++ lines_of redact job_id cs
  unfolding append_log
  append_logs-lines_of [] logs = sym (append-nil _)
  append_logs-lines_of (c ∷ cs) logs = elim (Bool-cases (c.job_id == job_id)) [
    | inr other ↦ append_logs-lines_of cs (append_log redact c logs) ∙ rw other refl
    | inl same ↦
        append_logs-lines_of cs (append_log redact c logs)
        ∙ rw (same, ap logs ((eq_iff c.job_id job_id).0 same))
            (append_assoc (logs job_id) (line_of redact c ∷ []) (lines_of redact job_id cs))
  ]

  -- From an empty map, whatever lines were appended to whatever jobs: the lines of a job are those
  -- appended to it, redacted and in order, the first of them up to the limit.
  pub get_logs-append_logs :
      (limit : Option ℕ) (cs : List LogCall)
      → get_logs job_id limit (append_logs redact cs no_logs)
        ≡ take (get_or limit default_log_limit) (lines_of redact job_id cs)
  unfolding get_logs
  get_logs-append_logs limit cs =
      ap (take (get_or limit default_log_limit)) (append_logs-lines_of cs no_logs)
