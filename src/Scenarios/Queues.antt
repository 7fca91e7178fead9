-- ===== src/Scenarios/Queues.antt =====
-- Claims and cell laws on three jobs.
use botchatgptclaude.Job
use botchatgptclaude.Prelude.{String, List, take, ◌≤◌, ◌≡◌, refl, none, some, [], ◌∷◌}
use botchatgptclaude.Table.{find, IsDistinct, insert, sort}
use botchatgptclaude.Queue.{
  Jobs, job_key, get, claim_next, claim_loop, candidates, is_candidate, claim_order, is_exhausted,
  lease,
}
use botchatgptclaude.Queue.Grant.{claim_next-none, claim_next-frame}
use botchatgptclaude.Queue.Logs.{
  LogCall, no_logs, append_logs, lines_of, get_logs, get_logs-append_logs,
}
use botchatgptclaude.Scenarios.{waiting_job, running_job}

abbrev three : Jobs
three = waiting_job "a" 5 10 ∷ waiting_job "b" 1 20 ∷ running_job "c" ∷ []

three-IsDistinct : IsDistinct job_key three
three-IsDistinct = ((refl, (refl, tt)), ((refl, tt), (tt, tt)))

abbrev spent : Jobs
spent = (record (waiting_job "a" 5 10) { attempts = 2 }) ∷ running_job "c" ∷ []

spent-IsDistinct : IsDistinct job_key spent
spent-IsDistinct = ((refl, tt), (tt, tt))

none_granted : (claim_next "w2" 100 none spent).1 ≡ none
unfolding claim_next claim_loop candidates is_candidate claim_order is_exhausted insert sort lease
none_granted = refl

claim_next-none_example :
    (2 ≤ 2)
    × (get "a" (claim_next "w2" 100 none spent).0
        ≡ some (record (waiting_job "a" 5 10) {
          attempts = 2;
          status = Job.failed;
          error_message = some "max attempts exceeded";
          finished_at = some 100;
          updated_at = 100;
        }))
claim_next-none_example =
    claim_next-none "w2" 100 none spent spent-IsDistinct none_granted
      (record (waiting_job "a" 5 10) { attempts = 2 }) (unfold get find in refl)
      (unfold is_candidate in refl)

claim_next-frame_example : get "c" (claim_next "w2" 100 none three).0 ≡ some (running_job "c")
claim_next-frame_example =
    claim_next-frame "w2" 100 none three three-IsDistinct (running_job "c")
      (unfold get find in refl) (unfold is_candidate in refl)

abbrev line : String → String → LogCall
line job_id content = record {
  id = content;
  job_id = job_id;
  stream = Job.stdout;
  content = content;
  time = 7;
}

abbrev three_lines : List LogCall
three_lines = line "a" "1" ∷ line "b" "2" ∷ line "a" "3" ∷ []

get_logs-append_logs_example :
    get_logs "a" (some 1) (append_logs (λ s. s) three_lines no_logs)
    ≡ take 1 (lines_of (λ s. s) "a" three_lines)
get_logs-append_logs_example = get_logs-append_logs (λ s. s) "a" (some 1) three_lines
