-- ===== src/Scenarios/Leases.antt =====
-- A lease among other calls, and the end of a job.
use mathlib.Core.Option
use botchatgptclaude.Prelude.{String, ◌≡◌, refl, true, false, none, some, List, [], ◌∷◌, ◌==◌}
use botchatgptclaude.Table.{find}
use botchatgptclaude.Job.{WorkerJob, passed, cancelled}
use botchatgptclaude.Queue.{get}
use botchatgptclaude.Heartbeat.{HeartbeatStats}
use botchatgptclaude.Sandbox.{RunSandboxResult}
use botchatgptclaude.ControlPlane.{Plane, cancel_job_for}
use botchatgptclaude.JobService.{finish_job, final_status}
use botchatgptclaude.JobService.Finish.{
  IsFinal, finish_job_lost, finish_job_owned, cancelled_overwritten,
}
use botchatgptclaude.JobService.Lease.{Act, claim, extend, stop, begin, finish}
use botchatgptclaude.Scenarios.{waiting_job, running_job, no_result}

abbrev plane : Plane
plane = record { jobs = waiting_job "a" 5 10 ∷ running_job "c" ∷ []; audits = []; logs = [] }

abbrev green : RunSandboxResult
green = record {
  status = passed;
  result = record no_result { passed = true };
  started = "npm test" ∷ [];
  cleaned = some "/tmp/w";
}

abbrev calm : HeartbeatStats
calm = record { renewals = 2; failures = 0; lease_renewed = true; reason = none }

abbrev calls : List Act
calls =
    claim "w2" 100 none
    ∷ extend "c" "w1" 300 200
    ∷ stop "a" 250
    ∷ begin "bad payload" 260 (waiting_job "a" 5 10)
    ∷ finish true 300 (record (running_job "c") { lease_owner = some "w2" }) green calm
    ∷ claim "w3" 4999 none
    ∷ []

finish_job_lost_example :
    (p' : Plane) × (finish_job true 300
        (record (running_job "c") { lease_owner = some "w2" })
        green
        calm
        plane
      ≡ some p')
    × (p'.jobs ≡ plane.jobs)
finish_job_lost_example =
    finish_job_lost 300 (record (running_job "c") { lease_owner = some "w2" }) green calm plane true
      (unfold get find in refl)

finish_job_owned_example :
    (p' : Plane) × (j : WorkerJob) × (finish_job true 300 (running_job "c") green calm plane
      ≡ some p')
    × (get "c" p'.jobs ≡ some j)
    × IsFinal 300 green calm (running_job "c") j
    × ((k : String) → ("c" == k) ≡ false → get k p'.jobs ≡ get k plane.jobs)
finish_job_owned_example =
    finish_job_owned 300 (running_job "c") green calm plane (running_job "c")
      (unfold get find in refl) refl

cancelled_overwritten_example :
    let q = (cancel_job_for "c" 250 none none plane).0 in
    (Option.map WorkerJob.status (get "c" q.jobs) ≡ some cancelled)
    × ((p' : Plane) × (finish_job true 300 (running_job "c") green calm q ≡ some p')
        × (Option.map WorkerJob.status (get "c" p'.jobs) ≡ some (final_status green calm)))
cancelled_overwritten_example =
    cancelled_overwritten 250 300 none none (running_job "c") green calm plane (running_job "c")
      (unfold get find in refl) refl refl
