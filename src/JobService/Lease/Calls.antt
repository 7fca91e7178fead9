-- ===== src/JobService/Lease/Calls.antt =====
-- What each call of another process leaves of a lease.
use botchatgptclaude.Prelude.{Option}
