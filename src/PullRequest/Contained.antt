-- ===== src/PullRequest/Contained.antt =====
-- The flow's calls, by the branches that they write to.
use botchatgptclaude.Prelude.{String}
use botchatgptclaude.Audit
use botchatgptclaude.Hub
use botchatgptclaude.Hub.{Hub}
use botchatgptclaude.PullRequest.{PrFlowDeps}

module _ (deps : PrFlowDeps) where
  abbrev base : String
  base = deps.config.default_branch
