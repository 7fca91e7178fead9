-- ===== src/Scan.antt =====
-- The scan of proposed changes: `RULES`, `scanContent` and `hasBlockingViolation` of
-- lib/ai-orchestrator/safety.ts, and `violationOutput` of async-orchestrator.ts. The regular
-- expressions are run by JavaScript: `found` gives the match of the n-th rule's pattern, cut to 120
-- characters.
pub mod Gate
use Prim.Native.String
use botchatgptclaude.Prelude.{
  ℕ, zero, suc, String, Bool, true, false, not, ◌&&◌, Option, none, some, List, [], ◌∷◌, any, map,
  if◌then◌else◌,
}
use botchatgptclaude.Agent.{AgentOutput, fail, needs_revision}

pub data SafetyCategory : Type 0 where
  secret_access destructive_fs auto_deploy destructive_migration : SafetyCategory

pub record SafetyViolation : Type 0 where
  pub category : SafetyCategory
  pub message : String
  pub match : String
  pub overridable_by_approval : Bool

-- A rule without its pattern.
pub record Rule : Type 0 where
  pub category : SafetyCategory
  pub message : String
  pub overridable_by_approval : Bool

abbrev hard : SafetyCategory → String → Rule
hard c m = record { category = c; message = m; overridable_by_approval = false }

abbrev pub rules : List Rule
rules =
    hard secret_access "Reading .env files is forbidden."
    ∷ hard secret_access "Dumping environment variables is forbidden."
    ∷ hard secret_access "Printing secrets / environment variables is forbidden."
    ∷ hard secret_access "Echoing secret environment variables is forbidden."
    ∷ hard destructive_fs "rm -rf is forbidden."
    ∷ hard destructive_fs "Recursive force deletion is forbidden."
    ∷ hard auto_deploy "Automated production deployment is forbidden."
    ∷ (record {
      category = destructive_migration;
      message = "Destructive migration detected; requires explicit human approval.";
      overridable_by_approval = true;
    })
    ∷ []

abbrev pub Found : Type 0
Found = ℕ → String → Option String

abbrev violation : Rule → String → SafetyViolation
violation r m = record {
  category = r.category;
  message = r.message;
  match = m;
  overridable_by_approval = r.overridable_by_approval;
}

module _ (found : Found) (human_approved : Bool) (content : String) where
  abbrev scanned : Rule → List SafetyViolation → Option String → List SafetyViolation
  scanned r rest none = rest
  scanned r rest (some m) =
      if r.overridable_by_approval && human_approved then rest else violation r m ∷ rest

  -- The loop over the rules, from the n-th on.
  unfoldable pub scan_rules : ℕ → List Rule → List SafetyViolation
  scan_rules n [] = []
  scan_rules n (r ∷ rs) = scanned r (scan_rules (suc n) rs) (found n content)

  unfoldable pub scan_content : List SafetyViolation
  unfolding scan_rules
  scan_content = scan_rules 0 rules

unfoldable pub has_blocking_violation : List SafetyViolation → Bool
has_blocking_violation [] = false
has_blocking_violation (v ∷ vs) = true

-- `violations.some((v) => !v.overridableByApproval)`
unfoldable pub is_fatal : List SafetyViolation → Bool
is_fatal vs = any (λ v. not v.overridable_by_approval) vs

abbrev category_text : SafetyCategory → String
category_text secret_access = "secret_access"
category_text destructive_fs = "destructive_fs"
category_text auto_deploy = "auto_deploy"
category_text destructive_migration = "destructive_migration"

abbrev issue_text : SafetyViolation → String
issue_text v = String.◌++◌ "[" (
    String.◌++◌ (category_text v.category) (
      String.◌++◌ "] " (String.◌++◌ v.message (String.◌++◌ " (match: " (String.◌++◌ v.match ")")))))

unfoldable pub violation_output : List SafetyViolation → Bool → AgentOutput
violation_output violations fatal = record {
  status = if fatal then fail else needs_revision;
  summary =
      if fatal
      then "Blocked by safety guard: forbidden operation in proposed changes."
      else "Blocked pending human approval (destructive migration).";
  issues = map issue_text violations;
  next_action =
      if fatal
      then "Remove the forbidden operation and resubmit."
      else "Obtain human approval before proceeding.";
  artifacts = [];
}
