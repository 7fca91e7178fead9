-- ===== src/Agent.antt =====
-- The agents' output contract and the steps of the workflow: lib/ai-orchestrator/types.ts,
-- prompts.ts (which provider runs a step), and the two helpers of async-orchestrator.ts that build
-- and read an output.
use botchatgptclaude.Prelude.{
  ℕ, eqb, String, Bool, true, false, Option, none, some, List, [], ◌∷◌, if◌then◌else◌, first,
}

pub data AgentStatus : Type 0 where
  pass needs_revision fail : AgentStatus

pub data ArtifactType : Type 0 where
  spec plan patch test_report review : ArtifactType

pub record Artifact : Type 0 where
  pub type : ArtifactType
  pub content : String

pub record AgentOutput : Type 0 where
  pub status : AgentStatus
  pub summary : String
  pub issues : List String
  pub next_action : String
  pub artifacts : List Artifact

pub data StepName : Type 0 where
  gpt_product_spec claude_critical_review gpt_implementation_plan : StepName
  claude_code_implementer test_runner gpt_code_reviewer qa_judge : StepName

pub data Provider : Type 0 where
  openai anthropic system : Provider

-- `STEP_PROMPTS[step].provider`
unfoldable pub step_provider : StepName → Provider
step_provider gpt_product_spec = openai
step_provider claude_critical_review = anthropic
step_provider gpt_implementation_plan = openai
step_provider claude_code_implementer = anthropic
step_provider test_runner = anthropic
step_provider gpt_code_reviewer = openai
step_provider qa_judge = openai

pub data RunStatus : Type 0 where
  passed failed blocked skipped : RunStatus

unfoldable pub derive_run_status : Bool → Option ℕ → RunStatus
derive_run_status false exit_code = blocked
derive_run_status true none = skipped
derive_run_status true (some c) = if eqb c 0 then passed else failed

abbrev pub is_pass : AgentStatus → Bool
is_pass pass = true
is_pass _ = false

abbrev same_type : ArtifactType → ArtifactType → Bool
same_type spec spec = true
same_type plan plan = true
same_type patch patch = true
same_type test_report test_report = true
same_type review review = true
same_type _ _ = false

abbrev content_or : String → Option Artifact → String
content_or d none = d
content_or d (some a) = a.content

unfoldable pub artifact_text : AgentOutput → ArtifactType → String
artifact_text output type =
    content_or output.summary (first (λ x. same_type x.type type) output.artifacts)

unfoldable pub mock : AgentStatus → String → ArtifactType → String → AgentOutput
mock status summary artifact_type content = record {
  status = status;
  summary = summary;
  issues = [];
  next_action = "continue";
  artifacts = (record { type = artifact_type; content = content }) ∷ [];
}
