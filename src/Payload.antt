-- ===== src/Payload.antt =====
-- Job payloads, as the zod schemas of lib/ai-orchestrator/worker/types.ts accept them: `none` is a
-- parse error. Members that a schema does not name are dropped.
pub mod Accepted
use botchatgptclaude.Prelude.{
  String, Bool, true, false, not, Option, none, some, List, [], ◌∷◌, ◌==◌, if◌then◌else◌,
}
use botchatgptclaude.Json.{Json, str, bool, arr, obj, Fields, member, items}
use botchatgptclaude.Text.{trim}
use botchatgptclaude.Job.{JobType, is_test_patch}
use botchatgptclaude.Command.{worker_command_allowlist, includes}

pub record RepoRef : Type 0 where
  pub clone_url : String
  pub branch : String
  pub commit_sha : Option String

-- `TestPatchPayload` and `TestBranchPayload` in one: the latter has no `patch_set_id`.
pub record JobPayload : Type 0 where
  pub repo : RepoRef
  pub patch_set_id : Option String
  pub apply_patch : Bool
  pub commands : List String

infixl 5 ◌>>=◌
abbrev pub ◌>>=◌ {ℓ κ} : {A : Type ℓ} {B : Type κ} → Option A → (A → Option B) → Option B
none >>= f = none
some a >>= f = f a

abbrev as_string : Json → Option String
as_string (str s) = some s
as_string _ = none

abbrev as_bool : Json → Option Bool
as_bool (bool b) = some b
as_bool _ = none

abbrev as_object : Json → Option Fields
as_object (obj fs) = some fs
as_object _ = none

abbrev as_array : Json → Option (List Json)
as_array (arr vs) = some (items vs)
as_array _ = none

-- `z.string().min(1)`
abbrev non_empty : String → Option String
non_empty s = if s == "" then none else some s

-- `z.string().optional()`
abbrev optional_string : Option Json → Option (Option String)
optional_string none = some none
optional_string (some v) = do s ← as_string v; some (some s)

-- `z.boolean().default(true)`
abbrev bool_or_true : Option Json → Option Bool
bool_or_true none = some true
bool_or_true (some v) = as_bool v

-- `CommandSchema`: the trimmed text is listed; the value stays as it was sent.
unfoldable pub parse_command : Json → Option String
parse_command v = do
  s ← as_string v
  if includes worker_command_allowlist (trim s) then some s else none

unfoldable pub parse_commands : List Json → Option (List String)
parse_commands [] = some []
parse_commands (v ∷ vs) = do c ← parse_command v; cs ← parse_commands vs; some (c ∷ cs)

-- `.min(1)` on an array
abbrev at_least_one : List String → Option (List String)
at_least_one [] = none
at_least_one (c ∷ cs) = some (c ∷ cs)

unfoldable pub command_list : Json → Option (List String)
unfolding parse_commands
command_list v = do vs ← as_array v; cs ← parse_commands vs; at_least_one cs

unfoldable pub parse_repo_ref : Json → Option RepoRef
parse_repo_ref v = do
  fs ← as_object v
  url ← member "clone_url" fs
  clone_url ← as_string url
  clone_url ← non_empty clone_url
  b ← member "branch" fs
  branch ← as_string b
  branch ← non_empty branch
  sha ← optional_string (member "commit_sha" fs)
  some (record { clone_url = clone_url; branch = branch; commit_sha = sha })

unfoldable pub parse_test_patch : Json → Option JobPayload
unfolding parse_repo_ref command_list
parse_test_patch raw = do
  fs ← as_object raw
  r ← member "repo" fs
  repo ← parse_repo_ref r
  p ← member "patch_set_id" fs
  psid ← as_string p
  psid ← non_empty psid
  apply ← bool_or_true (member "apply_patch" fs)
  c ← member "commands" fs
  commands ← command_list c
  some (record { repo = repo; patch_set_id = some psid; apply_patch = apply; commands = commands })

unfoldable pub parse_test_branch : Json → Option JobPayload
unfolding parse_repo_ref command_list
parse_test_branch raw = do
  fs ← as_object raw
  r ← member "repo" fs
  repo ← parse_repo_ref r
  c ← member "commands" fs
  commands ← command_list c
  some (record { repo = repo; patch_set_id = none; apply_patch = true; commands = commands })

unfoldable pub parse_job_payload : JobType → Json → Option JobPayload
unfolding parse_test_patch parse_test_branch
parse_job_payload job_type raw =
    if is_test_patch job_type then parse_test_patch raw else parse_test_branch raw
