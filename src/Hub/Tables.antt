-- ===== src/Hub/Tables.antt =====
-- The tables of patch sets, patch files and pull requests: lib/ai-orchestrator/db/repository.ts.
-- The ids that the database draws are arguments, `now` is the clock's reading.
use Prim.Native.String
use botchatgptclaude.Prelude.{
  ℕ, String, Option, none, some, get_or, List, [], ◌∷◌, ◌++◌, ◌==◌, filter, ok, err,
}
use botchatgptclaude.Table
use botchatgptclaude.Hub.{
  PatchSetStatus, PatchSetRecord, PatchFileRecord, PullRequestStatus, PullRequestRecord, HubAction,
}

abbrev pub patch_set_key : PatchSetRecord → String
patch_set_key x = x.id

pub record PatchSetArgs : Type 0 where
  pub session_id : String
  pub user_id : Option String
  pub status : PatchSetStatus
  pub base_branch : String
  pub target_branch : String
  pub patch_summary : Option String
  pub patch_text : Option String
  pub validation_errors : Option (List String)

abbrev pub new_patch_set : String → ℕ → PatchSetArgs → PatchSetRecord
new_patch_set id now args = record {
  id = id;
  session_id = args.session_id;
  user_id = args.user_id;
  status = args.status;
  base_branch = args.base_branch;
  target_branch = args.target_branch;
  base_sha = none;
  patch_summary = args.patch_summary;
  patch_text = args.patch_text;
  validation_errors = args.validation_errors;
  created_at = now;
  updated_at = now;
}

unfoldable pub create_patch_set : String → ℕ → PatchSetArgs → HubAction PatchSetRecord
create_patch_set id now args h =
    let x = new_patch_set id now args in (record h { patch_sets = h.patch_sets ++ x ∷ [] }, ok x)

unfoldable pub get_patch_set : String → List PatchSetRecord → Option PatchSetRecord
get_patch_set id xs = Table.find patch_set_key id xs

pub record PatchSetPatch : Type 0 where
  pub status : Option PatchSetStatus
  pub base_sha : Option (Option String)
  pub validation_errors : Option (Option (List String))

unfoldable pub patch_patch_set : PatchSetPatch → ℕ → PatchSetRecord → PatchSetRecord
patch_patch_set p now x = record x {
  status = get_or p.status x.status;
  base_sha = get_or p.base_sha x.base_sha;
  validation_errors = get_or p.validation_errors x.validation_errors;
  updated_at = now;
}

abbrev patch_set_found : String → PatchSetPatch → ℕ → Option PatchSetRecord → HubAction Unit
patch_set_found id p now none h = (h, err (String.◌++◌ "Patch set " (String.◌++◌ id " not found")))
patch_set_found id p now (some x) h = (
  record h { patch_sets = Table.update patch_set_key id (patch_patch_set p now) h.patch_sets },
  ok tt,
)

unfoldable pub update_patch_set : String → PatchSetPatch → ℕ → HubAction Unit
update_patch_set id p now h = patch_set_found id p now (get_patch_set id h.patch_sets) h

unfoldable pub add_patch_file : PatchFileRecord → HubAction Unit
add_patch_file file h = (record h { patch_files = h.patch_files ++ file ∷ [] }, ok tt)

-- `ORDER BY created_at` is the order of insertion.
unfoldable pub get_patch_files : String → List PatchFileRecord → List PatchFileRecord
get_patch_files id files = filter (λ f. f.patch_set_id == id) files

pub record PullRequestArgs : Type 0 where
  pub session_id : String
  pub patch_set_id : String
  pub user_id : Option String
  pub branch_name : String
  pub base_branch : String
  pub status : PullRequestStatus
  pub github_pr_number : Option ℕ
  pub github_pr_url : Option String
  pub error_message : Option String

unfoldable pub create_pull_request : String → ℕ → PullRequestArgs → HubAction PullRequestRecord
create_pull_request id now args h =
    let x : PullRequestRecord = record {
      id = id;
      session_id = args.session_id;
      patch_set_id = args.patch_set_id;
      user_id = args.user_id;
      github_pr_number = args.github_pr_number;
      github_pr_url = args.github_pr_url;
      branch_name = args.branch_name;
      base_branch = args.base_branch;
      status = args.status;
      error_message = args.error_message;
      created_at = now;
      updated_at = now;
    } in
    (record h { pull_requests = h.pull_requests ++ x ∷ [] }, ok x)
