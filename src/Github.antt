-- ===== src/Github.antt =====
-- What the program does on GitHub: lib/ai-orchestrator/github/branch-service.ts, and
-- `applyPatchFiles` of github/patch-service.ts.
pub mod Branches
use Prim.Native.Char.{code}
use Prim.Native.String.{◌++◌}
use Prim.Native.String
use botchatgptclaude.Prelude.{
  ℕ, zero, suc, leb, eqb, String, Bool, true, false, not, ◌&&◌, ◌||◌, Option, none, some, get_or,
  List, [], ◌∷◌, ◌==◌, if◌then◌else◌, Result, ok, err,
}
use botchatgptclaude.Text.{show, slice, is_empty}
use botchatgptclaude.Hub.{
  GithubFileContent, PutFileArgs, DeleteFileArgs, Call, get_branch_sha, branch_exists,
  create_branch, get_file, put_file, delete_file, GithubClient, Hub, HubAction, ask,
}
use botchatgptclaude.Effect.{return, throw, ◌>>=◌, ◌>>◌}
use botchatgptclaude.Patch.{
  PatchFileAction, create, modify, delete, PatchFileSpec, PatchArtifact, action_text,
}

abbrev is_alphanumeric : ℕ → Bool
is_alphanumeric c = (leb 48 c && leb c 57) || (leb 65 c && leb c 90) || (leb 97 c && leb c 122)

-- `sessionId.replace(/[^A-Za-z0-9]/g, "")`
unfoldable pub alphanumeric : String → String
alphanumeric String.[] = ""
alphanumeric (String.◌∷◌ c s) =
    let rest = alphanumeric s in if is_alphanumeric (code c) then String.◌∷◌ c rest else rest

unfoldable pub short_session_id : String → String
short_session_id id = slice 8 (if is_empty (alphanumeric id) then "session" else alphanumeric id)

unfoldable pub build_branch_name : String → ℕ → String
build_branch_name session_id timestamp =
    "ai-orchestrator/session-" ++ short_session_id session_id ++ "-" ++ show timestamp

abbrev pub is_protected : String → Bool
is_protected branch = (branch == "main") || (branch == "master")

pub record CreatedBranch : Type 0 where
  pub branch_name : String
  pub base_sha : String

pub record AppliedFile : Type 0 where
  pub path : String
  pub action : PatchFileAction
  pub old_content_hash : Option String
  pub new_content_hash : Option String

-- `redact` is what `GithubApiError` does to its message, `hash` is `hashContent`.
module _ (client : GithubClient) (redact hash : String → String) where
  abbrev pub branch_at : String → ℕ → String
  branch_at root attempt = if eqb attempt 1 then root else root ++ "-" ++ show attempt

  abbrev pub take_branch :
      String → String → HubAction CreatedBranch → Bool → HubAction CreatedBranch
  take_branch name base_sha next true = next
  take_branch name base_sha next false =
      ask (create_branch name base_sha) (λ log. client.on_create_branch log name base_sha)
      >> return (record { branch_name = name; base_sha = base_sha })

  -- The attempts from the given one on, `left` of them.
  unfoldable pub try_branch : String → String → String → ℕ → ℕ → HubAction CreatedBranch
  try_branch base_branch root base_sha zero attempt =
      throw
        (redact ("Could not find a free branch name after 5 attempts (base \"" ++ root ++ "\")."))
  try_branch base_branch root base_sha (suc left) attempt =
      let name = branch_at root attempt in
      if (name == base_branch) || is_protected name
      then throw (redact ("Refusing to create protected branch \"" ++ name ++ "\"."))
      else ask (branch_exists name) (λ log. client.on_branch_exists log name)
        >>= take_branch name base_sha (try_branch base_branch root base_sha left (suc attempt))

  abbrev pub from_sha : String → String → Option String → HubAction CreatedBranch
  from_sha base_branch root none =
      throw (redact ("Base branch \"" ++ base_branch ++ "\" not found; cannot branch from it."))
  from_sha base_branch root (some sha) =
      if is_empty sha
      then throw
          (redact ("Base branch \"" ++ base_branch ++ "\" not found; cannot branch from it."))
      else try_branch base_branch root sha 5 1

  unfoldable pub create_session_branch : String → String → ℕ → HubAction CreatedBranch
  create_session_branch session_id base_branch timestamp =
      ask (get_branch_sha base_branch) (λ log. client.on_branch_sha log base_branch)
      >>= from_sha base_branch (build_branch_name session_id timestamp)

  module _ (branch : String) (message : String) (file : PatchFileSpec) where
    abbrev pub put_args : Option String → PutFileArgs
    put_args sha = record {
      path = file.path;
      content = get_or file.content "";
      message = message;
      branch = branch;
      sha = sha;
    }

    abbrev pub delete_args : String → DeleteFileArgs
    delete_args sha = record { path = file.path; message = message; branch = branch; sha = sha }

    abbrev applied_file : Option String → Option String → AppliedFile
    applied_file old new = record {
      path = file.path;
      action = file.action;
      old_content_hash = old;
      new_content_hash = new;
    }

    -- One file, by its action and what the base branch has.
    abbrev pub write_file : PatchFileAction → Option GithubFileContent → HubAction AppliedFile
    write_file create (some existing) =
        throw (redact ("create failed: file already exists: " ++ file.path))
    write_file create none =
        ask (put_file (put_args none)) (λ log. client.on_put_file log (put_args none))
        >> return (applied_file none (some (hash (get_or file.content ""))))
    write_file modify none = throw (redact ("modify failed: file does not exist: " ++ file.path))
    write_file modify (some existing) =
        ask (put_file (put_args (some existing.sha)))
          (λ log. client.on_put_file log (put_args (some existing.sha)))
        >> return
            (applied_file (some (hash existing.content)) (some (hash (get_or file.content ""))))
    write_file delete none = throw (redact ("delete failed: file does not exist: " ++ file.path))
    write_file delete (some existing) =
        ask (delete_file (delete_args existing.sha))
          (λ log. client.on_delete_file log (delete_args existing.sha))
        >> return (applied_file (some (hash existing.content)) none)

  unfoldable pub apply_patch_files :
      String → String → String → List PatchFileSpec → HubAction (List AppliedFile)
  apply_patch_files branch base_branch prefix [] = return []
  apply_patch_files branch base_branch prefix (file ∷ files) = do
    existing ←
        ask (get_file file.path base_branch) (λ log. client.on_get_file log file.path base_branch)
    one ←
        write_file branch (prefix ++ ": " ++ action_text file.action ++ " " ++ file.path) file
          file.action existing
    others ← apply_patch_files branch base_branch prefix files
    return (one ∷ others)
