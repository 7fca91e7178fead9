-- ===== src/Patch/Applier.antt =====
-- The worker's patch applier: `isUnsafePatchPath` and `applyPatchSet` of
-- lib/ai-orchestrator/worker/patch-applier.ts, on a POSIX system. A workspace is a function from
-- absolute paths without links to contents; `resolve`, the symbolic links, the drift hash, the redaction, what fails on the disk and
-- `git diff --stat` are in `Disk`.
pub mod Outside
pub mod Changes
pub mod Applied
use Prim.Native.String.{◌++◌}
use botchatgptclaude.Prelude.{
  ℕ, String, Bool, true, false, not, ◌&&◌, ◌||◌, Option, none, some, get_or, List, [], ◌∷◌, ◌==◌,
  if◌then◌else◌, is_some, map, Result, ok, err,
}
use botchatgptclaude.Prelude
use botchatgptclaude.Text.{
  is_empty, trim, slice, starts_with, contains, segments, to_posix, join_lines,
}
use botchatgptclaude.Job.{ApplyError}
use botchatgptclaude.Hub
use botchatgptclaude.Hub.{
  PatchSetStatus, PatchSetRecord, PatchFileRecord, PatchFileChangeType, create, modify, delete,
  rename,
}
use botchatgptclaude.Hub.Tables.{get_patch_set, get_patch_files}
use botchatgptclaude.Patch.{has_drive, starts_with_slash, has_segment, last_of, is_env_file}

abbrev posix_of : String → String
posix_of p = to_posix (trim p)

unfoldable pub is_unsafe_patch_path : String → Option String
is_unsafe_patch_path rel =
    if is_empty (trim rel)
    then some "empty path"
    else if has_drive (trim rel) || starts_with_slash (trim rel)
    then some "absolute path"
    else if contains ".." (trim rel)
    then some "path traversal (..)"
    else if contains "~" (trim rel)
    then some "home reference (~)"
    else if has_segment ".git" (segments (posix_of rel))
    then some ".git is forbidden"
    else if has_segment "node_modules" (segments (posix_of rel))
    then some "node_modules is forbidden"
    else if is_env_file (last_of (segments (posix_of rel)))
    then some ".env files are forbidden"
    else none

abbrev pub Workspace : Type 0
Workspace = String → Option String

pub record Disk : Type 0 where
  pub resolve : String → String → String
  -- Where a path leads through its symbolic links, and through those of its directories alone. They
  -- stay what they are while a patch is applied.
  pub follow : String → String
  pub entry : String → String
  pub hash_of : String → String
  pub redact : String → String
  pub strict : Bool
  -- reading or writing there throws; a write that throws may leave anything there
  pub read_fails : String → Bool
  pub write_fails : String → Bool
  pub torn : String → Option String
  pub diff_stat : Result String

-- What the loop has done so far.
pub record Progress : Type 0 where
  pub files : Workspace
  pub changed : List String
  pub errors : List ApplyError
  pub base_hash_checked : Bool

pub record ApplyPatchResult : Type 0 where
  pub patch_applied : Bool
  pub changed_files : List String
  pub diff_summary : String
  pub base_hash_checked : Bool
  pub errors : List ApplyError

-- `resolve(root, fp)`, with the workspace changed at one path
abbrev pub set_at : String → Option String → Workspace → Workspace
set_at target content ws p = if p == target then content else ws p

module _ (disk : Disk) (root : String) where
  abbrev pub target_of : PatchFileRecord → String
  target_of file = disk.resolve root file.file_path

  abbrev pub is_inside : String → Bool
  is_inside target = (target == root) || starts_with (root ++ "/") target

  abbrev pub failed : String → PatchFileRecord → Progress → Progress
  failed code file p = record p {
    errors = Prelude.◌++◌ p.errors ((record { code = code; file_path = some file.file_path }) ∷ []);
  }

  -- What is read and written is where the target leads; a removal removes the target's own entry.
  abbrev pub place_of : PatchFileRecord → String
  place_of file = disk.follow (target_of file)

  abbrev pub entry_of : PatchFileRecord → String
  entry_of file = disk.entry (target_of file)

  -- A write or a removal at a place, which may throw.
  abbrev pub put : PatchFileRecord → String → Option String → Progress → Progress
  put file place content p =
      if disk.write_fails place
      then failed "io_error" file (record p { files = set_at place (disk.torn place) p.files })
      else record p {
        files = set_at place content p.files;
        changed = Prelude.◌++◌ p.changed (file.file_path ∷ []);
      }

  abbrev pub has_hash : Option String → Bool
  has_hash none = false
  has_hash (some h) = not (is_empty h)

  abbrev pub drifts : String → Option String → Bool
  drifts content none = false
  drifts content (some h) = not (disk.hash_of content == h)

  -- `checkBaseHash` on what stands at the target, and then the rest; without a hash the base counts
  -- as unchecked.
  abbrev pub guarded : PatchFileRecord → String → (Progress → Progress) → Progress → Progress
  guarded file content next p =
      if has_hash file.old_content_hash
      then (if disk.read_fails (place_of file)
          then failed "io_error" file p
          else if drifts content file.old_content_hash
          then failed "base_hash_mismatch" file p
          else next p)
      else if disk.strict
      then failed "missing_old_content_hash" file p
      else next (record p { base_hash_checked = false })

  abbrev pub put_content : PatchFileRecord → Option String → Progress → Progress
  put_content file none p = failed "missing_new_content" file p
  put_content file (some content) p = put file (place_of file) (some content) p

  -- The body of the `try` block, by the kind of change and what stands at the target.
  abbrev pub change : PatchFileRecord → PatchFileChangeType → Option String → Progress → Progress
  change file create (some c) p = failed "create_existing_file" file p
  change file create none p =
      put file (place_of file) (some (get_or file.new_content_redacted "")) p
  change file modify none p = failed "modify_missing_file" file p
  change file modify (some c) p = guarded file c (put_content file file.new_content_redacted) p
  change file delete none p = failed "delete_missing_file" file p
  change file delete (some c) p = guarded file c (put file (entry_of file) none) p
  change file rename there p = failed "rename_not_supported" file p

  abbrev pub is_rename : PatchFileChangeType → Bool
  is_rename rename = true
  is_rename _ = false

  unfoldable pub apply_file : PatchFileRecord → Progress → Progress
  apply_file file p =
      if is_some (is_unsafe_patch_path file.file_path)
      then failed "path_unsafe" file p
      else if is_rename file.change_type
      then failed "rename_not_supported" file p
      else if not (is_inside (target_of file))
      then failed "escapes_workspace" file p
      else change file file.change_type (p.files (place_of file)) p

  abbrev pub is_clean : List ApplyError → Bool
  is_clean [] = true
  is_clean (e ∷ es) = false

  -- The loop, which stops at the first error.
  unfoldable pub apply_files : List PatchFileRecord → Progress → Progress
  apply_files [] p = p
  apply_files (file ∷ files) p =
      let rest = apply_files files (apply_file file p) in
      if is_clean (apply_file file p).errors then rest else apply_file file p

  abbrev pub start : Workspace → Progress
  start ws = record { files = ws; changed = []; errors = []; base_hash_checked = true }

  abbrev stat_text : Result String → String
  stat_text (err m) = ""
  stat_text (ok s) = slice 4000 (disk.redact s)

  abbrev listed : String → Progress → String
  listed stat p =
      if is_empty (trim stat) then join_lines (map (λ f. " M " ++ f) p.changed) else stat

  abbrev pub result_of : Progress → ApplyPatchResult
  result_of p =
      if not (is_clean p.errors)
      then record {
        patch_applied = false;
        changed_files = p.changed;
        diff_summary = "";
        base_hash_checked = p.base_hash_checked;
        errors = p.errors;
      }
      else record {
        patch_applied = true;
        changed_files = p.changed;
        diff_summary = listed (stat_text disk.diff_stat) p;
        base_hash_checked = p.base_hash_checked;
        errors = [];
      }

  abbrev refused : String → Workspace → Workspace × ApplyPatchResult
  refused code ws = (
    ws,
    record {
      patch_applied = false;
      changed_files = [];
      diff_summary = "";
      base_hash_checked = false;
      errors = (record { code = code; file_path = none }) ∷ [];
    },
  )

  -- `APPLYABLE_STATUSES`
  abbrev pub is_applyable : PatchSetStatus → Bool
  is_applyable Hub.validated = true
  is_applyable Hub.applied = true
  is_applyable Hub.draft = true
  is_applyable _ = false

  abbrev pub apply_all : List PatchFileRecord → Workspace → Workspace × ApplyPatchResult
  apply_all [] ws = refused "patch_set_no_files" ws
  apply_all (file ∷ files) ws =
      let p = apply_files (file ∷ files) (start ws) in (p.files, result_of p)

  abbrev pub apply_found :
      List PatchFileRecord → Option PatchSetRecord → Workspace → Workspace × ApplyPatchResult
  apply_found files none ws = refused "patch_set_not_found" ws
  apply_found files (some set) ws =
      if not (is_applyable set.status)
      then refused "patch_set_not_applyable" ws
      else apply_all files ws

  -- `root` is the resolved workspace path.
  unfoldable pub apply_patch_set :
      List PatchSetRecord → List PatchFileRecord → String → Workspace → Workspace × ApplyPatchResult
  apply_patch_set sets files id ws =
      apply_found (get_patch_files id files) (get_patch_set id sets) ws
